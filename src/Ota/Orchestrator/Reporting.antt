-- ===== src/Ota/Orchestrator/Reporting.antt =====
-- What `doExecute` reports, and when.
use native.Mathlib.Decide.{ℕ_discrete}
use iov_vehicle_cgw_fota.Prelude.{
  ap, ◌∙◌, ℕ, ◌-◌, ◌<◌, ◌≡◌, ◌≢◌, refl, ◌⊎◌, inl, inr, Bool, true, false, Option, none, some, ◌∷◌,
  arith, Bool-cases, ltb,
}
use iov_vehicle_cgw_fota.Store.CloudState.{FotaEventOutboxMeta, FotaEventOutboxRecord}
use iov_vehicle_cgw_fota.Ota.State.VehicleTask.{no_task}
use iov_vehicle_cgw_fota.Ota.State.StateProto.{VehicleTaskStatus, from_proto_vehicle_task}
use iov_vehicle_cgw_fota.Ota.Messages.{Outcome, FinalResultReport, FinalResultResponse}
use iov_vehicle_cgw_fota.Ota.Ports.{Reply, History, prepare}
use iov_vehicle_cgw_fota.Ota.Orchestrator.System.{System, Env, StepOutcome}
use iov_vehicle_cgw_fota.Ota.Orchestrator.Persist.{persist_vehicle_task, persist_execution}
use iov_vehicle_cgw_fota.Ota.Orchestrator.Outbox.{Sending, outbox_meta, all_sent, send_pending}
use iov_vehicle_cgw_fota.Ota.Orchestrator.Finalize.{
  closed_task, close_execution, final_replied, do_finalize,
}
use iov_vehicle_cgw_fota.Ota.Orchestrator.Execute.{
  launch, prepare_answered, start_answered, launch_if, is_unstarted, launched, advance_watermark,
  sent, report_events, do_execute,
}
use iov_vehicle_cgw_fota.Ota.Orchestrator.Untouched.Installation.{finalize-IsUntouched}
use iov_vehicle_cgw_fota.Ota.Orchestrator.Sending.{IsSent, send_events-Sent}
use iov_vehicle_cgw_fota.Ota.Orchestrator.Sequence.{IsNumbered, FitsU32, launch_if-IsNumbered}
use iov_vehicle_cgw_fota.Ota.Orchestrator.Frames.{
  count, is_final, send_events-IsKept, start_executor-IsKept,
}

-- After a finalization the vehicle task is in the state it was in, or in one that is not NONE.
abbrev pub FinalMove : System → System → Type 0
FinalMove s t = (t.vt_state ≡ s.vt_state) ⊎ (t.vt_state ≢ no_task)

closed_task-ne-no_task : (status : VehicleTaskStatus) → closed_task status ≢ no_task
unfolding closed_task from_proto_vehicle_task
closed_task-ne-no_task status h = ground arith

close-vt :
    (resp : FinalResultResponse) (o : Outcome) (e : Env) (s : System)
    → (close_execution resp o e s).1.vt_state ≢ no_task
unfolding close_execution persist_vehicle_task persist_execution
close-vt resp o e s h = closed_task-ne-no_task resp.vehicle_task_status h

final_replied-move :
    (report : FinalResultReport) (reply : Reply FinalResultResponse) (e : Env) (s : System)
    → FinalMove s (final_replied report reply e s).1
unfolding final_replied
final_replied-move report (Reply.fault w) e s = inl refl
final_replied-move report (Reply.response resp) e s = elim (Bool-cases resp.result_accepted) [
  | inl y ↦ simp y (inr (close-vt resp _ e _))
  | inr n ↦ simp n (inl refl)
]

pub finalize-move : (e : Env) (s : System) → FinalMove s (do_finalize e s).1
unfolding do_finalize
finalize-move e s = final_replied-move _ _ e _

-- Every stored event needs no further sending.
abbrev pub AllSent : System → Type 0
AllSent s = (j : ℕ) (rec : FotaEventOutboxRecord) → s.store.events j ≡ some rec → IsSent rec

far_unused :
    {o : Option FotaEventOutboxRecord} (rec : FotaEventOutboxRecord) → o ≡ none → o ≢ some rec
far_unused rec u p = cc

-- The loop over a numbered outbox that ends with no error has sent everything.
pub send_pending-AllSent :
    (max : ℕ) (e : Env) (s : System)
    → IsNumbered max s
    → let (sending, t) = send_pending s.next_seq e s in sending.send_error ≡ false → AllSent t
unfolding send_pending
send_pending-AllSent max e s h clean j rec p =
    let x = send_events-Sent e (s.next_seq - 1) 1 all_sent s h.keyed in
    elim (Bool-cases (ltb j s.next_seq)) [
      | inl low ↦ elim (ℕ_discrete j 0) [
        | yes z ↦ absurd (far_unused rec (x.outside 0 (inl (omega arith)) ∙ h.unused) (rw z at p))
        | no pos ↦ x.sent clean j rec (omega arith) (ground (arith, h.positive)) p
      ]
      | inr high ↦ absurd (
          far_unused rec (x.outside j (inr (ground (arith, h.positive))) ∙ h.fresh j (ground arith))
            p)
    ]

launch-final :
    (e : Env) (s : System) → count is_final (launch e s).1.history ≡ count is_final s.history
unfolding launch prepare_answered start_answered persist_execution
launch-final e s =
    let h : History = prepare s.frozen_task ∷ s.history in
    let k = start_executor-IsKept 0 e (record s { history = h }) in ground (arith, k.final_kept)

pending-final :
    (next : ℕ) (e : Env) (s : System)
    → count is_final (send_pending next e s).1.history ≡ count is_final s.history
unfolding send_pending
pending-final next e s = (send_events-IsKept 0 e (next - 1) 1 all_sent s).final_kept

advance-kept :
    (meta : FotaEventOutboxMeta) (e : Env) (s : System)
    → let t = (advance_watermark meta e s).1 in
      (t.history ≡ s.history) × (t.store.events ≡ s.store.events)
unfolding advance_watermark
advance-kept meta e s = ground arith

persist-kept :
    (e : Env) (s : System)
    → let t = (persist_execution e s).1 in
      (t.history ≡ s.history) × (t.store.events ≡ s.store.events)
unfolding persist_execution
persist-kept e s = (refl, refl)

-- With every event sent or an error at hand, the end of `doExecute` reports no final result unless
-- every event is sent.
sent-waits :
    (sending : Sending) (e : Env) (s : System)
    → (sending.send_error ≡ false → AllSent s)
    → count is_final s.history < count is_final (sent sending e s).1.history
    → AllSent (sent sending e s).1
unfolding sent
sent-waits sending e s a more = elim (Bool-cases sending.send_error) [
  | inl y ↦ absurd (ground arith)
  | inr n ↦ simp n (λ j rec p. a n j rec (rw (finalize-IsUntouched 0 e s).events_kept at p))
]

report_events-waits :
    (max : ℕ) (e : Env) (s : System)
    → IsNumbered max s
    → count is_final s.history < count is_final (report_events e s).1.history
    → AllSent (report_events e s).1
unfolding report_events
report_events-waits max e s h more =
    let (sending, t) = send_pending (outbox_meta s).next_sequence_no e s in
    let v = (advance_watermark (outbox_meta s) e t).1 in
    let w = (persist_execution e v).1 in
    let (a, b) = advance-kept (outbox_meta s) e t in
    let (c, d) = persist-kept e v in
    let all : sending.send_error ≡ false → AllSent t =
      rw h.synced (send_pending-AllSent max e s h) in
    let same : count is_final w.history ≡ count is_final s.history =
      ap (count is_final) (c ∙ a) ∙ pending-final _ e s in
    sent-waits sending e w (λ clean j rec p. all clean j rec (rw (d, b) at p)) (rw same more)

module _ (e : Env) (f : FitsU32 e.cfg.event_outbox_max) where
  launched-waits :
      (o : Option StepOutcome) (s : System)
      → IsNumbered e.cfg.event_outbox_max s
      → count is_final s.history < count is_final (launched o e s).1.history
      → AllSent (launched o e s).1
  unfolding launched
  launched-waits none s h more = report_events-waits _ e s h more
  launched-waits (some failure) s h more = absurd (omega arith)

  launch_if-final :
      (b : Bool) (s : System)
      → count is_final (launch_if b e s).1.history ≡ count is_final s.history
  unfolding launch_if
  launch_if-final true s = launch-final e s
  launch_if-final false s = refl

  -- On a numbered outbox, when `doExecute` reports the final result, every event of the outbox that it
  -- leaves behind is acknowledged or has no payload to send.
  pub final_waits :
      (s : System)
      → IsNumbered e.cfg.event_outbox_max s
      → count is_final s.history < count is_final (do_execute e s).1.history
      → AllSent (do_execute e s).1
  unfolding do_execute
  final_waits s h more =
      let b = is_unstarted s.ex_state in
      launched-waits _ _ (launch_if-IsNumbered e f b s h) (rw (launch_if-final b s) more)
