-- ===== src/Ota/Orchestrator/Numbering.antt =====
-- The numbering of the outbox through `doExecute` and `step`.
use iov_vehicle_cgw_fota.Prelude.{
  ℕ, ◌-◌, sym, ◌∙◌, ◌≡◌, Option, none, some, inl, inr, arith, Bool-cases,
}
use iov_vehicle_cgw_fota.Ota.State.VehicleTask.{
  VehicleTaskState, no_task, discovered, consent_pending, download_pending, downloading, ready,
  waiting_window, permit_pending, executing, retry_pending, rollback_pending, paused, completed,
  ended, is_terminal_vehicle_task_state,
}
use iov_vehicle_cgw_fota.Ota.Orchestrator.System.{System, Env, StepOutcome}
use iov_vehicle_cgw_fota.Ota.Orchestrator.Outbox.{Sending, all_sent, outbox_meta, send_pending}
use iov_vehicle_cgw_fota.Ota.Orchestrator.Execute.{
  is_unstarted, sent, report_events, launched, do_execute,
}
use iov_vehicle_cgw_fota.Ota.Orchestrator.Step.{do_nothing, dispatch, step}
use iov_vehicle_cgw_fota.Ota.Orchestrator.Untouched.{
  IsUntouched, IsUntouched-refl, persist_execution-IsUntouched,
}
use iov_vehicle_cgw_fota.Ota.Orchestrator.Untouched.Detection.{
  check-IsUntouched, consent-IsUntouched, download-IsUntouched,
}
use iov_vehicle_cgw_fota.Ota.Orchestrator.Untouched.Installation.{
  permit-IsUntouched, finalize-IsUntouched,
}
use iov_vehicle_cgw_fota.Ota.Orchestrator.Sending.{IsKeyed, send_events-Sent}
use iov_vehicle_cgw_fota.Ota.Orchestrator.Sequence.{
  IsNumbered, FitsU32, send_pending-IsNumbered, IsUntouched-IsNumbered, launch_if-IsNumbered,
  advance-IsNumbered,
}

sending-next_seq :
    (next : ℕ) (e : Env) (s : System) → IsKeyed s → (send_pending next e s).1.next_seq ≡ s.next_seq
unfolding send_pending
sending-next_seq next e s h = (send_events-Sent e (next - 1) 1 all_sent s h).next_kept

sent-IsUntouched : (sending : Sending) (e : Env) (s : System) → IsUntouched 0 s (sent sending e s).1
unfolding sent
sent-IsUntouched sending e s = elim (Bool-cases sending.send_error) [
  | inl y ↦ simp y IsUntouched-refl
  | inr n ↦ simp n (finalize-IsUntouched 0 e s)
]

report_events-IsNumbered :
    (max : ℕ) (e : Env) (s : System) → IsNumbered max s → IsNumbered max (report_events e s).1
unfolding report_events
report_events-IsNumbered max e s h =
    let t = (send_pending (outbox_meta s).next_sequence_no e s).1 in
    let a : IsNumbered max t = rw h.synced (send_pending-IsNumbered max e s h) in
    IsUntouched-IsNumbered (sent-IsUntouched _ e _) (
      IsUntouched-IsNumbered (persist_execution-IsUntouched 0 e _) (
        advance-IsNumbered max (outbox_meta s) e t (h.synced ∙ sym (sending-next_seq _ e s h.keyed))
          a))

module _ (e : Env) (f : FitsU32 e.cfg.event_outbox_max) where
  launched-IsNumbered :
      (o : Option StepOutcome) (s : System)
      → IsNumbered e.cfg.event_outbox_max s
      → IsNumbered e.cfg.event_outbox_max (launched o e s).1
  unfolding launched
  launched-IsNumbered none s h = report_events-IsNumbered _ e s h
  launched-IsNumbered (some failure) s h = h

  pub execute-IsNumbered :
      (s : System)
      → IsNumbered e.cfg.event_outbox_max s
      → IsNumbered e.cfg.event_outbox_max (do_execute e s).1
  unfolding do_execute
  execute-IsNumbered s h =
      launched-IsNumbered _ _ (launch_if-IsNumbered e f (is_unstarted s.ex_state) s h)

  dispatch-IsNumbered :
      (vt : VehicleTaskState) (s : System)
      → IsNumbered e.cfg.event_outbox_max s
      → IsNumbered e.cfg.event_outbox_max (dispatch vt e s).1
  unfolding dispatch do_nothing
  dispatch-IsNumbered no_task s h = IsUntouched-IsNumbered (check-IsUntouched 0 e s) h
  dispatch-IsNumbered discovered s h = IsUntouched-IsNumbered (check-IsUntouched 0 e s) h
  dispatch-IsNumbered consent_pending s h = IsUntouched-IsNumbered (consent-IsUntouched 0 e s) h
  dispatch-IsNumbered download_pending s h = IsUntouched-IsNumbered (download-IsUntouched 0 e s) h
  dispatch-IsNumbered downloading s h = IsUntouched-IsNumbered (download-IsUntouched 0 e s) h
  dispatch-IsNumbered ready s h = IsUntouched-IsNumbered (permit-IsUntouched 0 e s) h
  dispatch-IsNumbered waiting_window s h = IsUntouched-IsNumbered (permit-IsUntouched 0 e s) h
  dispatch-IsNumbered permit_pending s h = IsUntouched-IsNumbered (permit-IsUntouched 0 e s) h
  dispatch-IsNumbered executing s h = execute-IsNumbered s h
  dispatch-IsNumbered retry_pending s h =
      IsUntouched-IsNumbered (permit-IsUntouched 0 e _)
        (IsUntouched-IsNumbered {r = 0} {s = s} (ground arith) h)
  dispatch-IsNumbered rollback_pending s h =
      execute-IsNumbered _ (IsUntouched-IsNumbered {r = 0} {s = s} (ground arith) h)
  dispatch-IsNumbered paused s h = h
  dispatch-IsNumbered completed s h = h
  dispatch-IsNumbered ended s h = h

  -- One step keeps the outbox numbered: the watermarks stay below the next number, the next number
  -- stays at most one above `eventOutboxMax`, it is the stored one, and no event has it or a later one.
  pub step-IsNumbered :
      (s : System)
      → IsNumbered e.cfg.event_outbox_max s
      → IsNumbered e.cfg.event_outbox_max (step e s).1
  unfolding step
  step-IsNumbered s h = elim (Bool-cases (is_terminal_vehicle_task_state s.vt_state)) [
    | inl y ↦ simp y h
    | inr n ↦ simp n (dispatch-IsNumbered s.vt_state s h)
  ]
