-- ===== src/Ota/Orchestrator/Frames.antt =====
-- What the outbox and the executor's start leave alone, and the calls that a history holds.
use iov_vehicle_cgw_fota.Prelude.{
  ℕ, zero, suc, ◌≡◌, refl, Bool, true, false, Option, none, some, [], ◌∷◌, arith, ◌==◌, Bool-cases,
  String, inl, inr, str_eq, if◌then◌else◌,
}
use iov_vehicle_cgw_fota.Store.CloudState.{FotaEventOutboxRecord}
use iov_vehicle_cgw_fota.Ota.Messages.{
  ExecutionEvent, EventDisposition, LogGrantRequest, LogGrantResponse,
}
use iov_vehicle_cgw_fota.Ota.Ports.{
  Call, History, LogPackage, now_ms, Reply, StartRun, returns, emits, apply_control,
  report_final_result, start,
}
use iov_vehicle_cgw_fota.Ota.Orchestrator.System.{System, Env}
use iov_vehicle_cgw_fota.Ota.Orchestrator.Finalize.{
  log_reported, log_collected, log_granted, do_log_upload,
}
use iov_vehicle_cgw_fota.Ota.Orchestrator.Outbox.{
  Sending, acknowledges, emit, run_start, start_executor, event_replied, send_payload, send_event,
  send_events,
}

-- A command of revision `r` is handed to the executor.
abbrev pub applies : ℕ → Call → Bool
applies r (apply_control cmd) = cmd.control_revision == r
applies r _ = false

-- The final result is reported to the cloud.
abbrev pub is_final : Call → Bool
is_final (report_final_result report ctx) = true
is_final _ = false

-- The installation is started.
abbrev pub is_start : Call → Bool
is_start (start permit) = true
is_start _ = false

abbrev pub count : (Call → Bool) → History → ℕ
count p [] = 0
count p (c ∷ h) = let rest = count p h in if p c then suc rest else rest

-- From `s` to `t` only the outbox and the history have changed, and no command was applied and no
-- final result was reported.
pub record IsKept (r : ℕ) (s t : System) : Type 0 where
  pub vt_kept : t.vt_state ≡ s.vt_state
  pub ex_kept : t.ex_state ≡ s.ex_state
  pub task_kept : t.frozen_task ≡ s.frozen_task
  pub permit_kept : t.permit ≡ s.permit
  pub id_kept : t.execution_id ≡ s.execution_id
  pub attempt_kept : t.attempt_no ≡ s.attempt_no
  pub vehicle_task_kept : t.store.vehicle_task ≡ s.store.vehicle_task
  pub controls_kept : t.store.controls ≡ s.store.controls
  pub applied_kept : count (applies r) t.history ≡ count (applies r) s.history
  pub final_kept : count is_final t.history ≡ count is_final s.history

pub IsKept-trans : {r : ℕ} {s t u : System} → IsKept r s t → IsKept r t u → IsKept r s u
IsKept-trans h k = ground arith

pub call-IsKept :
    {r : ℕ} {s : System} (c : Call)
    → applies r c ≡ false
    → is_final c ≡ false
    → IsKept r s (record s { history = c ∷ s.history })
call-IsKept c h k = ground arith

module _ (r : ℕ) (e : Env) where
  pub emit-IsKept : (evt : ExecutionEvent) (s : System) → IsKept r s (emit evt e s).1
  unfolding emit
  emit-IsKept evt s = ground arith

  pub run_start-IsKept : (run : StartRun) (s : System) → IsKept r s (run_start run e s).1
  unfolding run_start
  run_start-IsKept (returns result) s = ground arith
  run_start-IsKept (emits evt rest) s =
      let (accepted, s') = emit evt e s in
      IsKept-trans (emit-IsKept evt s) (run_start-IsKept (rest accepted) s')

  pub start_executor-IsKept : (s : System) → IsKept r s (start_executor e s).1
  unfolding start_executor
  start_executor-IsKept s =
      let h : History = start s.permit ∷ s.history in
      IsKept-trans {t = record s { history = h }} (ground arith)
        (run_start-IsKept (e.ports.started h) (record s { history = h }))

  event_replied-IsKept :
      (rec : FotaEventOutboxRecord) (reply : Reply EventDisposition) (sending : Sending)
      (s : System)
      → IsKept r s (event_replied rec reply sending e s).1
  unfolding event_replied
  event_replied-IsKept rec (Reply.fault w) sending s = ground arith
  event_replied-IsKept rec (Reply.response d) sending s = elim (Bool-cases (acknowledges d)) [
    | inl y ↦ simp y (ground arith)
    | inr n ↦ simp n (ground arith)
  ]

  send_payload-IsKept :
      (rec : FotaEventOutboxRecord) (sending : Sending) (s : System)
      → IsKept r s (send_payload rec sending e s).1
  unfolding send_payload
  send_payload-IsKept rec sending s =
      IsKept-trans (call-IsKept _ refl refl) (event_replied-IsKept rec _ sending _)

  pub send_event-IsKept :
      (o : Option FotaEventOutboxRecord) (sending : Sending) (s : System)
      → IsKept r s (send_event o sending e s).1
  unfolding send_event
  send_event-IsKept none sending s = ground arith
  send_event-IsKept (some rec) sending s = elim (Bool-cases (str_eq rec.send_status "ACKED")) [
    | inl y ↦ simp y (ground arith)
    | inr n ↦ simp n (elim (Bool-cases (str_eq rec.event_pb_hex "")) [
      | inl y ↦ simp y (ground arith)
      | inr m ↦ simp m (send_payload-IsKept rec sending s)
    ])
  ]

  pub send_events-IsKept :
      (rounds seq : ℕ) (sending : Sending) (s : System)
      → IsKept r s (send_events rounds seq sending e s).1
  unfolding send_events
  send_events-IsKept zero seq sending s = ground arith
  send_events-IsKept (suc rounds) seq sending s =
      let (sending', s') = send_event (s.store.events seq) sending e s in
      IsKept-trans (send_event-IsKept (s.store.events seq) sending s)
        (send_events-IsKept rounds (suc seq) sending' s')

  log_reported-IsKept :
      (id : String) (grant : LogGrantResponse) (pkg : LogPackage) (reply : Reply Unit) (s : System)
      → IsKept r s (log_reported id grant pkg reply e s).1
  unfolding log_reported
  log_reported-IsKept id grant pkg (Reply.fault w) s = ground arith
  log_reported-IsKept id grant pkg (Reply.response u) s = ground arith

  log_collected-IsKept :
      (id : String) (grant : LogGrantResponse) (pkg : LogPackage) (s : System)
      → IsKept r s (log_collected id grant pkg e s).1
  unfolding log_collected
  log_collected-IsKept id grant pkg s = elim (Bool-cases pkg.generated) [
    | inl y ↦ simp y (
        IsKept-trans (call-IsKept now_ms refl refl)
          (IsKept-trans (call-IsKept _ refl refl) (log_reported-IsKept id grant pkg _ _)))
    | inr n ↦ simp n (ground arith)
  ]

  log_granted-IsKept :
      (id : String) (req : LogGrantRequest) (reply : Reply LogGrantResponse) (s : System)
      → IsKept r s (log_granted id req reply e s).1
  unfolding log_granted
  log_granted-IsKept id req (Reply.fault w) s = ground arith
  log_granted-IsKept id req (Reply.response grant) s =
      IsKept-trans (call-IsKept _ refl refl) (log_collected-IsKept id grant _ _)

  pub do_log_upload-IsKept : (s : System) → IsKept r s (do_log_upload e s).1
  unfolding do_log_upload
  do_log_upload-IsKept s = IsKept-trans (call-IsKept now_ms refl refl) (
      IsKept-trans (call-IsKept now_ms refl refl)
        (IsKept-trans (call-IsKept _ refl refl) (log_granted-IsKept _ _ _ _)))
