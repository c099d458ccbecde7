-- ===== src/Ota/Orchestrator/Permit.antt =====
-- The installation permit: `doPermit`.
use iov_vehicle_cgw_fota.Prelude.{
  String, Bool, true, false, not, ◌||◌, Option, none, some, get_or, if◌then◌else◌,
}
use iov_vehicle_cgw_fota.Prelude.Int.{ℤ, ltb_ℤ}
use iov_vehicle_cgw_fota.Prelude.Text.{join, repeat_text}
use iov_vehicle_cgw_fota.Store.CloudState.{FotaConsentRecord}
use iov_vehicle_cgw_fota.Ota.State.VehicleTask
use iov_vehicle_cgw_fota.Ota.State.VehicleTask.{◌is◌, waiting_window, executing}
use iov_vehicle_cgw_fota.Ota.State.Execution.{permit_persisted}
use iov_vehicle_cgw_fota.Ota.Messages.{InstallPermitRequest, InstallPermitResponse}
use iov_vehicle_cgw_fota.Ota.Ports.{
  Reply, response, fault, ConditionEvaluation, all_guards_passed, evaluate_conditions,
  request_install,
}
use iov_vehicle_cgw_fota.Ota.Orchestrator.System.{
  System, M, StepOutcome, outcome, ◌>>=◌, ◌>>◌, pure, gets, modify, call, read_clock, make_ctx,
}
use iov_vehicle_cgw_fota.Ota.Orchestrator.Persist.{persist_vehicle_task, persist_execution}

-- A refusal of `doPermit`.
abbrev pub refused : String → StepOutcome
refused why = record (outcome "permit") { error = why }

-- `t < start_time_ms || t >= end_time_ms` is false.
abbrev pub window_open : ℤ → ℤ → ℤ → Bool
window_open start end t = not (ltb_ℤ t start || not (ltb_ℤ t end))

abbrev pub receipt_of : Option FotaConsentRecord → String
receipt_of none = ""
receipt_of (some r) = r.receipt_id

unfoldable pub permit_request : ConditionEvaluation → System → InstallPermitRequest
permit_request ev s = record {
  task_revision = s.frozen_task.task_revision;
  install_plan_version = s.frozen_task.install_plan_version;
  package_manifest_digest = record { algorithm = "sha-256"; value_hex = repeat_text 64 "m" };
  consent_receipt_id = receipt_of s.store.consent;
  local_readiness_digest = record { algorithm = "sha-256"; value_hex = ev.local_readiness_digest };
  local_guard_passed = ev.all_guards_passed;
  failed_conditions = ev.failed_conditions;
  condition_set_version = ev.condition_set_version;
  condition_snapshot = ev.snapshot;
}

-- The permit becomes the current one, and the execution begins.
unfoldable pub hold_permit : InstallPermitResponse → System → System
hold_permit resp s = record s {
  permit = resp;
  execution_id = get_or resp.execution_id "";
  attempt_no = get_or resp.attempt_no 0;
  ex_state = permit_persisted;
  vt_state = executing;
}

unfoldable pub save_permit : InstallPermitResponse → M Unit
save_permit resp = do modify (hold_permit resp); persist_vehicle_task "permit"; persist_execution

-- Whether the permit has expired; the clock is read only for a permit with an end.
unfoldable pub permit_expired : Option ℤ → M Bool
permit_expired none = pure false
permit_expired (some valid_until) = do now ← read_clock; pure (not (ltb_ℤ now valid_until))

unfoldable pub guards_rechecked : Bool → M StepOutcome
guards_rechecked false = pure (refused "pre-install recheck failed (guards)")
guards_rechecked true = do
  s ← gets (λ s. s)
  pure (record (outcome "permit") { vehicle_task_state = s.vt_state; execution_state = s.ex_state })

-- The check before INSTALL_STARTED, after the permit has been saved.
unfoldable pub expiry_rechecked : Bool → M StepOutcome
expiry_rechecked true = pure (refused "pre-install recheck failed (validUntil)")
expiry_rechecked false = do guards ← call all_guards_passed (λ p. p.guards); guards_rechecked guards

-- The permit is granted: it is saved before anything is done with it.
unfoldable pub accept_permit : InstallPermitResponse → M StepOutcome
accept_permit resp = do
  save_permit resp
  expired ← permit_expired resp.valid_until_ms
  expiry_rechecked expired

unfoldable pub permit_allowed : Bool → InstallPermitResponse → M StepOutcome
permit_allowed true resp = accept_permit resp
permit_allowed false resp =
    pure (refused (join "install denied: " (get_or resp.deny_reason "no reason")))

unfoldable pub permit_replied : Reply InstallPermitResponse → M StepOutcome
permit_replied (fault what) =
    pure (record (outcome "permit") { error = what; transport_failed = true })
permit_replied (response resp) = permit_allowed resp.allowed resp

-- The guards have been checked: the cloud is asked.
unfoldable pub guards_checked : Bool → M StepOutcome
guards_checked false = pure (refused "local guards not passed")
guards_checked true = do
  ev ← call evaluate_conditions (λ p. p.conditions)
  req ← gets (permit_request ev)
  task ← gets (λ s. s.frozen_task)
  ctx ← make_ctx (join "permit-" task.vehicle_task_id)
  reply ← call (request_install req ctx) (λ p. p.permit)
  permit_replied reply

-- The window has been checked: the guards are next.
unfoldable pub window_checked : Bool → M StepOutcome
window_checked false = pure (refused "install window not open")
window_checked true = do guards ← call all_guards_passed (λ p. p.guards); guards_checked guards

-- `doPermit` in a state other than READY.
unfoldable pub ask_permit : M StepOutcome
ask_permit = do
  t ← read_clock
  task ← gets (λ s. s.frozen_task)
  window_checked (window_open task.start_time_ms task.end_time_ms t)

unfoldable pub do_permit : M StepOutcome
do_permit = do
  vt ← gets (λ s. s.vt_state)
  if vt is VehicleTask.ready
      then (do
        modify (λ s. record s { vt_state = waiting_window })
        persist_vehicle_task "waitingWindow"
        pure (record (outcome "waitingWindow") { vehicle_task_state = waiting_window }))
      else ask_permit
