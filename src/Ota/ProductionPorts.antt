-- ===== src/Ota/ProductionPorts.antt =====
-- The vehicle ports of production (src/ota/production_ports.cpp and
-- include/cgw/fota/ota/ports/production_ports.hpp), which are placeholders that refuse. The cloud,
-- the clock and the inventory are those of the given ports.
use iov_vehicle_cgw_fota.Prelude.{
  ℕ, zero, suc, ◌≡◌, ◌≢◌, refl, ap, sym, ◌∙◌, inl, inr, Bool, true, false, not, ◌&&◌, none, [], ◌∷◌,
  arith, Bool-cases,
}
use iov_vehicle_cgw_fota.Prelude.Text.{repeat_text}
use iov_vehicle_cgw_fota.Ota.State.VehicleTask
use iov_vehicle_cgw_fota.Ota.State.VehicleTask.{
  VehicleTaskState, waiting_window, permit_pending, executing, retry_pending, rollback_pending,
  ◌is◌, is_terminal_vehicle_task_state,
}
use iov_vehicle_cgw_fota.Ota.Messages.{ConsentStatus, consent_unspecified, ack_rejected}
use iov_vehicle_cgw_fota.Ota.Ports.{
  Ports, History, DownloadOutcome, ConditionEvaluation, PrepareResult, StartResult, returns,
  ControlApplyOutcome, FinalResultData, LogPackage, now_ms, all_guards_passed,
}
use iov_vehicle_cgw_fota.Ota.Orchestrator.System.{System, Env}
use iov_vehicle_cgw_fota.Ota.Orchestrator.Permit.{do_permit}
use iov_vehicle_cgw_fota.Ota.Orchestrator.Step.{dispatch, step}
use iov_vehicle_cgw_fota.Ota.Orchestrator.Moves.{step_target, step_moves}
use iov_vehicle_cgw_fota.Ota.Orchestrator.Permission.{permission}

abbrev pub requested_consent : ConsentStatus
requested_consent = consent_unspecified

abbrev pub download_refused : DownloadOutcome
download_refused = record {
  all_stages_succeeded = false;
  stage_result = none;
  final_offset_bytes = 0;
  error_detail = "object store downloader not provisioned (conservative)";
}

abbrev pub prepare_refused : PrepareResult
prepare_refused = record {
  ready = false;
  reason = "install executor not provisioned (conservative)";
}

abbrev pub start_refused : StartResult
start_refused = record {
  started = false;
  reason = "install executor not provisioned (conservative)";
}

abbrev pub control_refused : ControlApplyOutcome
control_refused = record {
  status = ack_rejected;
  reason = "control executor not provisioned (conservative)";
}

abbrev pub no_final_result : FinalResultData
no_final_result = record {
  actual_baseline_code = "";
  baseline_status = "";
  ecu_results = [];
  rollback_occurred = false;
}

abbrev pub no_log : LogPackage
no_log = record {
  digest_hex = "";
  algorithm = "";
  size_bytes = 0;
  generated = false;
  error_code = "FOTA-LOG-COLLECT";
}

-- `evaluateConditions` reads the clock itself.
abbrev pub evaluated_conditions : Ports → History → ConditionEvaluation
evaluated_conditions p h = record {
  condition_set_version = "cond-v1";
  snapshot = record { collected_at_ms = p.clock (now_ms ∷ h) };
  local_readiness_digest = repeat_text 64 "0";
  all_guards_passed = false;
  failed_conditions = "guards_not_evaluated" ∷ [];
}

-- The ports with the production placeholders in place.
unfoldable pub conservative : Ports → Ports
conservative p = record p {
  user_choice = λ h. requested_consent;
  download = λ h. download_refused;
  guards = λ h. false;
  conditions = evaluated_conditions p;
  prepared = λ h. prepare_refused;
  started = λ h. returns start_refused;
  final_data = λ h. no_final_result;
  log_package = λ h. no_log;
  control = λ h. control_refused;
}

-- `step`, a number of times.
unfoldable pub steps : ℕ → Env → System → System
steps zero e s = s
steps (suc n) e s = steps n e (step e s).1

-- The task does not execute, and no rollback of it is pending.
abbrev pub is_idle : VehicleTaskState → Bool
is_idle vt = not (vt is executing) && not (vt is rollback_pending)

conservative_permit :
    (p : Ports) (e : Env) (s : System)
    → e.ports ≡ conservative p
    → s.vt_state ≢ executing
    → (do_permit e s).1.vt_state ≢ executing
unfolding conservative
conservative_permit p e s h n x =
    let (w, g, t) = permission e s n x in
    absurd (refused (ap (λ q. q.guards (all_guards_passed ∷ now_ms ∷ s.history)) h) g)
  where
    refused : {b : Bool} → b ≡ false → b ≢ true
    refused a b = cc

dispatch_idle :
    (vt : VehicleTaskState) (p : Ports) (e : Env) (s : System)
    → e.ports ≡ conservative p
    → s.vt_state ≡ vt
    → is_idle vt ≡ true
    → (dispatch vt e s).1.vt_state ≡ executing
    → step_target vt executing ≡ true
    → ⊥
unfolding dispatch
dispatch_idle VehicleTask.waiting_window p e s h v i x t =
    conservative_permit p e s h (ground arith) x
dispatch_idle VehicleTask.permit_pending p e s h v i x t =
    conservative_permit p e s h (ground arith) x
dispatch_idle VehicleTask.retry_pending p e s h v i x t =
    conservative_permit p e _ h (ground arith) x
dispatch_idle _ p e s h v i x t = absurd (ground arith)

idle_from :
    (from to : VehicleTaskState)
    → is_idle from ≡ true
    → step_target from to ≡ true
    → to ≢ executing
    → is_idle to ≡ true
idle_from from to i t n = ground arith

idle-ne-executing : (vt : VehicleTaskState) → is_idle vt ≡ true → vt ≢ executing
idle-ne-executing vt i h = ground arith

step-ne-executing :
    (p : Ports) (e : Env) (s : System)
    → e.ports ≡ conservative p
    → is_idle s.vt_state ≡ true
    → (step e s).1.vt_state ≢ executing
unfolding step
step-ne-executing p e s h i x =
    let target : step_target s.vt_state executing ≡ true =
      ap (step_target s.vt_state) (sym x) ∙ step_moves e s in
    elim (Bool-cases (is_terminal_vehicle_task_state s.vt_state)) [
      | inl y ↦ absurd (idle-ne-executing s.vt_state i (simp y at x))
      | inr m ↦ dispatch_idle s.vt_state p e s h refl i (simp m at x) target
    ]

step_idle :
    (p : Ports) (e : Env) (s : System)
    → e.ports ≡ conservative p
    → is_idle s.vt_state ≡ true
    → is_idle (step e s).1.vt_state ≡ true
step_idle p e s h i = idle_from s.vt_state _ i (step_moves e s) (step-ne-executing p e s h i)

-- With the production vehicle ports, and whatever the cloud, the clock and the inventory answer, a
-- task that neither executes nor has a rollback pending does not execute after any number of steps.
pub production_never_executes :
    (n : ℕ) (p : Ports) (e : Env) (s : System)
    → e.ports ≡ conservative p
    → is_idle s.vt_state ≡ true
    → is_idle (steps n e s).vt_state ≡ true
unfolding steps
production_never_executes zero p e s h i = i
production_never_executes (suc n) p e s h i =
    production_never_executes n p e (step e s).1 h (step_idle p e s h i)
