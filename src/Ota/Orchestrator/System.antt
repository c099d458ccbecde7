-- ===== src/Ota/Orchestrator/System.antt =====
-- The members of FotaOrchestrator and the actions that its methods are built from
-- (include/cgw/fota/ota/fota_orchestrator.hpp).
use iov_vehicle_cgw_fota.Prelude.{ℕ, String, Bool, false, none, List, [], ◌∷◌}
use iov_vehicle_cgw_fota.Prelude.Int.{ℤ, pos}
use iov_vehicle_cgw_fota.Prelude.Text.{join}
use iov_vehicle_cgw_fota.Store.CloudState.{CloudStore}
use iov_vehicle_cgw_fota.Ota.State.VehicleTask.{VehicleTaskState, no_task}
use iov_vehicle_cgw_fota.Ota.State.Execution.{ExecutionState, permit_persisted}
use iov_vehicle_cgw_fota.Ota.Messages.{VehicleTaskSnapshot, InstallPermitResponse}
use iov_vehicle_cgw_fota.Ota.Ports.{
  CallContext, Call, History, Ports, Codec, FotaOrchestratorConfig, now_ms,
}

-- The mutable members (`vtState_` is `vt_state`, and so on), the store that the orchestrator refers
-- to, and the calls it has made, the newest first.
pub record System : Type 0 where
  pub vt_state : VehicleTaskState
  pub ex_state : ExecutionState
  pub next_seq : ℕ
  pub accepted_seq : ℕ
  pub ack_seq : ℕ
  pub frozen_task : VehicleTaskSnapshot
  pub permit : InstallPermitResponse
  pub execution_id : String
  pub attempt_no : ℕ
  pub last_received_control_rev : ℕ
  pub last_applied_control_rev : ℕ
  pub pending_control_ids : List String
  pub store : CloudStore
  pub history : History

-- What a run of the orchestrator is given.
pub record Env : Type 0 where
  pub ports : Ports
  pub codec : Codec
  pub cfg : FotaOrchestratorConfig

abbrev pub empty_task : VehicleTaskSnapshot
empty_task = record {
  vehicle_task_id = "";
  task_revision = 0;
  target_baseline_code = "";
  start_time_ms = pos 0;
  end_time_ms = pos 0;
  consent_required = false;
  terms_version = none;
  package_list = [];
  install_plan_version = "";
}

abbrev pub empty_permit : InstallPermitResponse
empty_permit = record {
  allowed = false;
  deny_reason = none;
  execution_id = none;
  attempt_no = none;
  permit_id = none;
  permit_token = none;
  control_revision = none;
  valid_until_ms = none;
  install_plan_version = none;
  offline_policy = none;
  timeout_policy = none;
}

-- A new orchestrator over a store.
abbrev pub create : CloudStore → System
create store = record {
  vt_state = no_task;
  ex_state = permit_persisted;
  next_seq = 1;
  accepted_seq = 0;
  ack_seq = 1;
  frozen_task = empty_task;
  permit = empty_permit;
  execution_id = "";
  attempt_no = 0;
  last_received_control_rev = 0;
  last_applied_control_rev = 0;
  pending_control_ids = [];
  store = store;
  history = [];
}

-- A method with a result.
abbrev pub M : Type 0 → Type 0
M A = Env → System → A × System

infixl 5 ◌>>=◌ ◌>>◌
abbrev pub ◌>>=◌ : {A B : Type 0} → M A → (A → M B) → M B
◌>>=◌ m f e s = let (a, s') = m e s in f a e s'

abbrev pub ◌>>◌ : {A B : Type 0} → M A → M B → M B
◌>>◌ m f e s = f e (m e s).1

abbrev pub pure : {A : Type 0} → A → M A
pure a e s = (a, s)

abbrev pub gets : {A : Type 0} → (System → A) → M A
gets f e s = (f s, s)

abbrev pub asks : {A : Type 0} → (Env → A) → M A
asks f e s = (f e, s)

abbrev pub modify : (System → System) → M Unit
modify f e s = (tt, f s)

abbrev pub update_store : (CloudStore → CloudStore) → M Unit
update_store f e s = (tt, record s { store = f s.store })

-- A call of a port: it is recorded, and the port answers.
abbrev pub call : {A : Type 0} → Call → (Ports → History → A) → M A
call c answer e s = let h : History = c ∷ s.history in (answer e.ports h, record s { history = h })

-- `nowMs`
abbrev pub read_clock : M ℤ
read_clock = call now_ms (λ p. p.clock)

-- `makeCtx`
abbrev pub make_ctx : String → M CallContext
make_ctx key e s = (
  record {
    trace_id = join "trace-" key;
    request_id = join "req-" key;
    idempotency_key = key;
    timeout_ms = e.cfg.cloud_call_timeout_ms;
    device_id = e.cfg.device_id;
    vin = e.cfg.vin;
    vehicle_task_id = s.frozen_task.vehicle_task_id;
    execution_id = s.execution_id;
  },
  s,
)

-- `StepOutcome`
pub record StepOutcome : Type 0 where
  pub vehicle_task_state : VehicleTaskState
  pub execution_state : ExecutionState
  pub terminal : Bool
  pub action : String
  pub error : String
  pub transport_failed : Bool

-- A `StepOutcome` with its default members and an action.
abbrev pub outcome : String → StepOutcome
outcome action = record {
  vehicle_task_state = no_task;
  execution_state = permit_persisted;
  terminal = false;
  action = action;
  error = "";
  transport_failed = false;
}
