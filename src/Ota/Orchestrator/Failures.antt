-- ===== src/Ota/Orchestrator/Failures.antt =====
-- A request of the cloud that fails: what `step` leaves as it was.
use iov_vehicle_cgw_fota.Prelude.{◌≡◌, Bool, true, false}
use iov_vehicle_cgw_fota.Ota.State.VehicleTask
use iov_vehicle_cgw_fota.Ota.State.VehicleTask.{VehicleTaskState}
use iov_vehicle_cgw_fota.Ota.Orchestrator.System.{System}

-- The states, the task and the whole store are as they were.
pub record IsKeptWhole (s t : System) : Type 0 where
  pub vt_kept : t.vt_state ≡ s.vt_state
  pub ex_kept : t.ex_state ≡ s.ex_state
  pub task_kept : t.frozen_task ≡ s.frozen_task
  pub store_kept : t.store ≡ s.store

-- The states in which `step` makes one request of the cloud and saves nothing before it.
abbrev pub asks_first : VehicleTaskState → Bool
asks_first VehicleTask.no_task = true
asks_first VehicleTask.discovered = true
asks_first VehicleTask.consent_pending = true
asks_first VehicleTask.waiting_window = true
asks_first VehicleTask.permit_pending = true
asks_first VehicleTask.retry_pending = true
asks_first _ = false

-- The state in which `step` makes that request.
abbrev pub asking_state : VehicleTaskState → VehicleTaskState
asking_state VehicleTask.retry_pending = VehicleTask.permit_pending
asking_state vt = vt

abbrev pub asking : System → System
asking s = record s { vt_state = asking_state s.vt_state }

-- What a request that fails leaves of a step that began in `vt`.
abbrev Left : VehicleTaskState → System → System → Type 0
Left vt s t = IsKeptWhole (record s { vt_state = asking_state vt }) t
