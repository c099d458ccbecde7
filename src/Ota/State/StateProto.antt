-- ===== src/Ota/State/StateProto.antt =====
-- The images of the two state machines in the enumerations of the wire contract
-- (src/ota/state/state_proto.cpp; the enumerations are those of proto/vehicle/fota/v1/types.proto).
use iov_vehicle_cgw_fota.Prelude.{ℕ, ◌≡◌, refl, ◌≢◌, arith}
use iov_vehicle_cgw_fota.Ota.State.VehicleTask.{VehicleTaskState}
use iov_vehicle_cgw_fota.Ota.State.Execution.{ExecutionState}

-- `enum VehicleTaskStatus`. An enumeration of proto3 is open: `unrecognized` carries a value that
-- the contract does not name, as the bit pattern of its 32 bits.
pub data VehicleTaskStatus : Type 0 where
  unspecified discovered consent_pending download_pending downloading ready waiting_window
        permit_pending executing paused retry_pending rollback_pending completed ended :
      VehicleTaskStatus
  unrecognized : ℕ → VehicleTaskStatus

-- `enum ExecutionStatus`
pub data ExecutionStatus : Type 0 where
  unspecified permit_persisted ready install_started installing rebooting post_checking rolling_back
        result_pending succeeded failed rolled_back canceled paused :
      ExecutionStatus
  unrecognized : ℕ → ExecutionStatus

unfoldable pub vehicle_task_to_proto : VehicleTaskState → VehicleTaskStatus
vehicle_task_to_proto VehicleTaskState.no_task = VehicleTaskStatus.unspecified
vehicle_task_to_proto VehicleTaskState.discovered = VehicleTaskStatus.discovered
vehicle_task_to_proto VehicleTaskState.consent_pending = VehicleTaskStatus.consent_pending
vehicle_task_to_proto VehicleTaskState.download_pending = VehicleTaskStatus.download_pending
vehicle_task_to_proto VehicleTaskState.downloading = VehicleTaskStatus.downloading
vehicle_task_to_proto VehicleTaskState.ready = VehicleTaskStatus.ready
vehicle_task_to_proto VehicleTaskState.waiting_window = VehicleTaskStatus.waiting_window
vehicle_task_to_proto VehicleTaskState.permit_pending = VehicleTaskStatus.permit_pending
vehicle_task_to_proto VehicleTaskState.executing = VehicleTaskStatus.executing
vehicle_task_to_proto VehicleTaskState.retry_pending = VehicleTaskStatus.retry_pending
vehicle_task_to_proto VehicleTaskState.rollback_pending = VehicleTaskStatus.rollback_pending
vehicle_task_to_proto VehicleTaskState.paused = VehicleTaskStatus.paused
vehicle_task_to_proto VehicleTaskState.completed = VehicleTaskStatus.completed
vehicle_task_to_proto VehicleTaskState.ended = VehicleTaskStatus.ended

unfoldable pub from_proto_vehicle_task : VehicleTaskStatus → VehicleTaskState
from_proto_vehicle_task VehicleTaskStatus.unspecified = VehicleTaskState.no_task
from_proto_vehicle_task VehicleTaskStatus.discovered = VehicleTaskState.discovered
from_proto_vehicle_task VehicleTaskStatus.consent_pending = VehicleTaskState.consent_pending
from_proto_vehicle_task VehicleTaskStatus.download_pending = VehicleTaskState.download_pending
from_proto_vehicle_task VehicleTaskStatus.downloading = VehicleTaskState.downloading
from_proto_vehicle_task VehicleTaskStatus.ready = VehicleTaskState.ready
from_proto_vehicle_task VehicleTaskStatus.waiting_window = VehicleTaskState.waiting_window
from_proto_vehicle_task VehicleTaskStatus.permit_pending = VehicleTaskState.permit_pending
from_proto_vehicle_task VehicleTaskStatus.executing = VehicleTaskState.executing
from_proto_vehicle_task VehicleTaskStatus.retry_pending = VehicleTaskState.retry_pending
from_proto_vehicle_task VehicleTaskStatus.rollback_pending = VehicleTaskState.rollback_pending
from_proto_vehicle_task VehicleTaskStatus.paused = VehicleTaskState.paused
from_proto_vehicle_task VehicleTaskStatus.completed = VehicleTaskState.completed
from_proto_vehicle_task VehicleTaskStatus.ended = VehicleTaskState.ended
from_proto_vehicle_task (VehicleTaskStatus.unrecognized n) = VehicleTaskState.no_task

unfoldable pub execution_to_proto : ExecutionState → ExecutionStatus
execution_to_proto ExecutionState.permit_persisted = ExecutionStatus.permit_persisted
execution_to_proto ExecutionState.ready = ExecutionStatus.ready
execution_to_proto ExecutionState.install_started = ExecutionStatus.install_started
execution_to_proto ExecutionState.install = ExecutionStatus.installing
execution_to_proto ExecutionState.reboot = ExecutionStatus.rebooting
execution_to_proto ExecutionState.post_check = ExecutionStatus.post_checking
execution_to_proto ExecutionState.rollback = ExecutionStatus.rolling_back
execution_to_proto ExecutionState.result_pending = ExecutionStatus.result_pending
execution_to_proto ExecutionState.succeeded = ExecutionStatus.succeeded
execution_to_proto ExecutionState.failed = ExecutionStatus.failed
execution_to_proto ExecutionState.rolled_back = ExecutionStatus.rolled_back
execution_to_proto ExecutionState.canceled = ExecutionStatus.canceled

unfoldable pub from_proto_execution : ExecutionStatus → ExecutionState
from_proto_execution ExecutionStatus.permit_persisted = ExecutionState.permit_persisted
from_proto_execution ExecutionStatus.ready = ExecutionState.ready
from_proto_execution ExecutionStatus.install_started = ExecutionState.install_started
from_proto_execution ExecutionStatus.installing = ExecutionState.install
from_proto_execution ExecutionStatus.rebooting = ExecutionState.reboot
from_proto_execution ExecutionStatus.post_checking = ExecutionState.post_check
from_proto_execution ExecutionStatus.rolling_back = ExecutionState.rollback
from_proto_execution ExecutionStatus.result_pending = ExecutionState.result_pending
from_proto_execution ExecutionStatus.succeeded = ExecutionState.succeeded
from_proto_execution ExecutionStatus.failed = ExecutionState.failed
from_proto_execution ExecutionStatus.rolled_back = ExecutionState.rolled_back
from_proto_execution ExecutionStatus.canceled = ExecutionState.canceled
from_proto_execution ExecutionStatus.paused = ExecutionState.canceled
from_proto_execution ExecutionStatus.unspecified = ExecutionState.permit_persisted
from_proto_execution (ExecutionStatus.unrecognized n) = ExecutionState.permit_persisted

-- Every vehicle task state and every execution state comes back from its image on the wire.
pub from_proto-to_proto :
    (v : VehicleTaskState) (e : ExecutionState)
    → (from_proto_vehicle_task (vehicle_task_to_proto v) ≡ v)
      × (from_proto_execution (execution_to_proto e) ≡ e)
unfolding from_proto_vehicle_task vehicle_task_to_proto from_proto_execution execution_to_proto
from_proto-to_proto v e = ground arith

vehicle_task_status_back :
    (v : VehicleTaskStatus)
    → ((n : ℕ) → v ≢ VehicleTaskStatus.unrecognized n)
    → vehicle_task_to_proto (from_proto_vehicle_task v) ≡ v
unfolding from_proto_vehicle_task vehicle_task_to_proto
vehicle_task_status_back (VehicleTaskStatus.unrecognized n) h = absurd (h n refl)
vehicle_task_status_back _ h = refl

execution_status_back :
    (e : ExecutionStatus)
    → ((n : ℕ) → e ≢ ExecutionStatus.unrecognized n)
    → e ≢ ExecutionStatus.paused
    → e ≢ ExecutionStatus.unspecified
    → execution_to_proto (from_proto_execution e) ≡ e
unfolding from_proto_execution execution_to_proto
execution_status_back (ExecutionStatus.unrecognized n) h p u = absurd (h n refl)
execution_status_back ExecutionStatus.paused h p u = absurd (p refl)
execution_status_back ExecutionStatus.unspecified h p u = absurd (u refl)
execution_status_back _ h p u = refl

-- Every status that the contract names, other than `paused` and `unspecified` of an execution,
-- comes back from the state that it is read as.
pub to_proto-from_proto :
    (v : VehicleTaskStatus) (e : ExecutionStatus)
    → ((n : ℕ) → v ≢ VehicleTaskStatus.unrecognized n)
    → ((n : ℕ) → e ≢ ExecutionStatus.unrecognized n)
    → e ≢ ExecutionStatus.paused
    → e ≢ ExecutionStatus.unspecified
    → (vehicle_task_to_proto (from_proto_vehicle_task v) ≡ v)
      × (execution_to_proto (from_proto_execution e) ≡ e)
to_proto-from_proto v e hv he hp hu =
    (vehicle_task_status_back v hv, execution_status_back e he hp hu)
