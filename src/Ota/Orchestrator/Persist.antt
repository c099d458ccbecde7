-- ===== src/Ota/Orchestrator/Persist.antt =====
-- Saving and restoring: `persistVehicleTask`, `persistExecution`, `loadFromStore`.
use iov_vehicle_cgw_fota.Prelude.{String, false, Option, none, some, get_or, str_eq, if◌then◌else◌}
use iov_vehicle_cgw_fota.Prelude.Int.{pos, is_zero}
use iov_vehicle_cgw_fota.Store.CloudState.{
  FotaVehicleTaskRecord, FotaExecutionRecord, FotaEventOutboxMeta, save_vehicle_task,
  save_execution, save_event_outbox_meta,
}
use iov_vehicle_cgw_fota.Ota.State.VehicleTask.{
  no_task, vehicle_task_state_to_string, vehicle_task_state_from_string,
}
use iov_vehicle_cgw_fota.Ota.State.Execution.{
  permit_persisted, execution_state_to_string, execution_state_from_string,
}
use iov_vehicle_cgw_fota.Ota.Ports.{Codec}
use iov_vehicle_cgw_fota.Ota.Orchestrator.System.{
  System, M, ◌>>=◌, ◌>>◌, asks, gets, update_store, read_clock,
}

unfoldable pub persist_vehicle_task : String → M Unit
persist_vehicle_task action = do
  frozen_at ← read_clock
  codec ← asks (λ e. e.codec)
  s ← gets (λ s. s)
  update_store (
      save_vehicle_task (record {
        vehicle_task_id = s.frozen_task.vehicle_task_id;
        task_revision = s.frozen_task.task_revision;
        target_baseline_code = s.frozen_task.target_baseline_code;
        vehicle_task_state = vehicle_task_state_to_string s.vt_state;
        frozen_at_ms = frozen_at;
        task_snapshot_pb_hex = codec.task_to_hex s.frozen_task;
        local_disposition_result = action;
        superseded = false;
      }))

-- The hexadecimal form of an optional message, empty where the message is not set.
unfoldable pub hex_of : {A : Type 0} → (A → String) → Option A → String
hex_of to_hex none = ""
hex_of to_hex (some a) = to_hex a

-- The record that `persistExecution` saves. An unset scalar of the permit reads as its default.
unfoldable pub execution_record : Codec → System → FotaExecutionRecord
unfolding hex_of
execution_record codec s = record {
  vehicle_task_id = s.frozen_task.vehicle_task_id;
  execution_id = s.execution_id;
  attempt_no = s.attempt_no;
  permit_id = get_or s.permit.permit_id "";
  permit_token = get_or s.permit.permit_token "";
  control_revision = get_or s.permit.control_revision 0;
  valid_until_ms = get_or s.permit.valid_until_ms (pos 0);
  execution_state = execution_state_to_string s.ex_state;
  install_plan_version = get_or s.permit.install_plan_version "";
  offline_policy_pb_hex = hex_of codec.offline_to_hex s.permit.offline_policy;
  timeout_policy_pb_hex = hex_of codec.timeout_to_hex s.permit.timeout_policy;
}

unfoldable pub persist_execution : M Unit
persist_execution = do
  codec ← asks (λ e. e.codec)
  s ← gets (λ s. s)
  update_store (save_execution (execution_record codec s))
  update_store (
      save_event_outbox_meta
        (record { next_sequence_no = s.next_seq; accepted_sequence_no = s.accepted_seq }))

-- A member of the permit that is set from a text only if the text is not empty.
unfoldable pub set_unless_empty : {A : Type 0} → (String → A) → String → Option A → Option A
set_unless_empty parse hex old = if str_eq hex "" then old else some (parse hex)

-- The part of `loadFromStore` that restores the execution.
unfoldable pub restore_execution : Codec → FotaExecutionRecord → System → System
unfolding set_unless_empty
restore_execution codec ex s = record s {
  ex_state = (execution_state_from_string (some ex.execution_state) s.ex_state).1;
  execution_id = ex.execution_id;
  attempt_no = ex.attempt_no;
  permit = record s.permit {
    execution_id = some ex.execution_id;
    attempt_no = some ex.attempt_no;
    permit_id = some ex.permit_id;
    permit_token = some ex.permit_token;
    control_revision = some ex.control_revision;
    valid_until_ms =
        if is_zero ex.valid_until_ms then s.permit.valid_until_ms else some ex.valid_until_ms;
    install_plan_version =
        set_unless_empty (λ t. t) ex.install_plan_version s.permit.install_plan_version;
    offline_policy =
        set_unless_empty codec.offline_of_hex ex.offline_policy_pb_hex s.permit.offline_policy;
    timeout_policy =
        set_unless_empty codec.timeout_of_hex ex.timeout_policy_pb_hex s.permit.timeout_policy;
  };
}

unfoldable pub restore_watermarks : Option FotaEventOutboxMeta → System → System
restore_watermarks none s = s
restore_watermarks (some meta) s = record s {
  next_seq = meta.next_sequence_no;
  accepted_seq = meta.accepted_sequence_no;
}

unfoldable pub restore_rest : Codec → Option FotaExecutionRecord → System → System
unfolding restore_execution restore_watermarks
restore_rest codec none s = restore_watermarks s.store.event_outbox_meta s
restore_rest codec (some ex) s =
    restore_watermarks s.store.event_outbox_meta (restore_execution codec ex s)

-- A vehicle task without a snapshot sends the orchestrator back to the start.
unfoldable pub restart : System → System
restart s = record s {
  vt_state = no_task;
  ex_state = permit_persisted;
  execution_id = "";
  next_seq = 1;
  accepted_seq = 0;
}

unfoldable pub restore : Codec → Option FotaVehicleTaskRecord → System → System
unfolding restore_rest restart
restore codec none s = restore_rest codec s.store.execution s
restore codec (some vt) s =
    if str_eq vt.task_snapshot_pb_hex ""
    then restart s
    else restore_rest codec s.store.execution (record s {
      vt_state = (vehicle_task_state_from_string (some vt.vehicle_task_state) no_task).1;
      frozen_task = codec.task_of_hex vt.task_snapshot_pb_hex;
    })

-- `loadFromStore`, which is all that `reconcileOnStart` does.
unfoldable pub reconcile_on_start : M Unit
unfolding restore
reconcile_on_start e s = (tt, restore e.codec s.store.vehicle_task s)
