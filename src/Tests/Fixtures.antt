-- ===== src/Tests/Fixtures.antt =====
-- Ports, a configuration and systems for the runs.
use iov_vehicle_cgw_fota.Prelude.{true, false, none, some, []}
use iov_vehicle_cgw_fota.Prelude.Int.{pos}
use iov_vehicle_cgw_fota.Store.CloudState.{empty_store}
use iov_vehicle_cgw_fota.Ota.State.VehicleTask.{waiting_window, consent_pending, executing}
use iov_vehicle_cgw_fota.Ota.State.Execution.{install_started}
use iov_vehicle_cgw_fota.Ota.State.StateProto.{VehicleTaskStatus}
use iov_vehicle_cgw_fota.Ota.Messages.{
  VehicleTaskSnapshot, InstallPermitResponse, ExecutionEvent, ControlCommand, consent_accepted,
  event_accepted, ack_applied,
}
use iov_vehicle_cgw_fota.Ota.Ports.{response, fault, returns, Ports, Codec}
use iov_vehicle_cgw_fota.Ota.Orchestrator.System.{System, Env, create, empty_task, empty_permit}
use iov_vehicle_cgw_fota.Ota.ProductionPorts.{
  conservative, download_refused, no_final_result, no_log,
}

-- A task with a window from 0 to 100.
abbrev pub small_task : VehicleTaskSnapshot
small_task = record empty_task { vehicle_task_id = "VT-1"; end_time_ms = pos 100 }

abbrev pub granted : InstallPermitResponse
granted = record empty_permit { allowed = true; execution_id = some "EX-1"; attempt_no = some 1 }

abbrev pub small_event : ExecutionEvent
small_event = record {
  event_id = "";
  event_digest = record { algorithm = ""; value_hex = "" };
  sequence_no = 0;
  occurred_at_ms = pos 7;
  stage = "INSTALL";
  event_status = "RUNNING";
  progress = 10;
}

abbrev pub command : ControlCommand
command = record {
  control_id = "C-5";
  control_revision = 5;
  action = "PAUSE";
  scope = "TASK";
  apply_mode = "NOW";
  reason_code = none;
  issued_at_ms = pos 1;
  expires_at_ms = pos 2;
}

-- A cloud and an executor that agree to everything, at time 50.
abbrev pub willing : Ports
willing = record {
  clock = λ h. pos 50;
  inventory = λ h. record {
    inventory_revision = 1;
    ecu_list_digest = record { algorithm = "sha-256"; value_hex = "00" };
    ecu_list = [];
    baseline_code = "B";
    fota_master_version = "M";
  };
  task_check = λ h. fault "no task";
  user_choice = λ h. consent_accepted;
  consent = λ h. fault "no consent";
  grant = λ h. fault "no grant";
  download = λ h. download_refused;
  stage_result = λ h. fault "no stage";
  guards = λ h. true;
  conditions = λ h. record {
    condition_set_version = "c";
    snapshot = record { collected_at_ms = pos 50 };
    local_readiness_digest = "r";
    all_guards_passed = true;
    failed_conditions = [];
  };
  permit = λ h. response granted;
  prepared = λ h. record { ready = true; reason = "" };
  started = λ h. returns (record { started = true; reason = "" });
  event = λ h. response event_accepted;
  final_data = λ h. no_final_result;
  final_result = λ h.
      response
        (record { result_accepted = true; vehicle_task_status = VehicleTaskStatus.completed });
  log_grant = λ h. fault "no log";
  log_package = λ h. no_log;
  log_result = λ h. fault "no log";
  control = λ h. record { status = ack_applied; reason = "" };
  control_ack = λ h. response tt;
  policy = λ h. fault "no policy";
}

abbrev pub codec : Codec
codec = record {
  task_to_hex = λ t. "54";
  task_of_hex = λ x. small_task;
  event_to_hex = λ t. "45";
  event_of_hex = λ x. small_event;
  request_to_hex = λ t. "52";
  offline_to_hex = λ t. "4f";
  offline_of_hex = λ x. record {
    allowed = true;
    max_offline_duration_sec = 1;
    heartbeat_timeout_sec = 1;
    require_online_before_irreversible_stage = false;
    on_disconnect_action = "";
    reconnect_report_deadline_sec = 1;
  };
  timeout_to_hex = λ t. "44";
  timeout_of_hex = λ x. record {
    max_execution_duration_sec = 1;
    execution_deadline_ms = none;
    timeout_action = "";
  };
  policy_to_hex = λ t. "50";
}

abbrev pub env : Env
env = record {
  ports = willing;
  codec = codec;
  cfg = record {
    device_id = "D";
    vin = "V";
    cloud_call_timeout_ms = 10000;
    event_outbox_max = 100;
  };
}

-- `env` with the vehicle ports of production.
abbrev pub production : Env
production = record env { ports = conservative willing }

abbrev pub start : System
start = create empty_store

-- The task waits for its window.
abbrev pub waiting : System
waiting = record start { vt_state = waiting_window; frozen_task = small_task }

-- The installation has been started.
abbrev pub installing : System
installing = record start {
  vt_state = executing;
  ex_state = install_started;
  frozen_task = small_task;
}

-- A cloud that accepts the consent.
abbrev pub consenting : Env
consenting = record env {
  ports = record willing {
    consent = λ h. response (record {
      effective_consent_status = consent_accepted;
      consent_receipt_id = some "R-1";
      receipt_expires_at_ms = none;
    });
  };
}

-- The user is asked for the consent.
abbrev pub asked : System
asked = record start { vt_state = consent_pending; frozen_task = small_task }
