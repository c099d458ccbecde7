-- ===== src/Ota/Messages.antt =====
-- The messages of the contract vehicle.fota.v1 (proto/vehicle/fota/v1/*.proto) that the orchestrator
-- reads and writes. A message has the fields that src/ota/fota_orchestrator.cpp touches; a field that
-- it neither reads nor sets is left out. `optional` is Option.
use iov_vehicle_cgw_fota.Prelude.{ℕ, String, Bool, Option, List}
use iov_vehicle_cgw_fota.Prelude.Int.{ℤ}
use iov_vehicle_cgw_fota.Ota.State.StateProto.{VehicleTaskStatus}

pub record Digest : Type 0 where
  pub algorithm : String
  pub value_hex : String

pub record EcuVersion : Type 0 where
  pub ecu_id : String
  pub hardware_part_number : String
  pub software_part_number : String
  pub sw_version : String

pub data InventoryMode : Type 0 where
  mode_unspecified mode_full mode_digest : InventoryMode

-- An enumeration of proto3 is open: `…_unrecognized` carries a value that the contract does not name.
pub data InventoryDisposition : Type 0 where
  unspecified accepted full_required revision_conflict digest_mismatch algorithm_unsupported :
      InventoryDisposition
  disposition_unrecognized : ℕ → InventoryDisposition

pub record PackageSummary : Type 0 where
  pub package_id : String
  pub package_revision : String

pub record VehicleTaskSnapshot : Type 0 where
  pub vehicle_task_id : String
  pub task_revision : ℕ
  pub target_baseline_code : String
  pub start_time_ms : ℤ
  pub end_time_ms : ℤ
  pub consent_required : Bool
  pub terms_version : Option String
  pub package_list : List PackageSummary
  pub install_plan_version : String

pub record TaskCheckRequest : Type 0 where
  pub baseline_code : String
  pub fota_master_version : String
  pub local_vehicle_task_id : Option String
  pub local_task_revision : Option ℕ
  pub local_vehicle_task_status : Option VehicleTaskStatus
  pub inventory_mode : InventoryMode
  pub inventory_revision : ℕ
  pub ecu_list_digest : Digest
  pub ecu_list : List EcuVersion

pub record TaskCheckResponse : Type 0 where
  pub inventory_disposition : InventoryDisposition
  pub task : Option VehicleTaskSnapshot

pub data ConsentStatus : Type 0 where
  consent_unspecified consent_none consent_accepted consent_rejected consent_revoked : ConsentStatus
  consent_unrecognized : ℕ → ConsentStatus

pub record ConsentReport : Type 0 where
  pub consent_status : ConsentStatus
  pub terms_version : String
  pub terms_id : String
  pub terms_digest : Digest
  pub consent_time_ms : ℤ
  pub channel : String

pub record ConsentResponse : Type 0 where
  pub effective_consent_status : ConsentStatus
  pub consent_receipt_id : Option String
  pub receipt_expires_at_ms : Option ℤ

pub record DownloadGrantRequest : Type 0 where
  pub package_id : String
  pub task_revision : ℕ
  pub package_revision : String
  pub current_etag : Option String
  pub current_offset_bytes : Option ℕ
  pub offset_scope : Option String
  pub network_type : String

pub record DownloadGrantResponse : Type 0 where
  pub package_revision : String
  pub etag : Option String

pub record StageResultReport : Type 0 where
  pub stage_result_id : String
  pub stage_result_digest : Digest
  pub verified_at_ms : ℤ
  pub verified_package_revision : String

pub record StageResultResponse : Type 0 where
  pub accepted : Bool

pub record ConditionSnapshot : Type 0 where
  pub collected_at_ms : ℤ

pub record InstallPermitRequest : Type 0 where
  pub task_revision : ℕ
  pub install_plan_version : String
  pub package_manifest_digest : Digest
  pub consent_receipt_id : String
  pub local_readiness_digest : Digest
  pub local_guard_passed : Bool
  pub failed_conditions : List String
  pub condition_set_version : String
  pub condition_snapshot : ConditionSnapshot

pub record OfflinePolicy : Type 0 where
  pub allowed : Bool
  pub max_offline_duration_sec : ℕ
  pub heartbeat_timeout_sec : ℕ
  pub require_online_before_irreversible_stage : Bool
  pub on_disconnect_action : String
  pub reconnect_report_deadline_sec : ℕ

pub record TimeoutPolicy : Type 0 where
  pub max_execution_duration_sec : ℕ
  pub execution_deadline_ms : Option ℤ
  pub timeout_action : String

pub record InstallPermitResponse : Type 0 where
  pub allowed : Bool
  pub deny_reason : Option String
  pub execution_id : Option String
  pub attempt_no : Option ℕ
  pub permit_id : Option String
  pub permit_token : Option String
  pub control_revision : Option ℕ
  pub valid_until_ms : Option ℤ
  pub install_plan_version : Option String
  pub offline_policy : Option OfflinePolicy
  pub timeout_policy : Option TimeoutPolicy

pub record ExecutionEvent : Type 0 where
  pub event_id : String
  pub event_digest : Digest
  pub sequence_no : ℕ
  pub occurred_at_ms : ℤ
  pub stage : String
  pub event_status : String
  pub progress : ℕ

pub data EventDisposition : Type 0 where
  event_unspecified event_accepted event_duplicate event_buffered event_rejected event_conflict :
      EventDisposition
  event_unrecognized : ℕ → EventDisposition

pub data Outcome : Type 0 where
  result_unspecified result_succeeded result_failed result_partial result_rolled_back
        result_canceled :
      Outcome

pub record EcuResult : Type 0 where
  pub ecu_id : String
  pub result : Outcome

pub record FinalResultReport : Type 0 where
  pub final_sequence_no : ℕ
  pub last_received_control_revision : ℕ
  pub last_applied_control_revision : ℕ
  pub pending_control_ids : List String
  pub result_digest : Digest
  pub result : Outcome
  pub actual_baseline_code : String
  pub baseline_status : String
  pub ecu_results : List EcuResult
  pub started_at_ms : ℤ
  pub completed_at_ms : ℤ
  pub rollback_occurred : Bool

pub record FinalResultResponse : Type 0 where
  pub result_accepted : Bool
  pub vehicle_task_status : VehicleTaskStatus

pub data ControlAckStatus : Type 0 where
  ack_unspecified ack_received ack_applied ack_rejected ack_deferred : ControlAckStatus
  ack_unrecognized : ℕ → ControlAckStatus

-- The enumerations of a command that the orchestrator only prints are their printed names.
pub record ControlCommand : Type 0 where
  pub control_id : String
  pub control_revision : ℕ
  pub action : String
  pub scope : String
  pub apply_mode : String
  pub reason_code : Option String
  pub issued_at_ms : ℤ
  pub expires_at_ms : ℤ

pub record ControlAck : Type 0 where
  pub control_ack_id : String
  pub ack_sequence_no : ℕ
  pub control_id : String
  pub control_revision : ℕ
  pub status : ControlAckStatus
  pub processed_at_ms : ℤ
  pub reason_code : Option String

pub record LogGrantRequest : Type 0 where
  pub log_request_id : String
  pub collection_scope : List String
  pub start_at_ms : ℤ
  pub end_at_ms : ℤ
  pub redaction_profile_version : String
  pub log_type : String
  pub file_name : String
  pub mime_type : String
  pub privacy_level : String

pub record LogGrantResponse : Type 0 where
  pub object_key : String

pub record LogUploadResult : Type 0 where
  pub object_key : String
  pub upload_result : Outcome
  pub actual_file_digest : Digest
  pub uploaded_at_ms : ℤ

pub record PolicyRequest : Type 0 where
  pub local_policy_version : String
  pub base_preference_version : Option String
  pub updated_at_ms : ℤ

-- `effective_policy` is carried as its serialized form.
pub record PolicyResponse : Type 0 where
  pub effective_policy : String
  pub policy_version : String
  pub effective_at_ms : ℤ
  pub preference_accepted : Option Bool
