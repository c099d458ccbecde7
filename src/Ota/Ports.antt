-- ===== src/Ota/Ports.antt =====
-- The ports of the orchestrator (include/cgw/fota/ota/fota_cloud_proxy.hpp, ports/*.hpp) and what it
-- takes from the outside: the clock and the serialized form of messages. What a port answers is a
-- function of all calls made before, the newest first, so an environment may change its mind at any
-- time; every theorem holds for every such function.
use iov_vehicle_cgw_fota.Prelude.{ℕ, String, Bool, Option, List}
use iov_vehicle_cgw_fota.Prelude.Int.{ℤ}
use iov_vehicle_cgw_fota.Ota.Messages.{
  Digest, EcuVersion, InventoryMode, PackageSummary, VehicleTaskSnapshot, TaskCheckRequest,
  TaskCheckResponse, ConsentStatus, ConsentReport, ConsentResponse, DownloadGrantRequest,
  DownloadGrantResponse, StageResultReport, StageResultResponse, ConditionSnapshot,
  InstallPermitRequest, OfflinePolicy, TimeoutPolicy, InstallPermitResponse, ExecutionEvent,
  EventDisposition, EcuResult, FinalResultReport, FinalResultResponse, ControlAckStatus,
  ControlCommand, ControlAck, LogGrantRequest, LogGrantResponse, LogUploadResult, PolicyRequest,
  PolicyResponse,
}

-- `CallContext` (include/cgw/fota/ota/call_context.hpp); `deadlineMs` keeps its default 0.
pub record CallContext : Type 0 where
  pub trace_id : String
  pub request_id : String
  pub idempotency_key : String
  pub timeout_ms : ℕ
  pub device_id : String
  pub vin : String
  pub vehicle_task_id : String
  pub execution_id : String

-- A call of the cloud returns a response, or throws a `FotaCloudException` with this `what()`.
pub data Reply (A : Type 0) : Type 0 where
  response : A → Reply A
  fault : String → Reply A

pub record CollectedInventory : Type 0 where
  pub inventory_revision : ℕ
  pub ecu_list_digest : Digest
  pub ecu_list : List EcuVersion
  pub baseline_code : String
  pub fota_master_version : String

pub record ConsentTermsId : Type 0 where
  pub terms_version : String
  pub terms_id : String
  pub terms_digest_hex : String
  pub algorithm : String

-- `stageResult` is `none` where `hasStageResult` is false.
pub record DownloadOutcome : Type 0 where
  pub all_stages_succeeded : Bool
  pub stage_result : Option StageResultReport
  pub final_offset_bytes : ℕ
  pub error_detail : String

pub record ConditionEvaluation : Type 0 where
  pub condition_set_version : String
  pub snapshot : ConditionSnapshot
  pub local_readiness_digest : String
  pub all_guards_passed : Bool
  pub failed_conditions : List String

pub record PrepareResult : Type 0 where
  pub ready : Bool
  pub reason : String

pub record StartResult : Type 0 where
  pub started : Bool
  pub reason : String

pub record ControlApplyOutcome : Type 0 where
  pub status : ControlAckStatus
  pub reason : String

pub record FinalResultData : Type 0 where
  pub actual_baseline_code : String
  pub baseline_status : String
  pub ecu_results : List EcuResult
  pub rollback_occurred : Bool

pub record LogCollectScope : Type 0 where
  pub collection_scope : List String
  pub start_at_ms : ℤ
  pub end_at_ms : ℤ
  pub redaction_profile_version : String
  pub log_type : String

pub record LogPackage : Type 0 where
  pub digest_hex : String
  pub algorithm : String
  pub size_bytes : ℕ
  pub generated : Bool
  pub error_code : String

-- `InstallExecutor::start` runs with the event sink at hand: it emits events, sees for each whether
-- it was accepted, and returns in the end.
pub data StartRun : Type 0 where
  returns : StartResult → StartRun
  emits : ExecutionEvent → (Bool → StartRun) → StartRun

-- The calls that leave the orchestrator.
pub data Call : Type 0 where
  now_ms : Call
  collect_inventory : InventoryMode → Call
  check_task : TaskCheckRequest → CallContext → Call
  request_consent : String → ConsentTermsId → Call
  report_consent : ConsentReport → CallContext → Call
  request_download : DownloadGrantRequest → CallContext → Call
  download_and_verify : PackageSummary → DownloadGrantResponse → ℕ → Call
  report_stage_result : StageResultReport → CallContext → Call
  all_guards_passed : Call
  evaluate_conditions : Call
  request_install : InstallPermitRequest → CallContext → Call
  prepare : VehicleTaskSnapshot → Call
  start : InstallPermitResponse → Call
  report_event : ExecutionEvent → CallContext → Call
  read_final_result : Call
  report_final_result : FinalResultReport → CallContext → Call
  request_log_upload : LogGrantRequest → CallContext → Call
  collect_log : LogCollectScope → Call
  report_log_upload : LogUploadResult → CallContext → Call
  apply_control : ControlCommand → Call
  acknowledge_control : ControlAck → CallContext → Call
  sync_policy : PolicyRequest → CallContext → Call

abbrev pub History : Type 0
History = List Call

-- The answers of the ports to the newest call of a history.
pub record Ports : Type 0 where
  pub clock : History → ℤ
  pub inventory : History → CollectedInventory
  pub task_check : History → Reply TaskCheckResponse
  pub user_choice : History → ConsentStatus
  pub consent : History → Reply ConsentResponse
  pub grant : History → Reply DownloadGrantResponse
  pub download : History → DownloadOutcome
  pub stage_result : History → Reply StageResultResponse
  pub guards : History → Bool
  pub conditions : History → ConditionEvaluation
  pub permit : History → Reply InstallPermitResponse
  pub prepared : History → PrepareResult
  pub started : History → StartRun
  pub event : History → Reply EventDisposition
  pub final_data : History → FinalResultData
  pub final_result : History → Reply FinalResultResponse
  pub log_grant : History → Reply LogGrantResponse
  pub log_package : History → LogPackage
  pub log_result : History → Reply Unit
  pub control : History → ControlApplyOutcome
  pub control_ack : History → Reply Unit
  pub policy : History → Reply PolicyResponse

-- `SerializeToString` and `ParseFromString` of the generated classes, with the hexadecimal form of
-- the framework (`protoBinaryToHex`, `hexToProtoBinary`) around them. A text that is no hexadecimal
-- form gives some message here; Ota/Orchestrator/Restart has the exception.
pub record Codec : Type 0 where
  pub task_to_hex : VehicleTaskSnapshot → String
  pub task_of_hex : String → VehicleTaskSnapshot
  pub event_to_hex : ExecutionEvent → String
  pub event_of_hex : String → ExecutionEvent
  pub request_to_hex : TaskCheckRequest → String
  pub offline_to_hex : OfflinePolicy → String
  pub offline_of_hex : String → OfflinePolicy
  pub timeout_to_hex : TimeoutPolicy → String
  pub timeout_of_hex : String → TimeoutPolicy
  pub policy_to_hex : String → String

-- `FotaOrchestratorConfig`, as far as the orchestrator reads it.
pub record FotaOrchestratorConfig : Type 0 where
  pub device_id : String
  pub vin : String
  pub cloud_call_timeout_ms : ℕ
  pub event_outbox_max : ℕ
