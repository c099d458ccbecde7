-- ===== src/Store/CloudState.antt =====
-- The records of the vehicle-cloud state (include/cgw/fota/store/fota_cloud_state.hpp) and the store
-- that keeps them (src/store/fota_cloud_state_store.cpp). A key with an item suffix, as in
-- `fota.event_outbox:<seq>`, is a function of the suffix; `none` is a key that `has` does not find.
-- A record is kept decoded here: Store/CloudSerializer has its encoding; failures of the framework's
-- store are not part of this model. Fields that the orchestrator never writes are left out: `schemaVersion`,
-- `credentialExpiresAtMs` and `checkpointPbHex`.
use iov_vehicle_cgw_fota.Prelude.{
  ℕ, String, Bool, false, Option, none, some, ◌==◌, str_eq, if◌then◌else◌,
}
use iov_vehicle_cgw_fota.Prelude.Int.{ℤ, pos}

pub record FotaVehicleTaskRecord : Type 0 where
  pub vehicle_task_id : String
  pub task_revision : ℕ
  pub target_baseline_code : String
  pub vehicle_task_state : String
  pub frozen_at_ms : ℤ
  pub task_snapshot_pb_hex : String
  pub local_disposition_result : String
  pub superseded : Bool

pub record FotaInventoryRecord : Type 0 where
  pub mode : String
  pub inventory_revision : ℕ
  pub algorithm : String
  pub ecu_list_digest_hex : String
  pub baseline_code : String
  pub fota_master_version : String
  pub collected_at_ms : ℤ
  pub request_pb_hex : String
  pub full_required : Bool

pub record FotaConsentRecord : Type 0 where
  pub vehicle_task_id : String
  pub effective_status : String
  pub receipt_id : String
  pub receipt_expires_at_ms : ℤ
  pub terms_id : String
  pub terms_version : String
  pub terms_digest_hex : String
  pub terms_algorithm : String
  pub consent_time_ms : ℤ
  pub channel : String

pub record FotaDownloadRecord : Type 0 where
  pub package_id : String
  pub package_revision : String
  pub etag : String
  pub current_offset_bytes : ℕ
  pub offset_scope : String
  pub verify_status : String
  pub stage_result_id : String
  pub stage_result_digest_hex : String
  pub ready : Bool

pub record FotaExecutionRecord : Type 0 where
  pub vehicle_task_id : String
  pub execution_id : String
  pub attempt_no : ℕ
  pub permit_id : String
  pub permit_token : String
  pub control_revision : ℕ
  pub valid_until_ms : ℤ
  pub execution_state : String
  pub install_plan_version : String
  pub offline_policy_pb_hex : String
  pub timeout_policy_pb_hex : String

pub record FotaEventOutboxMeta : Type 0 where
  pub next_sequence_no : ℕ
  pub accepted_sequence_no : ℕ

pub record FotaEventOutboxRecord : Type 0 where
  pub sequence_no : ℕ
  pub event_id : String
  pub event_digest_hex : String
  pub stage : String
  pub event_status : String
  pub progress : ℕ
  pub occurred_at_ms : ℤ
  pub payload_summary : String
  pub send_status : String
  pub event_pb_hex : String

pub record FotaControlRecord : Type 0 where
  pub control_id : String
  pub control_revision : ℕ
  pub action : String
  pub scope : String
  pub apply_mode : String
  pub issued_at_ms : ℤ
  pub expires_at_ms : ℤ
  pub reason : String
  pub ack_status : String
  pub ack_sequence_no : ℕ
  pub applied_at_ms : ℤ

pub record FotaPolicyRecord : Type 0 where
  pub local_policy_version : String
  pub base_preference_version : String
  pub preference_version : String
  pub effective_policy_pb_hex : String
  pub conflict : Bool
  pub effective_at_ms : ℤ

pub record FotaLogJobRecord : Type 0 where
  pub log_request_id : String
  pub object_key : String
  pub digest_hex : String
  pub algorithm : String
  pub size_bytes : ℕ
  pub status : String
  pub completed_at_ms : ℤ

-- The default members of the structs that a `value_or` or a local variable uses.
abbrev pub default_event_outbox_meta : FotaEventOutboxMeta
default_event_outbox_meta = record { next_sequence_no = 1; accepted_sequence_no = 0 }

abbrev pub default_download : FotaDownloadRecord
default_download = record {
  package_id = "";
  package_revision = "";
  etag = "";
  current_offset_bytes = 0;
  offset_scope = "";
  verify_status = "";
  stage_result_id = "";
  stage_result_digest_hex = "";
  ready = false;
}

abbrev pub default_policy : FotaPolicyRecord
default_policy = record {
  local_policy_version = "";
  base_preference_version = "";
  preference_version = "";
  effective_policy_pb_hex = "";
  conflict = false;
  effective_at_ms = pos 0;
}

-- The keys of `FotaCloudStateStore`.
pub record CloudStore : Type 0 where
  pub vehicle_task : Option FotaVehicleTaskRecord
  pub inventory : Option FotaInventoryRecord
  pub consent : Option FotaConsentRecord
  pub downloads : String → Option FotaDownloadRecord
  pub execution : Option FotaExecutionRecord
  pub event_outbox_meta : Option FotaEventOutboxMeta
  pub events : ℕ → Option FotaEventOutboxRecord
  pub controls : ℕ → Option FotaControlRecord
  pub policy : Option FotaPolicyRecord
  pub log_jobs : String → Option FotaLogJobRecord

abbrev pub empty_store : CloudStore
empty_store = record {
  vehicle_task = none;
  inventory = none;
  consent = none;
  downloads = λ k. none;
  execution = none;
  event_outbox_meta = none;
  events = λ k. none;
  controls = λ k. none;
  policy = none;
  log_jobs = λ k. none;
}

abbrev pub save_vehicle_task : FotaVehicleTaskRecord → CloudStore → CloudStore
save_vehicle_task r s = record s { vehicle_task = some r }

abbrev pub save_inventory : FotaInventoryRecord → CloudStore → CloudStore
save_inventory r s = record s { inventory = some r }

abbrev pub save_consent : FotaConsentRecord → CloudStore → CloudStore
save_consent r s = record s { consent = some r }

abbrev pub save_download : FotaDownloadRecord → CloudStore → CloudStore
save_download r s = record s {
  downloads = λ k. if str_eq k r.package_id then some r else s.downloads k;
}

abbrev pub save_execution : FotaExecutionRecord → CloudStore → CloudStore
save_execution r s = record s { execution = some r }

abbrev pub save_event_outbox_meta : FotaEventOutboxMeta → CloudStore → CloudStore
save_event_outbox_meta r s = record s { event_outbox_meta = some r }

abbrev pub save_event : FotaEventOutboxRecord → CloudStore → CloudStore
save_event r s = record s { events = λ k. if k == r.sequence_no then some r else s.events k }

abbrev pub save_control : FotaControlRecord → CloudStore → CloudStore
save_control r s = record s {
  controls = λ k. if k == r.control_revision then some r else s.controls k;
}

abbrev pub save_policy : FotaPolicyRecord → CloudStore → CloudStore
save_policy r s = record s { policy = some r }

abbrev pub save_log_job : FotaLogJobRecord → CloudStore → CloudStore
save_log_job r s = record s {
  log_jobs = λ k. if str_eq k r.log_request_id then some r else s.log_jobs k;
}
