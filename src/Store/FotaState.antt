-- ===== src/Store/FotaState.antt =====
-- The report states that are kept across restarts (include/cgw/fota/store/fota_state.hpp and
-- include/data_models.h). uint32_t and uint64_t members are natural numbers.
pub mod Names
use iov_vehicle_cgw_fota.Prelude.{ℕ, String, Option, List}
use iov_vehicle_cgw_fota.Prelude.Int.{ℤ}

pub data VersionSource : Type 0 where
  uds_0x22 someip_get_version : VersionSource

pub data CollectionStatus : Type 0 where
  all_ok partial failed : CollectionStatus

pub data EcuStatus : Type 0 where
  ok missing nrc timeout unreachable parse_error : EcuStatus

pub data BaselineSource : Type 0 where
  factory last_ota unknown : BaselineSource

pub data VinSource : Type 0 where
  provisioned unknown : VinSource

pub record EcuVersionEntry : Type 0 where
  pub ecu_id : String
  pub part_number : Option String
  pub sw_version : Option String
  pub hw_version : Option String
  pub source : VersionSource
  pub status : EcuStatus
  pub error_code : Option String

pub record VehicleSoftwareSnapshot : Type 0 where
  pub vin : String
  pub vin_source : VinSource
  pub baseline_id : Option String
  pub baseline_source : BaselineSource
  pub registry_version : String
  pub collected_at : String
  pub overall_result : CollectionStatus
  pub snapshot_seq : ℕ
  pub ecu_list : List EcuVersionEntry

pub data JobPhase : Type 0 where
  accepted collecting assembled submit_prepared submit_unknown : JobPhase
  retry_waiting completed_pending_cleanup : JobPhase

pub data TriggerReason : Type 0 where
  auto_start change_event cloud_request recovery : TriggerReason

pub record PersistedFingerprints : Type 0 where
  pub algorithm : String
  pub canonicalization : String
  pub version_fingerprint_hex : String
  pub snapshot_fingerprint_hex : String
  pub dedupe_key_hex : String

pub record SequenceState : Type 0 where
  pub schema_version : ℕ
  pub highest_allocated : ℕ
  pub updated_at : ℤ

pub record LastSuccessState : Type 0 where
  pub schema_version : ℕ
  pub report_id : String
  pub snapshot_seq : ℕ
  pub completed_at : ℤ
  pub registry_version : String
  pub overall_result : CollectionStatus
  pub fingerprints : PersistedFingerprints
  pub snapshot : VehicleSoftwareSnapshot

pub record DedupeEntry : Type 0 where
  pub request_id : String
  pub report_id : String
  pub snapshot_seq : ℕ
  pub fingerprints : PersistedFingerprints
  pub overall_result : String
  pub completed_at : ℤ
  pub expires_at : ℤ

pub record DedupeState : Type 0 where
  pub schema_version : ℕ
  pub entries : List DedupeEntry
  pub max_entries : ℕ
  pub ttl_ms : ℤ

pub record ActiveJobState : Type 0 where
  pub schema_version : ℕ
  pub request_id : String
  pub report_id : String
  pub snapshot_seq : ℕ
  pub reason : TriggerReason
  pub phase : JobPhase
  pub attempt : ℕ
  pub next_retry_at : ℤ
  pub last_error_code : String
  pub idempotency_key : String
  pub fingerprints : PersistedFingerprints

-- `schema::SEQUENCE_VERSION`, `LAST_SUCCESS_VERSION`, `DEDUPE_VERSION`, `ACTIVE_JOB_VERSION`
abbrev pub sequence_version : ℕ
sequence_version = 1

abbrev pub last_success_version : ℕ
last_success_version = 2

abbrev pub dedupe_version : ℕ
dedupe_version = 2

abbrev pub active_job_version : ℕ
active_job_version = 2
