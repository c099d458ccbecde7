-- ===== src/Store/FotaState/Names.antt =====
-- The names of the enumerations (include/data_models.h, include/cgw/fota/store/fota_state.hpp) and how
-- they are read: src/store/fota_state.cpp and the `if` chains of src/store/fota_state_serializer.cpp.
use iov_vehicle_cgw_fota.Prelude.{◌≡◌, refl, String, Option, none, some, str_eq, if◌then◌else◌}
use iov_vehicle_cgw_fota.Store.FotaState.{
  VersionSource, uds_0x22, someip_get_version, CollectionStatus, all_ok, partial, failed, EcuStatus,
  BaselineSource, VinSource, JobPhase, accepted, collecting, assembled, submit_prepared,
  submit_unknown, retry_waiting, completed_pending_cleanup, TriggerReason, auto_start, change_event,
  cloud_request, recovery,
}

unfoldable pub version_source_to_string : VersionSource → String
version_source_to_string uds_0x22 = "UDS_0x22"
version_source_to_string someip_get_version = "SOMEIP_GET_VERSION"

unfoldable pub version_source_from_string : String → Option VersionSource
version_source_from_string s =
    if str_eq s "UDS_0x22"
    then some uds_0x22
    else if str_eq s "SOMEIP_GET_VERSION"
    then some someip_get_version
    else none

unfoldable pub collection_status_to_string : CollectionStatus → String
collection_status_to_string all_ok = "ALL_OK"
collection_status_to_string partial = "PARTIAL"
collection_status_to_string failed = "FAILED"

unfoldable pub overall_result_from_string : String → Option CollectionStatus
overall_result_from_string s =
    if str_eq s "ALL_OK"
    then some all_ok
    else if str_eq s "PARTIAL"
    then some partial
    else if str_eq s "FAILED"
    then some failed
    else none

unfoldable pub ecu_status_to_string : EcuStatus → String
ecu_status_to_string EcuStatus.ok = "OK"
ecu_status_to_string EcuStatus.missing = "MISSING"
ecu_status_to_string EcuStatus.nrc = "NRC"
ecu_status_to_string EcuStatus.timeout = "TIMEOUT"
ecu_status_to_string EcuStatus.unreachable = "UNREACHABLE"
ecu_status_to_string EcuStatus.parse_error = "PARSE_ERROR"

unfoldable pub ecu_status_from_string : String → Option EcuStatus
ecu_status_from_string s =
    if str_eq s "OK"
    then some EcuStatus.ok
    else if str_eq s "MISSING"
    then some EcuStatus.missing
    else if str_eq s "NRC"
    then some EcuStatus.nrc
    else if str_eq s "TIMEOUT"
    then some EcuStatus.timeout
    else if str_eq s "UNREACHABLE"
    then some EcuStatus.unreachable
    else if str_eq s "PARSE_ERROR"
    then some EcuStatus.parse_error
    else none

unfoldable pub baseline_source_to_string : BaselineSource → String
baseline_source_to_string BaselineSource.factory = "FACTORY"
baseline_source_to_string BaselineSource.last_ota = "LAST_OTA"
baseline_source_to_string BaselineSource.unknown = "UNKNOWN"

unfoldable pub baseline_source_from_string : String → Option BaselineSource
baseline_source_from_string s =
    if str_eq s "FACTORY"
    then some BaselineSource.factory
    else if str_eq s "LAST_OTA"
    then some BaselineSource.last_ota
    else if str_eq s "UNKNOWN"
    then some BaselineSource.unknown
    else none

unfoldable pub vin_source_to_string : VinSource → String
vin_source_to_string VinSource.provisioned = "PROVISIONED"
vin_source_to_string VinSource.unknown = "UNKNOWN"

unfoldable pub vin_source_from_string : String → Option VinSource
vin_source_from_string s =
    if str_eq s "PROVISIONED"
    then some VinSource.provisioned
    else if str_eq s "UNKNOWN"
    then some VinSource.unknown
    else none

unfoldable pub job_phase_to_string : JobPhase → String
job_phase_to_string accepted = "Accepted"
job_phase_to_string collecting = "Collecting"
job_phase_to_string assembled = "Assembled"
job_phase_to_string submit_prepared = "SubmitPrepared"
job_phase_to_string submit_unknown = "SubmitUnknown"
job_phase_to_string retry_waiting = "RetryWaiting"
job_phase_to_string completed_pending_cleanup = "CompletedPendingCleanup"

unfoldable pub job_phase_from_string : String → Option JobPhase
job_phase_from_string s =
    if str_eq s "Accepted"
    then some accepted
    else if str_eq s "Collecting"
    then some collecting
    else if str_eq s "Assembled"
    then some assembled
    else if str_eq s "SubmitPrepared"
    then some submit_prepared
    else if str_eq s "SubmitUnknown"
    then some submit_unknown
    else if str_eq s "RetryWaiting"
    then some retry_waiting
    else if str_eq s "CompletedPendingCleanup"
    then some completed_pending_cleanup
    else none

unfoldable pub trigger_reason_to_string : TriggerReason → String
trigger_reason_to_string auto_start = "AutoStart"
trigger_reason_to_string change_event = "ChangeEvent"
trigger_reason_to_string cloud_request = "CloudRequest"
trigger_reason_to_string recovery = "Recovery"

unfoldable pub trigger_reason_from_string : String → Option TriggerReason
trigger_reason_from_string s =
    if str_eq s "AutoStart"
    then some auto_start
    else if str_eq s "ChangeEvent"
    then some change_event
    else if str_eq s "CloudRequest"
    then some cloud_request
    else if str_eq s "Recovery"
    then some recovery
    else none

pub version_source_lem :
    (s : VersionSource) → version_source_from_string (version_source_to_string s) ≡ some s
unfolding version_source_from_string version_source_to_string
version_source_lem uds_0x22 = refl
version_source_lem someip_get_version = refl

pub collection_status_lem :
    (s : CollectionStatus) → overall_result_from_string (collection_status_to_string s) ≡ some s
unfolding overall_result_from_string collection_status_to_string
collection_status_lem all_ok = refl
collection_status_lem partial = refl
collection_status_lem failed = refl

pub ecu_status_lem : (s : EcuStatus) → ecu_status_from_string (ecu_status_to_string s) ≡ some s
unfolding ecu_status_from_string ecu_status_to_string
ecu_status_lem EcuStatus.ok = refl
ecu_status_lem EcuStatus.missing = refl
ecu_status_lem EcuStatus.nrc = refl
ecu_status_lem EcuStatus.timeout = refl
ecu_status_lem EcuStatus.unreachable = refl
ecu_status_lem EcuStatus.parse_error = refl

pub baseline_source_lem :
    (s : BaselineSource) → baseline_source_from_string (baseline_source_to_string s) ≡ some s
unfolding baseline_source_from_string baseline_source_to_string
baseline_source_lem BaselineSource.factory = refl
baseline_source_lem BaselineSource.last_ota = refl
baseline_source_lem BaselineSource.unknown = refl

pub vin_source_lem : (s : VinSource) → vin_source_from_string (vin_source_to_string s) ≡ some s
unfolding vin_source_from_string vin_source_to_string
vin_source_lem VinSource.provisioned = refl
vin_source_lem VinSource.unknown = refl

pub job_phase_lem : (p : JobPhase) → job_phase_from_string (job_phase_to_string p) ≡ some p
unfolding job_phase_from_string job_phase_to_string
job_phase_lem accepted = refl
job_phase_lem collecting = refl
job_phase_lem assembled = refl
job_phase_lem submit_prepared = refl
job_phase_lem submit_unknown = refl
job_phase_lem retry_waiting = refl
job_phase_lem completed_pending_cleanup = refl

pub trigger_reason_lem :
    (r : TriggerReason) → trigger_reason_from_string (trigger_reason_to_string r) ≡ some r
unfolding trigger_reason_from_string trigger_reason_to_string
trigger_reason_lem auto_start = refl
trigger_reason_lem change_event = refl
trigger_reason_lem cloud_request = refl
trigger_reason_lem recovery = refl
