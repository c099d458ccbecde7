-- ===== src/Store/CloudSerializer/Reports.antt =====
-- The JSON of the vehicle-cloud records policy, log_job
-- (src/store/fota_cloud_state_serializer.cpp).
use iov_vehicle_cgw_fota.Prelude.{ℕ, false, List, [], ◌∷◌}
use iov_vehicle_cgw_fota.Prelude.Int.{ℤ, pos}
use iov_vehicle_cgw_fota.Prelude.Result.{Result, ok, ◌>>=◌}
use iov_vehicle_cgw_fota.Store.CloudState.{FotaPolicyRecord, FotaLogJobRecord}
use iov_vehicle_cgw_fota.Store.Serializer.Json.{JsonLib}
use iov_vehicle_cgw_fota.Store.Serializer.Values.{value_of}
use iov_vehicle_cgw_fota.Store.Serializer.Coding.{enveloped}
use iov_vehicle_cgw_fota.Store.CloudSerializer.{decode_envelope_json}

module _ (lib : JsonLib) where
  open lib use {
    Json, string, unsigned, signed, boolean, object, member, get_string, get_u32, get_u64, get_i64,
    get_bool,
  }

  unfoldable pub policy_json : FotaPolicyRecord → Json
  policy_json r = object (
      ("schemaVersion", unsigned 1)
      ∷ ("localPolicyVersion", string r.local_policy_version)
      ∷ ("basePreferenceVersion", string r.base_preference_version)
      ∷ ("preferenceVersion", string r.preference_version)
      ∷ ("effectivePolicyPbHex", string r.effective_policy_pb_hex)
      ∷ ("conflict", boolean r.conflict)
      ∷ ("effectiveAtMs", signed r.effective_at_ms)
      ∷ [])

  unfoldable pub encode_policy : ℤ → FotaPolicyRecord → Result (List ℕ)
  encode_policy now r = enveloped lib now 1 (policy_json r)

  unfoldable pub policy_of_json : Json → Result FotaPolicyRecord
  policy_of_json j = do
    schema_version ← value_of lib get_u32 j "schemaVersion" 1
    local_policy_version ← value_of lib get_string j "localPolicyVersion" ""
    base_preference_version ← member j "basePreferenceVersion" >>= get_string
    preference_version ← member j "preferenceVersion" >>= get_string
    effective_policy_pb_hex ← value_of lib get_string j "effectivePolicyPbHex" ""
    conflict ← value_of lib get_bool j "conflict" false
    effective_at_ms ← value_of lib get_i64 j "effectiveAtMs" (pos 0)
    ok (record {
      local_policy_version = local_policy_version;
      base_preference_version = base_preference_version;
      preference_version = preference_version;
      effective_policy_pb_hex = effective_policy_pb_hex;
      conflict = conflict;
      effective_at_ms = effective_at_ms;
    })

  unfoldable pub decode_policy : List ℕ → Result FotaPolicyRecord
  decode_policy bytes = decode_envelope_json lib bytes 1 "policy" >>= policy_of_json

  unfoldable pub log_job_json : FotaLogJobRecord → Json
  log_job_json r = object (
      ("schemaVersion", unsigned 1)
      ∷ ("logRequestId", string r.log_request_id)
      ∷ ("objectKey", string r.object_key)
      ∷ ("digestHex", string r.digest_hex)
      ∷ ("algorithm", string r.algorithm)
      ∷ ("sizeBytes", unsigned r.size_bytes)
      ∷ ("status", string r.status)
      ∷ ("completedAtMs", signed r.completed_at_ms)
      ∷ [])

  unfoldable pub encode_log_job : ℤ → FotaLogJobRecord → Result (List ℕ)
  encode_log_job now r = enveloped lib now 1 (log_job_json r)

  unfoldable pub log_job_of_json : Json → Result FotaLogJobRecord
  log_job_of_json j = do
    schema_version ← value_of lib get_u32 j "schemaVersion" 1
    log_request_id ← member j "logRequestId" >>= get_string
    object_key ← member j "objectKey" >>= get_string
    digest_hex ← value_of lib get_string j "digestHex" ""
    algorithm ← value_of lib get_string j "algorithm" ""
    size_bytes ← member j "sizeBytes" >>= get_u64
    status ← member j "status" >>= get_string
    completed_at_ms ← value_of lib get_i64 j "completedAtMs" (pos 0)
    ok (record {
      log_request_id = log_request_id;
      object_key = object_key;
      digest_hex = digest_hex;
      algorithm = algorithm;
      size_bytes = size_bytes;
      status = status;
      completed_at_ms = completed_at_ms;
    })

  unfoldable pub decode_log_job : List ℕ → Result FotaLogJobRecord
  decode_log_job bytes = decode_envelope_json lib bytes 1 "log_job" >>= log_job_of_json
