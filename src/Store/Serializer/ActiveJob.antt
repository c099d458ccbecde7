-- ===== src/Store/Serializer/ActiveJob.antt =====
-- The job in flight: encoding, migration and decoding
-- (src/store/fota_state_serializer.cpp).
use iov_vehicle_cgw_fota.Prelude.{ℕ, List, [], ◌∷◌, leb, ◌==◌, if◌then◌else◌}
use iov_vehicle_cgw_fota.Prelude.Int.{ℤ}
use iov_vehicle_cgw_fota.Prelude.Result.{Result, ok, ◌>>=◌}
use iov_vehicle_cgw_fota.Store.FotaState.{ActiveJobState, active_job_version}
use iov_vehicle_cgw_fota.Store.FotaState.Names.{
  job_phase_to_string, job_phase_from_string, trigger_reason_to_string, trigger_reason_from_string,
}
use iov_vehicle_cgw_fota.Store.Serializer.Json.{JsonLib}
use iov_vehicle_cgw_fota.Store.Serializer.Values.{
  string_at, u64_at, i64_at, value_of, named_at, persisted_fingerprints_to_json, fingerprints_at,
}
use iov_vehicle_cgw_fota.Store.Serializer.Coding.{
  enveloped, add_missing, decode_state, no_fingerprints,
}

module _ (lib : JsonLib) where
  open lib use {
    Json, string, unsigned, signed, array, object, member, contains, set_member, erase, is_array,
    elements, get_u32, get_u64, get_i64, parse, dump,
  }

  unfoldable pub active_job_json : ActiveJobState → Json
  active_job_json s = object (
      ("schemaVersion", unsigned s.schema_version)
      ∷ ("requestId", string s.request_id)
      ∷ ("reportId", string s.report_id)
      ∷ ("snapshotSeq", unsigned s.snapshot_seq)
      ∷ ("reason", string (trigger_reason_to_string s.reason))
      ∷ ("phase", string (job_phase_to_string s.phase))
      ∷ ("attempt", unsigned s.attempt)
      ∷ ("nextRetryAt", signed s.next_retry_at)
      ∷ ("lastErrorCode", string s.last_error_code)
      ∷ ("idempotencyKey", string s.idempotency_key)
      ∷ ("fingerprints", persisted_fingerprints_to_json lib s.fingerprints)
      ∷ [])

  unfoldable pub encode_active_job : ℤ → ActiveJobState → Result (List ℕ)
  unfolding active_job_json
  encode_active_job now s = enveloped lib now s.schema_version (active_job_json s)

  unfoldable pub migrate_active_job_payload : List ℕ → ℕ → Result (List ℕ)
  migrate_active_job_payload payload from = if leb active_job_version from then ok payload else do
    j ← parse payload
    j ←
        if from == 0
        then (do
          j ← add_missing lib "schemaVersion" (unsigned 1) j
          add_missing lib "idempotencyKey" (string "") j)
        else do
          j ← add_missing lib "schemaVersion" (unsigned active_job_version) j
          j ← add_missing lib "fingerprints" (no_fingerprints lib) j
          set_member j "schemaVersion" (unsigned active_job_version)
    dump j

  unfoldable pub decode_active_job : List ℕ → Result ActiveJobState
  unfolding migrate_active_job_payload
  decode_active_job =
      decode_state lib "active_job" active_job_version migrate_active_job_payload λ v j. do
        request_id ← string_at lib j "requestId"
        report_id ← string_at lib j "reportId"
        snapshot_seq ← u64_at lib j "snapshotSeq"
        reason ← named_at lib trigger_reason_from_string "active_job bad reason: " j "reason"
        phase ← named_at lib job_phase_from_string "active_job bad phase: " j "phase"
        attempt ← member j "attempt" >>= get_u32
        next_retry_at ← i64_at lib j "nextRetryAt"
        last_error_code ← string_at lib j "lastErrorCode"
        idempotency_key ← value_of lib lib.get_string j "idempotencyKey" ""
        fingerprints ← fingerprints_at lib j "active_job"
        ok (record {
          schema_version = v;
          request_id = request_id;
          report_id = report_id;
          snapshot_seq = snapshot_seq;
          reason = reason;
          phase = phase;
          attempt = attempt;
          next_retry_at = next_retry_at;
          last_error_code = last_error_code;
          idempotency_key = idempotency_key;
          fingerprints = fingerprints;
        })
