-- ===== src/Tests/StateStoreTests.antt =====
-- The theorems about the store of the report states at concrete inputs.
use iov_vehicle_cgw_fota.Prelude.{◌≡◌, ◌<◌, refl, ap, ℕ, List, [], ◌∷◌, length, arith, position}
use iov_vehicle_cgw_fota.Prelude.Int.{ℤ, pos, negsuc}
use iov_vehicle_cgw_fota.Prelude.Result.{Result, ok, thrown}
use iov_vehicle_cgw_fota.Store.FotaState
use iov_vehicle_cgw_fota.Store.FotaState.{
  ActiveJobState, LastSuccessState, DedupeState, DedupeEntry, PersistedFingerprints, JobPhase,
  VinSource, BaselineSource, EcuStatus,
}
use iov_vehicle_cgw_fota.Store.FotaState.Names.{
  job_phase_to_string, trigger_reason_to_string, collection_status_to_string,
  version_source_to_string, ecu_status_to_string, vin_source_to_string, baseline_source_to_string,
}
use iov_vehicle_cgw_fota.Store.Serializer.Values.{
  validate_persisted_fingerprints, persisted_fingerprints_to_json, dedupe_entry_to_json,
}
use iov_vehicle_cgw_fota.Store.Serializer.Snapshot.{snapshot_to_json, ecu_entry_to_json}
use iov_vehicle_cgw_fota.Store.Serializer.LastSuccess.{encode_last_success, decode_last_success}
use iov_vehicle_cgw_fota.Store.Serializer.Dedupe.{encode_dedupe, decode_dedupe}
use iov_vehicle_cgw_fota.Store.Serializer.RoundTrip.LastSuccess.{decode-encode_last_success}
use iov_vehicle_cgw_fota.Store.Serializer.RoundTrip.Dedupe.{decode-encode_dedupe}
use iov_vehicle_cgw_fota.Store.Serializer.Envelope.{
  encode_envelope, parse_envelope_header, extract_payload, written_header, parse-encode_envelope,
}
use iov_vehicle_cgw_fota.Store.Serializer.Sequence.{encode_sequence, decode_sequence}
use iov_vehicle_cgw_fota.Store.Serializer.ActiveJob.{encode_active_job, decode_active_job}
use iov_vehicle_cgw_fota.Store.Serializer.RoundTrip.ActiveJob.{decode-encode_active_job}
use iov_vehicle_cgw_fota.Store.FotaStateStore.Allocation.{
  HasShortSequences, Counts, stored_highest, allocate_snapshot_seq-Counts,
}
use iov_vehicle_cgw_fota.Store.FotaStateStore.Sequence.{allocate_snapshot_seq}
use iov_vehicle_cgw_fota.Store.FotaStateStore.Records.{load_active_job}
use iov_vehicle_cgw_fota.Store.FotaStateStore.Numbers.{
  allocate, read_job, drop_job, Above, numbers, numbers-Above,
}
use iov_vehicle_cgw_fota.Tests.Libraries.{json_lib, device_store}
use iov_vehicle_cgw_fota.Tests.StateFixtures.{
  empty_device, job, last_success, window, job_bytes, last_bytes, window_bytes,
}

envelope_example :
    (parse_envelope_header (encode_envelope (pos 7) 2 (1 ∷ 2 ∷ []))
      ≡ ok (written_header (pos 7) 2 (1 ∷ 2 ∷ [])))
    × (extract_payload
          (encode_envelope (pos 7) 2 (1 ∷ 2 ∷ []))
          (written_header (pos 7) 2 (1 ∷ 2 ∷ []))
        ≡ 1 ∷ 2 ∷ [])
envelope_example = parse-encode_envelope (pos 7) 2 (1 ∷ 2 ∷ []) (omega arith) (omega arith)

size_of : Result (List ℕ) → ℕ
size_of (ok bytes) = length bytes
size_of (thrown _) = 0

short_sequence :
    (now : ℤ) (v m : ℕ) (t : ℤ) (bytes : List ℕ)
    → encode_sequence json_lib now
        (record { schema_version = v; highest_allocated = m; updated_at = t })
      ≡ ok bytes
    → length bytes < 4294967296
unfolding encode_sequence encode_envelope size_of position
short_sequence now v m (pos n) bytes h =
    let size : 42 ≡ length bytes = ap size_of h in omega (arith, size)
short_sequence now v m (negsuc n) bytes h =
    let size : 42 ≡ length bytes = ap size_of h in omega (arith, size)

json_lib-HasShortSequences : HasShortSequences json_lib
json_lib-HasShortSequences now s bytes h =
    short_sequence now s.schema_version s.highest_allocated s.updated_at bytes h

numbers_run :
    numbers device_store json_lib (allocate ∷ read_job ∷ allocate ∷ []) empty_device ≡ 1 ∷ 2 ∷ []
unfolding allocate_snapshot_seq encode_sequence position load_active_job decode_sequence
    parse_envelope_header encode_envelope extract_payload
numbers_run = refl

numbers_example :
    Above
      (stored_highest device_store json_lib empty_device)
      (numbers device_store json_lib (allocate ∷ drop_job ∷ allocate ∷ []) empty_device)
numbers_example =
    numbers-Above device_store json_lib json_lib-HasShortSequences
      (allocate ∷ drop_job ∷ allocate ∷ []) empty_device

allocation_example :
    Counts
      (stored_highest device_store json_lib empty_device)
      (allocate_snapshot_seq device_store json_lib empty_device).0
      (stored_highest device_store json_lib
        (allocate_snapshot_seq device_store json_lib empty_device).1)
allocation_example =
    allocate_snapshot_seq-Counts device_store json_lib json_lib-HasShortSequences empty_device

job_example :
    decode_active_job json_lib (job_bytes FotaState.submit_unknown)
    ≡ ok (job FotaState.submit_unknown)
unfolding encode_active_job encode_envelope position validate_persisted_fingerprints
    job_phase_to_string trigger_reason_to_string persisted_fingerprints_to_json
job_example =
    decode-encode_active_job json_lib (pos 5) (job FotaState.submit_unknown)
      (job_bytes FotaState.submit_unknown)
      (record {
        version = refl;
        seq_fits = omega arith;
        attempt_fits = omega arith;
        fingerprints_valid = refl;
      })
      refl (omega arith)

last_success_example : decode_last_success json_lib last_bytes ≡ ok last_success
unfolding encode_last_success encode_envelope position validate_persisted_fingerprints
    collection_status_to_string version_source_to_string ecu_status_to_string vin_source_to_string
    baseline_source_to_string persisted_fingerprints_to_json snapshot_to_json ecu_entry_to_json
last_success_example =
    decode-encode_last_success json_lib (pos 5) last_success last_bytes
      (record {
        version = refl;
        seq_fits = omega arith;
        seq_agrees = refl;
        fingerprints_valid = refl;
      })
      refl (omega arith)

window_example : decode_dedupe json_lib window_bytes ≡ ok window
unfolding encode_dedupe encode_envelope position validate_persisted_fingerprints
    persisted_fingerprints_to_json dedupe_entry_to_json
window_example =
    decode-encode_dedupe json_lib (pos 5) window window_bytes
      (record {
        version = refl;
        max_fits = omega arith;
        entries_storable = (record { seq_fits = omega arith; fingerprints_valid = refl }, tt);
      })
      refl (omega arith)
