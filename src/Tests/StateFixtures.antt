-- ===== src/Tests/StateFixtures.antt =====
-- Report states and devices for the tests.
use iov_vehicle_cgw_fota.Prelude.{ℕ, true, false, List, [], ◌∷◌, none, some}
use iov_vehicle_cgw_fota.Prelude.Int.{pos}
use iov_vehicle_cgw_fota.Prelude.Result.{Result, ok, thrown}
use iov_vehicle_cgw_fota.Store.FotaState
use iov_vehicle_cgw_fota.Store.FotaState.{
  ActiveJobState, LastSuccessState, DedupeState, DedupeEntry, PersistedFingerprints, JobPhase,
  VinSource, BaselineSource, EcuStatus,
}
use iov_vehicle_cgw_fota.Store.Serializer.LastSuccess.{encode_last_success}
use iov_vehicle_cgw_fota.Store.Serializer.Dedupe.{encode_dedupe}
use iov_vehicle_cgw_fota.Store.Serializer.ActiveJob.{encode_active_job}
use iov_vehicle_cgw_fota.Store.FotaStateStore.{FotaStateStore}
use iov_vehicle_cgw_fota.Tests.Libraries.{json_lib, device_store}

abbrev pub empty_device : FotaStateStore device_store
empty_device = record {
  store = record { files = []; full = false };
  dedupe_max_entries = 2;
  dedupe_ttl_ms = pos 100;
  sequence_blocked = false;
  last_success_available = true;
  dedupe_available = true;
  active_job_corrupted = false;
}

abbrev pub no_fingerprints : PersistedFingerprints
no_fingerprints = record {
  algorithm = "";
  canonicalization = "";
  version_fingerprint_hex = "";
  snapshot_fingerprint_hex = "";
  dedupe_key_hex = "";
}

abbrev pub job : JobPhase → ActiveJobState
job phase = record {
  schema_version = 2;
  request_id = "q1";
  report_id = "r1";
  snapshot_seq = 7;
  reason = FotaState.cloud_request;
  phase = phase;
  attempt = 1;
  next_retry_at = pos 50;
  last_error_code = "";
  idempotency_key = "k1";
  fingerprints = no_fingerprints;
}

abbrev pub last_success : LastSuccessState
last_success = record {
  schema_version = 2;
  report_id = "r1";
  snapshot_seq = 7;
  completed_at = pos 900;
  registry_version = "1.0";
  overall_result = FotaState.all_ok;
  fingerprints = no_fingerprints;
  snapshot = record {
    vin = "VIN1";
    vin_source = VinSource.provisioned;
    baseline_id = none;
    baseline_source = BaselineSource.factory;
    registry_version = "1.0";
    collected_at = "1.0";
    overall_result = FotaState.all_ok;
    snapshot_seq = 7;
    ecu_list =
        record {
          ecu_id = "BCM";
          part_number = some "1.0";
          sw_version = none;
          hw_version = some "1.0";
          source = FotaState.uds_0x22;
          status = EcuStatus.ok;
          error_code = none;
        }
        ∷ [];
  };
}

abbrev pub window : DedupeState
window = record {
  schema_version = 2;
  entries =
      record {
        request_id = "q1";
        report_id = "r1";
        snapshot_seq = 6;
        fingerprints = no_fingerprints;
        overall_result = "ALL_OK";
        completed_at = pos 1;
        expires_at = pos 2;
      }
      ∷ [];
  max_entries = 1;
  ttl_ms = pos 100;
}

-- The bytes of an encoding that returns.
abbrev pub bytes_of : Result (List ℕ) → List ℕ
bytes_of (ok bytes) = bytes
bytes_of (thrown _) = []

abbrev pub job_bytes : JobPhase → List ℕ
job_bytes phase = bytes_of (encode_active_job json_lib (pos 5) (job phase))

abbrev pub last_bytes : List ℕ
last_bytes = bytes_of (encode_last_success json_lib (pos 5) last_success)

abbrev pub window_bytes : List ℕ
window_bytes = bytes_of (encode_dedupe json_lib (pos 5) window)
