-- ===== src/Store/Serializer/RoundTrip/ActiveJob.antt =====
-- The job in flight: what `encodeActiveJob` writes, `decodeActiveJob` reads back.
use iov_vehicle_cgw_fota.Prelude.{ℕ, ◌≡◌, ◌<◌, refl, sym, ap, List, length, arith}
use iov_vehicle_cgw_fota.Prelude.Int.{ℤ}
use iov_vehicle_cgw_fota.Prelude.Result.{ok}
use iov_vehicle_cgw_fota.Store.FotaState.{ActiveJobState}
use iov_vehicle_cgw_fota.Store.FotaState.Names.{trigger_reason_lem, job_phase_lem}
use iov_vehicle_cgw_fota.Store.Serializer.Json.{JsonLib}
use iov_vehicle_cgw_fota.Store.Serializer.Values.{validate_persisted_fingerprints}
use iov_vehicle_cgw_fota.Store.Serializer.ActiveJob.{
  active_job_json, encode_active_job, decode_active_job,
}
use iov_vehicle_cgw_fota.Store.Serializer.RoundTrip.{decode_enveloped, read_fingerprints}

-- A job whose members fit into their types, of the current version and with fingerprints that the
-- validation accepts.
pub record IsStorable (s : ActiveJobState) : Type 0 where
  pub version : s.schema_version ≡ 2
  pub seq_fits : s.snapshot_seq < 18446744073709551616
  pub attempt_fits : s.attempt < 4294967296
  pub fingerprints_valid : validate_persisted_fingerprints s.fingerprints "active_job" ≡ ok tt

-- A storable job that was encoded into less than 4 GiB is decoded as it was, if the JSON library
-- behaves as documented.
pub decode-encode_active_job :
    (lib : JsonLib) (now : ℤ) (s : ActiveJobState) (bytes : List ℕ)
    → IsStorable s
    → encode_active_job lib now s ≡ ok bytes
    → length bytes < 4294967296
    → decode_active_job lib bytes ≡ ok s
unfolding encode_active_job decode_active_job active_job_json
decode-encode_active_job lib now s bytes v he hl =
    decode_enveloped lib "active_job" 2 _ _ now (active_job_json lib s) bytes s (omega arith)
      (rw (sym v.version) he) hl (rw (lib.find_value-object, v.version) refl)
      (simp
        (
          lib.find_value-object,
          lib.member-object,
          lib.get_string-string,
          lib.get_i64-signed,
          lib.get_u64-unsigned s.snapshot_seq v.seq_fits,
          lib.get_u32-unsigned s.attempt v.attempt_fits,
          read_fingerprints lib,
          trigger_reason_lem,
          job_phase_lem,
          v.fingerprints_valid,
        )
        (ap (λ n. ok (record s { schema_version = n })) (sym v.version)))
