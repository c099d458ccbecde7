-- ===== src/Store/CloudSerializer/RoundTrip/Reports.antt =====
-- What the encoders of policy, log_job write, the decoders read
-- back (src/store/fota_cloud_state_serializer.cpp).
use iov_vehicle_cgw_fota.Prelude.{ℕ, ◌≡◌, ◌<◌, ap, ◌∙◌, List, length, arith}
use iov_vehicle_cgw_fota.Prelude.Int.{ℤ}
use iov_vehicle_cgw_fota.Prelude.Result.{ok, ◌>>=◌}
use iov_vehicle_cgw_fota.Store.CloudState.{FotaPolicyRecord, FotaLogJobRecord}
use iov_vehicle_cgw_fota.Store.Serializer.Json.{JsonLib}
use iov_vehicle_cgw_fota.Store.CloudSerializer.Reports.{
  policy_json, encode_policy, policy_of_json, decode_policy, log_job_json, encode_log_job,
  log_job_of_json, decode_log_job,
}
use iov_vehicle_cgw_fota.Store.CloudSerializer.RoundTrip.{read_enveloped}

pub decode-encode_policy :
    (lib : JsonLib) (now : ℤ) (r : FotaPolicyRecord) (bytes : List ℕ)
    → encode_policy lib now r ≡ ok bytes
    → length bytes < 4294967296
    → decode_policy lib bytes ≡ ok r
unfolding encode_policy decode_policy policy_json policy_of_json
decode-encode_policy lib now r bytes he hl =
    ap (λ j. j >>= policy_of_json lib)
      (read_enveloped lib "policy" 1 now _ bytes (omega arith) he hl)
    ∙ simp (
      lib.find_value-object,
      lib.member-object,
      lib.get_string-string,
      lib.get_i64-signed,
      lib.get_bool-boolean,
      lib.get_u32-unsigned 1 (omega arith),
    )

-- The numbers of the record are those of its unsigned members.
pub record FitsLogJob (r : FotaLogJobRecord) : Type 0 where
  pub size_bytes_fits : r.size_bytes < 18446744073709551616

pub decode-encode_log_job :
    (lib : JsonLib) (now : ℤ) (r : FotaLogJobRecord) (bytes : List ℕ)
    → FitsLogJob r
    → encode_log_job lib now r ≡ ok bytes
    → length bytes < 4294967296
    → decode_log_job lib bytes ≡ ok r
unfolding encode_log_job decode_log_job log_job_json log_job_of_json
decode-encode_log_job lib now r bytes fits he hl =
    ap (λ j. j >>= log_job_of_json lib)
      (read_enveloped lib "log_job" 1 now _ bytes (omega arith) he hl)
    ∙ simp (
      lib.find_value-object,
      lib.member-object,
      lib.get_string-string,
      lib.get_i64-signed,
      lib.get_u32-unsigned 1 (omega arith),
      lib.get_u64-unsigned r.size_bytes fits.size_bytes_fits,
    )
