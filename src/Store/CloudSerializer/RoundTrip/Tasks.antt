-- ===== src/Store/CloudSerializer/RoundTrip/Tasks.antt =====
-- What the encoders of vehicle_task, inventory, consent, download write, the decoders read
-- back (src/store/fota_cloud_state_serializer.cpp).
use iov_vehicle_cgw_fota.Prelude.{ℕ, ◌≡◌, ◌<◌, ap, ◌∙◌, List, length, arith}
use iov_vehicle_cgw_fota.Prelude.Int.{ℤ}
use iov_vehicle_cgw_fota.Prelude.Result.{ok, ◌>>=◌}
use iov_vehicle_cgw_fota.Store.CloudState.{
  FotaVehicleTaskRecord, FotaInventoryRecord, FotaConsentRecord, FotaDownloadRecord,
}
use iov_vehicle_cgw_fota.Store.Serializer.Json.{JsonLib}
use iov_vehicle_cgw_fota.Store.CloudSerializer.Tasks.{
  vehicle_task_json, encode_vehicle_task, vehicle_task_of_json, decode_vehicle_task, inventory_json,
  encode_inventory, inventory_of_json, decode_inventory, consent_json, encode_consent,
  consent_of_json, decode_consent, download_json, encode_download, download_of_json,
  decode_download,
}
use iov_vehicle_cgw_fota.Store.CloudSerializer.RoundTrip.{read_enveloped}

-- The numbers of the record are those of its unsigned members.
pub record FitsVehicleTask (r : FotaVehicleTaskRecord) : Type 0 where
  pub task_revision_fits : r.task_revision < 18446744073709551616

pub decode-encode_vehicle_task :
    (lib : JsonLib) (now : ℤ) (r : FotaVehicleTaskRecord) (bytes : List ℕ)
    → FitsVehicleTask r
    → encode_vehicle_task lib now r ≡ ok bytes
    → length bytes < 4294967296
    → decode_vehicle_task lib bytes ≡ ok r
unfolding encode_vehicle_task decode_vehicle_task vehicle_task_json vehicle_task_of_json
decode-encode_vehicle_task lib now r bytes fits he hl =
    ap (λ j. j >>= vehicle_task_of_json lib)
      (read_enveloped lib "vehicle_task" 1 now _ bytes (omega arith) he hl)
    ∙ simp (
      lib.find_value-object,
      lib.member-object,
      lib.get_string-string,
      lib.get_i64-signed,
      lib.get_bool-boolean,
      lib.get_u32-unsigned 1 (omega arith),
      lib.get_u64-unsigned r.task_revision fits.task_revision_fits,
    )

-- The numbers of the record are those of its unsigned members.
pub record FitsInventory (r : FotaInventoryRecord) : Type 0 where
  pub inventory_revision_fits : r.inventory_revision < 18446744073709551616

pub decode-encode_inventory :
    (lib : JsonLib) (now : ℤ) (r : FotaInventoryRecord) (bytes : List ℕ)
    → FitsInventory r
    → encode_inventory lib now r ≡ ok bytes
    → length bytes < 4294967296
    → decode_inventory lib bytes ≡ ok r
unfolding encode_inventory decode_inventory inventory_json inventory_of_json
decode-encode_inventory lib now r bytes fits he hl =
    ap (λ j. j >>= inventory_of_json lib)
      (read_enveloped lib "inventory" 1 now _ bytes (omega arith) he hl)
    ∙ simp (
      lib.find_value-object,
      lib.member-object,
      lib.get_string-string,
      lib.get_i64-signed,
      lib.get_bool-boolean,
      lib.get_u32-unsigned 1 (omega arith),
      lib.get_u64-unsigned r.inventory_revision fits.inventory_revision_fits,
    )

pub decode-encode_consent :
    (lib : JsonLib) (now : ℤ) (r : FotaConsentRecord) (bytes : List ℕ)
    → encode_consent lib now r ≡ ok bytes
    → length bytes < 4294967296
    → decode_consent lib bytes ≡ ok r
unfolding encode_consent decode_consent consent_json consent_of_json
decode-encode_consent lib now r bytes he hl =
    ap (λ j. j >>= consent_of_json lib)
      (read_enveloped lib "consent" 1 now _ bytes (omega arith) he hl)
    ∙ simp (
      lib.find_value-object,
      lib.member-object,
      lib.get_string-string,
      lib.get_i64-signed,
      lib.get_u32-unsigned 1 (omega arith),
    )

-- The numbers of the record are those of its unsigned members.
pub record FitsDownload (r : FotaDownloadRecord) : Type 0 where
  pub current_offset_bytes_fits : r.current_offset_bytes < 18446744073709551616

pub decode-encode_download :
    (lib : JsonLib) (now : ℤ) (r : FotaDownloadRecord) (bytes : List ℕ)
    → FitsDownload r
    → encode_download lib now r ≡ ok bytes
    → length bytes < 4294967296
    → decode_download lib bytes ≡ ok r
unfolding encode_download decode_download download_json download_of_json
decode-encode_download lib now r bytes fits he hl =
    ap (λ j. j >>= download_of_json lib)
      (read_enveloped lib "download" 1 now _ bytes (omega arith) he hl)
    ∙ simp (
      lib.find_value-object,
      lib.member-object,
      lib.get_string-string,
      lib.get_i64-signed,
      lib.get_bool-boolean,
      lib.get_u32-unsigned 1 (omega arith),
      lib.get_u64-unsigned r.current_offset_bytes fits.current_offset_bytes_fits,
    )
