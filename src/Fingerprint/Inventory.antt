-- ===== src/Fingerprint/Inventory.antt =====
-- The digests of an inventory (src/fingerprint/inventory_fingerprint.cpp). SHA-256 and the bytes of a
-- text are those of the platform, as a parameter.
pub mod Order
pub mod Versions
use iov_vehicle_cgw_fota.Prelude.{
  ◌≡◌, ℕ, ◌+◌, ◌-◌, String, List, [], ◌∷◌, ◌++◌, Option, none, some, leb, ◌&&◌, length, map,
  if◌then◌else◌,
}
use iov_vehicle_cgw_fota.Prelude.Result.{Result, ok, ◌>>=◌}
use iov_vehicle_cgw_fota.Store.FotaState.{
  BaselineSource, VersionSource, EcuStatus, CollectionStatus, VinSource, EcuVersionEntry,
  VehicleSoftwareSnapshot,
}
use iov_vehicle_cgw_fota.Fingerprint.CanonicalEncoder.{
  create, write_string_field, write_optional_string_field, write_enum_field, write_bytes_field,
  write_list_field, finalize,
}
use iov_vehicle_cgw_fota.Fingerprint.Inventory.Order.{
  Platform, text_bytes, sort_ecu_indices, entry_at,
}

pub record Fingerprint : Type 0 where
  pub algorithm : String
  pub canonicalization : String
  pub digest : List ℕ
  pub hex_str : String

pub data IdentifierKind : Type 0 where
  vin device_sn : IdentifierKind

unfoldable pub baseline_source_code : BaselineSource → ℕ
baseline_source_code BaselineSource.factory = 1
baseline_source_code BaselineSource.last_ota = 2
baseline_source_code BaselineSource.unknown = 3

unfoldable pub version_source_code : VersionSource → ℕ
version_source_code VersionSource.uds_0x22 = 1
version_source_code VersionSource.someip_get_version = 2

unfoldable pub ecu_status_code : EcuStatus → ℕ
ecu_status_code EcuStatus.ok = 1
ecu_status_code EcuStatus.missing = 2
ecu_status_code EcuStatus.nrc = 3
ecu_status_code EcuStatus.timeout = 4
ecu_status_code EcuStatus.unreachable = 5
ecu_status_code EcuStatus.parse_error = 6

unfoldable pub collection_result_code : CollectionStatus → ℕ
collection_result_code CollectionStatus.all_ok = 1
collection_result_code CollectionStatus.partial = 2
collection_result_code CollectionStatus.failed = 3

unfoldable pub vin_source_code : VinSource → ℕ
vin_source_code VinSource.provisioned = 1
vin_source_code VinSource.unknown = 2

-- `if (c >= 'a' && c <= 'z') c = c - 'a' + 'A'`
abbrev pub upper : ℕ → ℕ
upper c = if leb 97 c && leb c 122 then c - 97 + 65 else c

unfoldable pub normalize_vin : List ℕ → List ℕ
normalize_vin bytes = map upper bytes

unfoldable pub identifier_kind_suffix : IdentifierKind → String
identifier_kind_suffix IdentifierKind.vin = "vin"
identifier_kind_suffix IdentifierKind.device_sn = "device_sn"

module _ (p : Platform) where
  abbrev pub optional_bytes : Option String → Option (List ℕ)
  optional_bytes none = none
  optional_bytes (some s) = some (text_bytes p s)

  unfoldable pub encode_version_ecu : EcuVersionEntry → List ℕ
  encode_version_ecu e =
      let e1 = write_string_field 1 (text_bytes p e.ecu_id) (create []) in
      let e2 = write_optional_string_field 2 (optional_bytes e.part_number) e1 in
      let e3 = write_optional_string_field 3 (optional_bytes e.sw_version) e2 in
      finalize (write_optional_string_field 4 (optional_bytes e.hw_version) e3)

  unfoldable pub encode_snapshot_ecu : EcuVersionEntry → List ℕ
  encode_snapshot_ecu e =
      let e1 = write_string_field 1 (text_bytes p e.ecu_id) (create []) in
      let e2 = write_optional_string_field 2 (optional_bytes e.part_number) e1 in
      let e3 = write_optional_string_field 3 (optional_bytes e.sw_version) e2 in
      let e4 = write_optional_string_field 4 (optional_bytes e.hw_version) e3 in
      let e5 = write_enum_field 5 (version_source_code e.source) e4 in
      let e6 = write_enum_field 6 (ecu_status_code e.status) e5 in
      finalize (write_optional_string_field 7 (optional_bytes e.error_code) e6)

  unfoldable pub make_fingerprint : String → List ℕ → Result Fingerprint
  make_fingerprint canonicalization bytes = do
    digest ← p.sha256 bytes
    hex ← p.sha256_hex bytes
    ok (record {
      algorithm = "sha-256";
      canonicalization = canonicalization;
      digest = digest;
      hex_str = hex;
    })

  unfoldable pub build_identifier_digest : IdentifierKind → List ℕ → Result String
  build_identifier_digest kind value =
      let domain = text_bytes p "cgw-fota-id-v1/" ++ text_bytes p (identifier_kind_suffix kind) in
      p.sha256_hex (finalize (write_string_field 1 value (create domain)))

  unfoldable pub build_version_fingerprint : VehicleSoftwareSnapshot → Result Fingerprint
  build_version_fingerprint s =
      let enc = create (text_bytes p "cgw-fota-version-v1") in
      let e1 = write_enum_field 1 (baseline_source_code s.baseline_source) enc in
      let e2 = write_optional_string_field 2 (optional_bytes s.baseline_id) e1 in
      let e3 = write_string_field 3 (text_bytes p s.registry_version) e2 in
      sort_ecu_indices p s.ecu_list >>= λ order.
      let ecus = map (λ i. encode_version_ecu (entry_at s.ecu_list i)) order in
      make_fingerprint "cgw-fota-version-v1" (finalize (write_list_field 4 ecus e3))

  unfoldable pub build_snapshot_fingerprint : VehicleSoftwareSnapshot → Result Fingerprint
  build_snapshot_fingerprint s =
      build_identifier_digest IdentifierKind.vin (normalize_vin (text_bytes p s.vin))
      >>= λ vin_digest.
          let enc = create (text_bytes p "cgw-fota-snapshot-v1") in
          let e1 = write_string_field 1 (text_bytes p vin_digest) enc in
          let e2 = write_enum_field 2 (vin_source_code s.vin_source) e1 in
          let e3 = write_enum_field 3 (baseline_source_code s.baseline_source) e2 in
          let e4 = write_optional_string_field 4 (optional_bytes s.baseline_id) e3 in
          let e5 = write_string_field 5 (text_bytes p s.registry_version) e4 in
          let e6 = write_enum_field 6 (collection_result_code s.overall_result) e5 in
          sort_ecu_indices p s.ecu_list >>= λ order.
          let ecus = map (λ i. encode_snapshot_ecu (entry_at s.ecu_list i)) order in
          make_fingerprint "cgw-fota-snapshot-v1" (finalize (write_list_field 7 ecus e6))

  unfoldable pub build_dedupe_key : Fingerprint → String → Result String
  build_dedupe_key f destination =
      let enc = create (text_bytes p "cgw-fota-dedupe-v1") in
      let e1 = write_string_field 1 (text_bytes p destination) enc in
      let e2 = write_string_field 2 (text_bytes p f.canonicalization) e1 in
      p.sha256_hex (finalize (write_bytes_field 3 f.digest e2))
