-- ===== src/Tests/InventoryTests.antt =====
-- The digests of an inventory with two ECUs, over texts that stand in a table.
use iov_vehicle_cgw_fota.Prelude.{◌≡◌, refl, ℕ, String, [], ◌∷◌, none, some, str_eq, if◌then◌else◌}
use iov_vehicle_cgw_fota.Prelude.Result.{ok, thrown, canonical_error}
use iov_vehicle_cgw_fota.Store.FotaState
use iov_vehicle_cgw_fota.Store.FotaState.{
  BaselineSource, VinSource, EcuStatus, EcuVersionEntry, VehicleSoftwareSnapshot,
}
use iov_vehicle_cgw_fota.Fingerprint.Inventory.Order.{Platform, stable_key, sort_ecu_indices}
use iov_vehicle_cgw_fota.Fingerprint.Inventory.{build_version_fingerprint}
use iov_vehicle_cgw_fota.Fingerprint.Inventory.Versions.{same_versions}

abbrev platform : Platform
platform = record {
  bytes = λ s.
      if str_eq s "BCM"
      then 66 ∷ 67 ∷ 77 ∷ []
      else if str_eq s "ADAS"
      then 65 ∷ 68 ∷ 65 ∷ 83 ∷ []
      else [];
  sha256 = λ bytes. ok bytes;
  sha256_hex = λ bytes. ok "digest";
}

abbrev ecu : String → EcuStatus → EcuVersionEntry
ecu id status = record {
  ecu_id = id;
  part_number = some "1.0";
  sw_version = none;
  hw_version = none;
  source = FotaState.uds_0x22;
  status = status;
  error_code = none;
}

abbrev inventory : EcuStatus → ℕ → VehicleSoftwareSnapshot
inventory status seq = record {
  vin = "VIN1";
  vin_source = VinSource.provisioned;
  baseline_id = none;
  baseline_source = BaselineSource.factory;
  registry_version = "1.0";
  collected_at = "10:00";
  overall_result = FotaState.partial;
  snapshot_seq = seq;
  ecu_list = ecu "BCM" EcuStatus.ok ∷ ecu "ADAS" status ∷ [];
}

ecus_sorted : sort_ecu_indices platform (inventory EcuStatus.ok 1).ecu_list ≡ ok (1 ∷ 0 ∷ [])
unfolding sort_ecu_indices stable_key
ecus_sorted = refl

duplicate_refused :
    sort_ecu_indices platform
      (ecu "BCM" EcuStatus.ok ∷ ecu "ADAS" EcuStatus.ok ∷ ecu "BCM" EcuStatus.nrc ∷ [])
    ≡ thrown (canonical_error "CGW-FOTA-2001" "duplicate ECU stable key: ecuId=BCM")
unfolding sort_ecu_indices stable_key
duplicate_refused = refl

same_versions_example :
    build_version_fingerprint platform (inventory EcuStatus.timeout 1)
    ≡ build_version_fingerprint platform (inventory EcuStatus.ok 2)
same_versions_example =
    same_versions platform (inventory EcuStatus.timeout 1) (inventory EcuStatus.ok 2) refl refl refl
      refl
