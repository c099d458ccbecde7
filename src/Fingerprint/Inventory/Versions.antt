-- ===== src/Fingerprint/Inventory/Versions.antt =====
-- What the version fingerprint does not depend on.
use mathlib.Core.Path.{fun_ext, ap₂}
use iov_vehicle_cgw_fota.Prelude.{
  ◌≡◌, refl, sym, ap, ◌∙◌, ℕ, zero, suc, ◌+◌, List, [], ◌∷◌, none, map,
}
use iov_vehicle_cgw_fota.Store.FotaState
use iov_vehicle_cgw_fota.Store.FotaState.{
  EcuVersionEntry, EcuStatus, VinSource, VehicleSoftwareSnapshot,
}
use iov_vehicle_cgw_fota.Prelude.Result.{Result, ◌>>=◌}
use iov_vehicle_cgw_fota.Fingerprint.CanonicalEncoder.{
  create, write_enum_field, write_optional_string_field, write_string_field, write_list_field,
  finalize,
}
use iov_vehicle_cgw_fota.Fingerprint.Inventory.Order.{
  Platform, StableKey, text_bytes, entry_at, stable_key, key_at, indices, before, stable_sort,
  checked_order, sort_ecu_indices,
}
use iov_vehicle_cgw_fota.Fingerprint.Inventory.{
  Fingerprint, baseline_source_code, optional_bytes, encode_version_ecu, make_fingerprint,
  build_version_fingerprint,
}

-- An ECU without what its last reading was like: from where, with which status and which error.
abbrev pub versions_of : EcuVersionEntry → EcuVersionEntry
versions_of e = record e { source = FotaState.uds_0x22; status = EcuStatus.ok; error_code = none }

entry_at-versions_of :
    (ecus : List EcuVersionEntry) (i : ℕ)
    → entry_at (map versions_of ecus) i ≡ versions_of (entry_at ecus i)
entry_at-versions_of [] i = refl
entry_at-versions_of (e ∷ es) zero = refl
entry_at-versions_of (e ∷ es) (suc i) = entry_at-versions_of es i

indices-versions_of :
    (i : ℕ) (ecus : List EcuVersionEntry) → indices i (map versions_of ecus) ≡ indices i ecus
unfolding indices
indices-versions_of i [] = refl
indices-versions_of i (e ∷ es) = ap (λ r. i ∷ r) (indices-versions_of (i + 1) es)

module _ (p : Platform) where
  stable_key-versions_of : (e : EcuVersionEntry) → stable_key p (versions_of e) ≡ stable_key p e
  unfolding stable_key
  stable_key-versions_of e = refl

  encode-versions_of :
      (e : EcuVersionEntry) → encode_version_ecu p (versions_of e) ≡ encode_version_ecu p e
  unfolding encode_version_ecu
  encode-versions_of e = refl

  key_at-versions_of :
      (ecus : List EcuVersionEntry) → key_at p (map versions_of ecus) ≡ key_at p ecus
  key_at-versions_of ecus = fun_ext (λ i.
      ap (stable_key p) (entry_at-versions_of ecus i) ∙ stable_key-versions_of (entry_at ecus i))

  sort-versions_of :
      (ecus : List EcuVersionEntry)
      → sort_ecu_indices p (map versions_of ecus) ≡ sort_ecu_indices p ecus
  unfolding sort_ecu_indices
  sort-versions_of ecus =
      let order = λ (key : ℕ → StableKey) (is : List ℕ). stable_sort (before key) is in
      let names : (λ i. (entry_at (map versions_of ecus) i).ecu_id)
          ≡ (λ i. (entry_at ecus i).ecu_id) =
        fun_ext (λ i. ap (λ e. e.ecu_id) (entry_at-versions_of ecus i)) in
      λ i.
        checked_order (key_at-versions_of ecus i) (names i)
          (order (key_at-versions_of ecus i) (indices-versions_of 0 ecus i))

  -- `buildVersionFingerprint` from an order and the encoding of the ECU at an index.
  abbrev digest_of : VehicleSoftwareSnapshot → Result (List ℕ) → (ℕ → List ℕ) → Result Fingerprint
  digest_of s sorted ecu =
      let enc = create (text_bytes p "cgw-fota-version-v1") in
      let e1 = write_enum_field 1 (baseline_source_code s.baseline_source) enc in
      let e2 = write_optional_string_field 2 (optional_bytes p s.baseline_id) e1 in
      let e3 = write_string_field 3 (text_bytes p s.registry_version) e2 in
      sorted >>= λ order.
      make_fingerprint p "cgw-fota-version-v1" (finalize (write_list_field 4 (map ecu order) e3))

  -- The parts of a snapshot that are versions, with fixed values for all else.
  abbrev versions : VehicleSoftwareSnapshot → VehicleSoftwareSnapshot
  versions s = record {
    vin = "";
    vin_source = VinSource.unknown;
    baseline_id = s.baseline_id;
    baseline_source = s.baseline_source;
    registry_version = s.registry_version;
    collected_at = "";
    overall_result = FotaState.all_ok;
    snapshot_seq = 0;
    ecu_list = map versions_of s.ecu_list;
  }

  build-versions :
      (s : VehicleSoftwareSnapshot)
      → build_version_fingerprint p (versions s) ≡ build_version_fingerprint p s
  unfolding build_version_fingerprint
  build-versions s = ap₂ (digest_of s) (sort-versions_of s.ecu_list) (
      fun_ext (λ i.
        ap (encode_version_ecu p) (entry_at-versions_of s.ecu_list i)
        ∙ encode-versions_of (entry_at s.ecu_list i)))

  -- Two snapshots with the same baseline, the same registry version and ECUs with the same ids, part
  -- numbers, software and hardware versions in the same order have the same version fingerprint, or
  -- fail alike: a reading that failed, its error and the time and number of the snapshot do not count.
  pub same_versions :
      (s t : VehicleSoftwareSnapshot)
      → s.baseline_source ≡ t.baseline_source
      → s.baseline_id ≡ t.baseline_id
      → s.registry_version ≡ t.registry_version
      → map versions_of s.ecu_list ≡ map versions_of t.ecu_list
      → build_version_fingerprint p s ≡ build_version_fingerprint p t
  same_versions s t source baseline registry ecus =
      let equal : versions s ≡ versions t = λ i. record {
        vin = "";
        vin_source = VinSource.unknown;
        baseline_id = baseline i;
        baseline_source = source i;
        registry_version = registry i;
        collected_at = "";
        overall_result = FotaState.all_ok;
        snapshot_seq = 0;
        ecu_list = ecus i;
      } in
      sym (build-versions s) ∙ ap (build_version_fingerprint p) equal ∙ build-versions t
