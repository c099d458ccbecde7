-- ===== src/Store/Serializer/RoundTrip/Snapshot.antt =====
-- A snapshot and its ECUs: what `snapshotToJson` writes, `snapshotFromJson` reads back.
use iov_vehicle_cgw_fota.Prelude.{
  ◌≡◌, ◌<◌, refl, String, Option, none, some, is_some, List, [], ◌∷◌, str_eq, map, arith,
  if◌then◌else◌,
}
use iov_vehicle_cgw_fota.Prelude.Result.{Result, ok, ◌>>=◌, of_option, traverse}
use iov_vehicle_cgw_fota.Store.FotaState.{EcuVersionEntry, VehicleSoftwareSnapshot}
use iov_vehicle_cgw_fota.Store.FotaState.Names.{
  version_source_lem, ecu_status_lem, vin_source_lem, baseline_source_lem, collection_status_lem,
  vin_source_to_string, baseline_source_to_string, collection_status_to_string,
  version_source_to_string, ecu_status_to_string,
}
use iov_vehicle_cgw_fota.Store.Serializer.Json.{JsonLib, lookup}
use iov_vehicle_cgw_fota.Store.Serializer.Values.{set_optional, optional_at}
use iov_vehicle_cgw_fota.Store.Serializer.RoundTrip.Members.{push_members_lem}
use iov_vehicle_cgw_fota.Store.Serializer.Snapshot.{
  ecu_entry_to_json, ecu_entry_from_json, snapshot_to_json, snapshot_from_json,
}

module _ (lib : JsonLib) where
  open lib use {Json, string, unsigned, array, object, get_string, out_of_range}

  -- The members, with an optional text in front.
  with_optional : String → Option String → List (String × Json) → List (String × Json)
  with_optional k none fs = fs
  with_optional k (some s) fs = (k, string s) ∷ fs

  set_optional_lem :
      (k : String) (o : Option String) (fs : List (String × Json))
      → set_optional lib k o (object fs) ≡ ok (object (with_optional k o fs))
  unfolding with_optional
  set_optional_lem k none fs = refl
  set_optional_lem k (some s) fs = lib.set_member-object fs k (string s)

  first_of : Option String → Option Json → Option Json
  first_of none o = o
  first_of (some s) o = some (string s)

  lookup-with_optional :
      (k' k : String) (o : Option String) (fs : List (String × Json))
      → lookup k' (with_optional k o fs)
        ≡ (if str_eq k' k then first_of o (lookup k' fs) else lookup k' fs)
  unfolding with_optional first_of
  lookup-with_optional k' k none fs = ground arith
  lookup-with_optional k' k (some s) fs = refl

  text_of : String → Option Json → Result (Option String)
  text_of k none = ok none
  text_of k (some j) = get_string j >>= λ s. ok (some s)

  optional_at_lem :
      (k : String) (fs : List (String × Json))
      → optional_at lib (object fs) k ≡ text_of k (lookup k fs)
  unfolding text_of optional_at
  optional_at_lem k fs =
      rw (lib.contains-object, lib.member-object)
        (elim (lookup k fs)
          as (λ o.
            (if is_some o
              then (of_option (out_of_range k) o >>= get_string >>= λ s. ok (some s))
              else ok none)
            ≡ text_of k o) [ none ↦ refl | some j ↦ refl ])

  text_of-first_of : (k : String) (o : Option String) → text_of k (first_of o none) ≡ ok o
  unfolding text_of first_of
  text_of-first_of k none = refl
  text_of-first_of k (some s) = rw lib.get_string-string refl

  -- The JSON of an ECU.
  ecu_members : EcuVersionEntry → List (String × Json)
  ecu_members e = with_optional "error_code" e.error_code (
      with_optional "hw_version" e.hw_version (
        with_optional "sw_version" e.sw_version (
          with_optional "part_number" e.part_number (
            ("ecu_id", string e.ecu_id)
            ∷ ("source", string (version_source_to_string e.source))
            ∷ ("status", string (ecu_status_to_string e.status))
            ∷ []))))

  ecu_entry_to_json_lem :
      (e : EcuVersionEntry) → ecu_entry_to_json lib e ≡ ok (object (ecu_members e))
  unfolding ecu_entry_to_json ecu_members
  ecu_entry_to_json_lem e = simp set_optional_lem

  read_ecu : (e : EcuVersionEntry) → ecu_entry_from_json lib (object (ecu_members e)) ≡ ok e
  unfolding ecu_entry_from_json ecu_members
  read_ecu e = simp (
    optional_at_lem, lib.member-object, lookup-with_optional, text_of-first_of,
    lib.get_string-string, version_source_lem, ecu_status_lem,
  )

  ecu_object : EcuVersionEntry → Json
  ecu_object e = object (ecu_members e)

  write_ecus :
      (es : List EcuVersionEntry) → traverse (ecu_entry_to_json lib) es ≡ ok (map ecu_object es)
  unfolding ecu_object
  write_ecus [] = refl
  write_ecus (e ∷ es) = rw (ecu_entry_to_json_lem e, write_ecus es) refl

  read_ecus :
      (es : List EcuVersionEntry) → traverse (ecu_entry_from_json lib) (map ecu_object es) ≡ ok es
  unfolding ecu_object
  read_ecus [] = refl
  read_ecus (e ∷ es) = rw (read_ecu e, read_ecus es) refl

  -- The members of a snapshot before its ECUs are pushed.
  start_members : VehicleSoftwareSnapshot → List (String × Json)
  start_members s = with_optional "baseline_id" s.baseline_id (
      ("vin", string s.vin)
      ∷ ("vin_source", string (vin_source_to_string s.vin_source))
      ∷ ("baseline_source", string (baseline_source_to_string s.baseline_source))
      ∷ ("registry_version", string s.registry_version)
      ∷ ("collected_at", string s.collected_at)
      ∷ ("overall_result", string (collection_status_to_string s.overall_result))
      ∷ ("snapshot_seq", unsigned s.snapshot_seq)
      ∷ ("ecu_list", array [])
      ∷ [])

  pub read_snapshot :
      (s : VehicleSoftwareSnapshot)
      → s.snapshot_seq < 18446744073709551616
      → (j : Json) × (snapshot_to_json lib s ≡ ok j) × (snapshot_from_json lib j ≡ ok s)
  unfolding snapshot_to_json snapshot_from_json start_members
  read_snapshot s fits =
      let (fs, p) =
        push_members_lem lib "ecu_list" (map ecu_object s.ecu_list) [] (start_members s)
          (rw lookup-with_optional refl) in
      (
        object fs,
        simp (set_optional_lem, write_ecus) p.pushed,
        simp (
          optional_at_lem,
          lib.member-object,
          lib.find_value-object,
          p.here,
          p.others "vin" refl,
          p.others "vin_source" refl,
          p.others "baseline_id" refl,
          p.others "baseline_source" refl,
          p.others "registry_version" refl,
          p.others "collected_at" refl,
          p.others "overall_result" refl,
          p.others "snapshot_seq" refl,
          lookup-with_optional,
          text_of-first_of,
          lib.get_string-string,
          lib.get_u64-unsigned s.snapshot_seq fits,
          lib.elements-array,
          vin_source_lem,
          baseline_source_lem,
          collection_status_lem,
          read_ecus,
        ),
      )
