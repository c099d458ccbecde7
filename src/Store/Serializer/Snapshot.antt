-- ===== src/Store/Serializer/Snapshot.antt =====
-- The conversions of a snapshot and its ECUs to and from JSON (`ecuEntryToJson` to
-- `snapshotFromJson` of src/store/fota_state_serializer.cpp).
use iov_vehicle_cgw_fota.Prelude.{[], ◌∷◌}
use iov_vehicle_cgw_fota.Prelude.Text.{join}
use iov_vehicle_cgw_fota.Prelude.Result.{Result, ok, state_decode_error, ◌>>=◌, traverse, of_option}
use iov_vehicle_cgw_fota.Store.FotaState.{VinSource, EcuVersionEntry, VehicleSoftwareSnapshot}
use iov_vehicle_cgw_fota.Store.FotaState.Names.{
  version_source_to_string, version_source_from_string, collection_status_to_string,
  overall_result_from_string, ecu_status_to_string, ecu_status_from_string,
  baseline_source_to_string, baseline_source_from_string, vin_source_to_string,
  vin_source_from_string,
}
use iov_vehicle_cgw_fota.Store.Serializer.Json.{JsonLib}
use iov_vehicle_cgw_fota.Store.Serializer.Values.{
  string_at, u64_at, value_of, set_optional, optional_at, push_members, named_at,
}

module _ (lib : JsonLib) where
  open lib use {Json, string, unsigned, array, object, member, elements, get_string}

  unfoldable pub ecu_entry_to_json : EcuVersionEntry → Result Json
  ecu_entry_to_json e = do
    let j = object (
        ("ecu_id", string e.ecu_id)
        ∷ ("source", string (version_source_to_string e.source))
        ∷ ("status", string (ecu_status_to_string e.status))
        ∷ [])
    j ← set_optional lib "part_number" e.part_number j
    j ← set_optional lib "sw_version" e.sw_version j
    j ← set_optional lib "hw_version" e.hw_version j
    set_optional lib "error_code" e.error_code j

  unfoldable pub ecu_entry_from_json : Json → Result EcuVersionEntry
  ecu_entry_from_json j = do
    ecu_id ← string_at lib j "ecu_id"
    source ← named_at lib version_source_from_string "EcuVersionEntry bad source: " j "source"
    status ← named_at lib ecu_status_from_string "EcuVersionEntry bad status: " j "status"
    part_number ← optional_at lib j "part_number"
    sw_version ← optional_at lib j "sw_version"
    hw_version ← optional_at lib j "hw_version"
    error_code ← optional_at lib j "error_code"
    ok (record {
      ecu_id = ecu_id;
      part_number = part_number;
      sw_version = sw_version;
      hw_version = hw_version;
      source = source;
      status = status;
      error_code = error_code;
    })

  unfoldable pub snapshot_to_json : VehicleSoftwareSnapshot → Result Json
  snapshot_to_json s = do
    let j = object (
        ("vin", string s.vin)
        ∷ ("vin_source", string (vin_source_to_string s.vin_source))
        ∷ ("baseline_source", string (baseline_source_to_string s.baseline_source))
        ∷ ("registry_version", string s.registry_version)
        ∷ ("collected_at", string s.collected_at)
        ∷ ("overall_result", string (collection_status_to_string s.overall_result))
        ∷ ("snapshot_seq", unsigned s.snapshot_seq)
        ∷ ("ecu_list", array [])
        ∷ [])
    j ← set_optional lib "baseline_id" s.baseline_id j
    ecus ← traverse ecu_entry_to_json s.ecu_list
    push_members lib "ecu_list" ecus j

  -- `j.value("vin_source", "UNKNOWN")`, read
  abbrev pub vin_source_at : Json → Result VinSource
  vin_source_at j = do
    v ← value_of lib get_string j "vin_source" "UNKNOWN"
    of_option (state_decode_error (join "snapshot bad vin_source: " v)) (vin_source_from_string v)

  unfoldable pub snapshot_from_json : Json → Result VehicleSoftwareSnapshot
  unfolding ecu_entry_from_json
  snapshot_from_json j = do
    vin ← string_at lib j "vin"
    vin_source ← vin_source_at j
    baseline_id ← optional_at lib j "baseline_id"
    baseline_source ←
        named_at lib baseline_source_from_string "snapshot bad baseline_source: " j
          "baseline_source"
    registry_version ← string_at lib j "registry_version"
    collected_at ← string_at lib j "collected_at"
    overall_result ←
        named_at lib overall_result_from_string "snapshot bad overall_result: " j "overall_result"
    snapshot_seq ← u64_at lib j "snapshot_seq"
    list ← member j "ecu_list"
    ecu_list ← traverse ecu_entry_from_json (elements list)
    ok (record {
      vin = vin;
      vin_source = vin_source;
      baseline_id = baseline_id;
      baseline_source = baseline_source;
      registry_version = registry_version;
      collected_at = collected_at;
      overall_result = overall_result;
      snapshot_seq = snapshot_seq;
      ecu_list = ecu_list;
    })
