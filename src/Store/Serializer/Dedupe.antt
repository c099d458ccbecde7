-- ===== src/Store/Serializer/Dedupe.antt =====
-- The deduplication window: encoding, migration and decoding
-- (src/store/fota_state_serializer.cpp).
use iov_vehicle_cgw_fota.Prelude.{ℕ, not, ◌&&◌, List, [], ◌∷◌, map, leb, ◌==◌, if◌then◌else◌}
use iov_vehicle_cgw_fota.Prelude.Int.{ℤ, pos}
use iov_vehicle_cgw_fota.Prelude.Result.{Result, ok, ◌>>=◌, traverse}
use iov_vehicle_cgw_fota.Store.FotaState.{DedupeState, dedupe_version}
use iov_vehicle_cgw_fota.Store.Serializer.Json.{JsonLib}
use iov_vehicle_cgw_fota.Store.Serializer.Values.{
  value_of, push_members, dedupe_entry_to_json, dedupe_entry_from_json,
}
use iov_vehicle_cgw_fota.Store.Serializer.Coding.{
  enveloped, add_missing, decode_state, no_fingerprints,
}

module _ (lib : JsonLib) where
  open lib use {
    Json, string, unsigned, signed, array, object, member, contains, set_member, erase, is_array,
    elements, get_u32, get_u64, get_i64, parse, dump,
  }

  unfoldable pub dedupe_json : DedupeState → Result Json
  dedupe_json s = do
    let j = object (
        ("schemaVersion", unsigned s.schema_version)
        ∷ ("entries", array [])
        ∷ ("maxEntries", unsigned s.max_entries)
        ∷ ("ttlMs", signed s.ttl_ms)
        ∷ [])
    push_members lib "entries" (map (dedupe_entry_to_json lib) s.entries) j

  unfoldable pub encode_dedupe : ℤ → DedupeState → Result (List ℕ)
  unfolding dedupe_json
  encode_dedupe now s = do j ← dedupe_json s; enveloped lib now s.schema_version j

  -- One entry of the window, from version 1 to version 2.
  abbrev pub migrate_entry : Json → Result Json
  migrate_entry e = do
    e ← erase e "fingerprint"
    add_missing lib "fingerprints" (no_fingerprints lib) e

  -- `if (j.contains("entries") && j["entries"].is_array())`, and the loop over the entries
  abbrev pub migrate_entries : Json → Result Json
  migrate_entries j =
      if contains j "entries"
      then (do
        entries ← member j "entries"
        if is_array entries
            then (do
              entries' ← traverse migrate_entry (elements entries)
              set_member j "entries" (array entries'))
            else ok j)
      else ok j

  -- `maxSize` becomes `maxEntries`.
  abbrev pub rename_max_size : Json → Result Json
  rename_max_size j =
      if contains j "maxSize" && not (contains j "maxEntries")
      then (do v ← member j "maxSize"; j ← set_member j "maxEntries" v; erase j "maxSize")
      else ok j

  unfoldable pub migrate_dedupe_payload : List ℕ → ℕ → Result (List ℕ)
  migrate_dedupe_payload payload from = if leb dedupe_version from then ok payload else do
    j ← parse payload
    j ←
        if from == 0
        then (do
          j ← add_missing lib "schemaVersion" (unsigned 1) j
          j ← rename_max_size j
          add_missing lib "ttlMs" (signed (pos 0)) j)
        else do
          j ← add_missing lib "schemaVersion" (unsigned dedupe_version) j
          j ← migrate_entries j
          set_member j "schemaVersion" (unsigned dedupe_version)
    dump j

  unfoldable pub decode_dedupe : List ℕ → Result DedupeState
  unfolding migrate_dedupe_payload
  decode_dedupe = decode_state lib "dedupe" dedupe_version migrate_dedupe_payload λ v j. do
    list ← member j "entries"
    entries ← traverse (dedupe_entry_from_json lib) (elements list)
    max_entries ← value_of lib get_u32 j "maxEntries" 0
    ttl_ms ← value_of lib get_i64 j "ttlMs" (pos 0)
    ok (record {
      schema_version = v;
      entries = entries;
      max_entries = max_entries;
      ttl_ms = ttl_ms;
    })
