-- ===== src/Store/Serializer/LastSuccess.antt =====
-- The last accepted snapshot: encoding, migration and decoding
-- (src/store/fota_state_serializer.cpp).
use iov_vehicle_cgw_fota.Prelude.{ℕ, not, List, [], ◌∷◌, leb, ◌==◌, if◌then◌else◌}
use iov_vehicle_cgw_fota.Prelude.Int.{ℤ}
use iov_vehicle_cgw_fota.Prelude.Result.{Result, ok, ◌>>=◌, ◌>>◌}
use iov_vehicle_cgw_fota.Store.FotaState.{LastSuccessState, last_success_version}
use iov_vehicle_cgw_fota.Store.FotaState.Names.{
  collection_status_to_string, overall_result_from_string,
}
use iov_vehicle_cgw_fota.Store.Serializer.Json.{JsonLib}
use iov_vehicle_cgw_fota.Store.Serializer.Values.{
  refuse_if, string_at, u64_at, i64_at, named_at, persisted_fingerprints_to_json, fingerprints_at,
}
use iov_vehicle_cgw_fota.Store.Serializer.Snapshot.{snapshot_to_json, snapshot_from_json}
use iov_vehicle_cgw_fota.Store.Serializer.Coding.{
  enveloped, add_missing, decode_state, no_fingerprints,
}

module _ (lib : JsonLib) where
  open lib use {
    Json, string, unsigned, signed, array, object, member, contains, set_member, erase, is_array,
    elements, get_u32, get_u64, get_i64, parse, dump,
  }

  unfoldable pub last_success_json : LastSuccessState → Result Json
  last_success_json s = do
    snapshot ← snapshot_to_json lib s.snapshot
    ok (
        object (
          ("schemaVersion", unsigned s.schema_version)
          ∷ ("reportId", string s.report_id)
          ∷ ("snapshotSeq", unsigned s.snapshot_seq)
          ∷ ("completedAt", signed s.completed_at)
          ∷ ("registryVersion", string s.registry_version)
          ∷ ("overallResult", string (collection_status_to_string s.overall_result))
          ∷ ("fingerprints", persisted_fingerprints_to_json lib s.fingerprints)
          ∷ ("snapshot", snapshot)
          ∷ []))

  unfoldable pub encode_last_success : ℤ → LastSuccessState → Result (List ℕ)
  unfolding last_success_json
  encode_last_success now s = do j ← last_success_json s; enveloped lib now s.schema_version j

  unfoldable pub migrate_last_success_payload : List ℕ → ℕ → Result (List ℕ)
  migrate_last_success_payload payload from =
      if leb last_success_version from then ok payload else do
        j ← parse payload
        j ←
            if from == 0
            then (do
              j ← add_missing lib "schemaVersion" (unsigned 1) j
              add_missing lib "fingerprint" (string "") j)
            else do
              j ← erase j "fingerprint"
              j ← add_missing lib "fingerprints" (no_fingerprints lib) j
              set_member j "schemaVersion" (unsigned last_success_version)
        dump j

  unfoldable pub decode_last_success : List ℕ → Result LastSuccessState
  unfolding migrate_last_success_payload
  decode_last_success =
      decode_state lib "last_success" last_success_version migrate_last_success_payload λ v j. do
        report_id ← string_at lib j "reportId"
        snapshot_seq ← u64_at lib j "snapshotSeq"
        completed_at ← i64_at lib j "completedAt"
        registry_version ← string_at lib j "registryVersion"
        overall_result ←
            named_at lib overall_result_from_string "bad overallResult: " j "overallResult"
        fingerprints ← fingerprints_at lib j "last_success"
        snapshot ← member j "snapshot" >>= snapshot_from_json lib
        refuse_if (not (snapshot.snapshot_seq == snapshot_seq)) "last_success snapshotSeq mismatch"
        ok (record {
          schema_version = v;
          report_id = report_id;
          snapshot_seq = snapshot_seq;
          completed_at = completed_at;
          registry_version = registry_version;
          overall_result = overall_result;
          fingerprints = fingerprints;
          snapshot = snapshot;
        })
