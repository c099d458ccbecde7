-- ===== src/Store/Serializer/Sequence.antt =====
-- The highest allocated sequence number: encoding, migration and decoding
-- (src/store/fota_state_serializer.cpp).
use iov_vehicle_cgw_fota.Prelude.{ℕ, List, [], ◌∷◌, leb, if◌then◌else◌}
use iov_vehicle_cgw_fota.Prelude.Int.{ℤ, pos}
use iov_vehicle_cgw_fota.Prelude.Result.{Result, ok, ◌>>=◌}
use iov_vehicle_cgw_fota.Store.FotaState.{SequenceState, sequence_version}
use iov_vehicle_cgw_fota.Store.Serializer.Json.{JsonLib}
use iov_vehicle_cgw_fota.Store.Serializer.Values.{value_of}
use iov_vehicle_cgw_fota.Store.Serializer.Coding.{enveloped, add_missing, decode_state}

module _ (lib : JsonLib) where
  open lib use {
    Json, string, unsigned, signed, array, object, member, contains, set_member, erase, is_array,
    elements, get_u32, get_u64, get_i64, parse, dump,
  }

  unfoldable pub sequence_json : SequenceState → Json
  sequence_json s = object (
      ("schemaVersion", unsigned s.schema_version)
      ∷ ("highestAllocated", unsigned s.highest_allocated)
      ∷ ("updatedAt", signed s.updated_at)
      ∷ [])

  unfoldable pub encode_sequence : ℤ → SequenceState → Result (List ℕ)
  unfolding sequence_json
  encode_sequence now s = enveloped lib now s.schema_version (sequence_json s)

  unfoldable pub migrate_sequence_payload : List ℕ → ℕ → Result (List ℕ)
  migrate_sequence_payload payload from = if leb sequence_version from then ok payload else do
    j ← parse payload
    j ← add_missing lib "schemaVersion" (unsigned sequence_version) j
    j ← add_missing lib "updatedAt" (signed (pos 0)) j
    dump j

  unfoldable pub decode_sequence : List ℕ → Result SequenceState
  unfolding migrate_sequence_payload
  decode_sequence = decode_state lib "sequence" sequence_version migrate_sequence_payload λ v j. do
    highest_allocated ← member j "highestAllocated" >>= get_u64
    updated_at ← value_of lib get_i64 j "updatedAt" (pos 0)
    ok (record {
      schema_version = v;
      highest_allocated = highest_allocated;
      updated_at = updated_at;
    })
