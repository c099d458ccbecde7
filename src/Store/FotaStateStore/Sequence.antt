-- ===== src/Store/FotaStateStore/Sequence.antt =====
-- The sequence numbers: `allocateSnapshotSeq` and `loadSequence`.
use iov_vehicle_cgw_fota.Prelude.{
  ℕ, ◌+◌, String, true, Option, none, some, leb, u64_max, if◌then◌else◌,
}
use iov_vehicle_cgw_fota.Prelude.Int.{ℤ, pos}
use iov_vehicle_cgw_fota.Prelude.Result.{
  Exception, store_exception, state_decode_error, seq_alloc_blocked,
}
use iov_vehicle_cgw_fota.Store.FotaState.{SequenceState}
use iov_vehicle_cgw_fota.Store.FrameworkStore.{FrameworkStore}
use iov_vehicle_cgw_fota.Store.Serializer.Json.{JsonLib}
use iov_vehicle_cgw_fota.Store.Serializer.Sequence.{encode_sequence, decode_sequence}
use iov_vehicle_cgw_fota.Store.FotaStateStore.{
  Action, pure, raise, lift, gets, modify, ◌>>=◌, ◌>>◌, catching, now_ms, store_has, store_load,
  store_save, sequence_key,
}

-- What a device without a stored state starts from.
abbrev pub initial_sequence : SequenceState
initial_sequence = record { schema_version = 1; highest_allocated = 0; updated_at = pos 0 }

module _ (fw : FrameworkStore) (lib : JsonLib) where
  -- `sequenceBlocked_ = true; throw SeqAllocBlocked(text, code)`
  abbrev pub block : {A : Type 0} → String → String → Action fw A
  block text code =
      modify (λ s. record s { sequence_blocked = true }) >> raise (seq_alloc_blocked text code)

  abbrev pub load_failed : {A : Type 0} → Exception → Option (Action fw A)
  load_failed (store_exception code) = some (block "sequence load failed" code)
  load_failed (state_decode_error _) = some (block "sequence corrupted" "CGW-FW-0104")
  load_failed _ = none

  abbrev pub save_failed : {A : Type 0} → Exception → Option (Action fw A)
  save_failed (store_exception code) = some (block "sequence save failed" code)
  save_failed _ = none

  -- The stored state, or the initial one.
  unfoldable pub read_sequence : Action fw SequenceState
  read_sequence = do
    exists ← store_has fw sequence_key
    if exists
        then (store_load fw sequence_key >>= λ bytes. lift (decode_sequence lib bytes))
        else pure initial_sequence

  -- `store_.save(keys::SEQUENCE, encodeSequence(newState))`
  unfoldable pub save_sequence : ℕ → ℤ → Action fw (Unit {0})
  save_sequence next updated_at = do
    written_at ← now_ms
    bytes ← lift (
        encode_sequence lib written_at
          (record { schema_version = 1; highest_allocated = next; updated_at = updated_at }))
    store_save fw sequence_key bytes

  unfoldable pub write_sequence : ℕ → Action fw (Unit {0})
  unfolding save_sequence
  write_sequence next = now_ms >>= λ t. catching (save_sequence next t) save_failed

  -- From the state that was read on.
  unfoldable pub allocate_from : SequenceState → Action fw ℕ
  unfolding write_sequence
  allocate_from cur =
      if leb u64_max cur.highest_allocated
      then block "sequence overflow" "OVERFLOW"
      else (write_sequence (cur.highest_allocated + 1) >> pure (cur.highest_allocated + 1))

  unfoldable pub allocate_snapshot_seq : Action fw ℕ
  unfolding read_sequence allocate_from
  allocate_snapshot_seq = do
    blocked ← gets (λ s. s.sequence_blocked)
    if blocked
        then raise (seq_alloc_blocked "sequence blocked" "STATE_BLOCKED")
        else (catching read_sequence load_failed >>= allocate_from)

  unfoldable pub load_sequence : Action fw (Option SequenceState)
  load_sequence = do
    blocked ← gets (λ s. s.sequence_blocked)
    if blocked
        then pure none
        else catching
            (do
              exists ← store_has fw sequence_key
              if exists
                  then (store_load fw sequence_key >>= λ bytes.
                      lift (decode_sequence lib bytes) >>= λ q. pure (some q))
                  else pure none)
            (λ _. some (pure none))
