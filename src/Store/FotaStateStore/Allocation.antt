-- ===== src/Store/FotaStateStore/Allocation.antt =====
-- The number that is stored, and what one allocation does to it.
use iov_vehicle_cgw_fota.Prelude.{
  ◌≡◌, ◌⊎◌, inl, refl, sym, ap, ◌+◌, ◌≤◌, ◌<◌, ℕ, List, Option, none, some, length, u64_max, arith,
}
use mathlib.Core.Path.{subst}
use iov_vehicle_cgw_fota.Prelude.Int.{ℤ}
use iov_vehicle_cgw_fota.Prelude.Result.{
  Exception, Result, ok, thrown, store_exception, state_decode_error, json_exception,
  seq_alloc_blocked, config_exception, fota_config_exception, canonical_error, hash_exception,
  OnReturn,
}
use iov_vehicle_cgw_fota.Store.FotaState.{SequenceState}
use iov_vehicle_cgw_fota.Store.FrameworkStore.{FrameworkStore}
use iov_vehicle_cgw_fota.Store.Serializer.Json.{JsonLib}
use iov_vehicle_cgw_fota.Store.Serializer.Sequence.{encode_sequence, decode_sequence}
use iov_vehicle_cgw_fota.Store.Serializer.RoundTrip.Sequence.{decode-encode_sequence}
use iov_vehicle_cgw_fota.Store.FotaStateStore.{
  FotaStateStore, sequence_key, store_save, after, catching,
}
use iov_vehicle_cgw_fota.Store.FotaStateStore.Sequence.{
  read_sequence, save_sequence, write_sequence, allocate_from, allocate_snapshot_seq, load_failed,
}

-- The JSON library writes the three members of a sequence state into less than 4 GiB.
abbrev pub HasShortSequences : JsonLib → Type 0
HasShortSequences lib =
    (now : ℤ) (s : SequenceState) (bytes : List ℕ)
    → encode_sequence lib now s ≡ ok bytes
    → length bytes < 4294967296

-- The highest number that was allocated, as it is stored: 0 without a stored state, none when what is
-- stored cannot be decoded.
abbrev pub highest : JsonLib → Option (List ℕ) → Option ℕ
highest lib none = some 0
highest lib (some bytes) = elim (decode_sequence lib bytes) [
  | ok s ↦ some s.highest_allocated
  | thrown _ ↦ none
]

-- A counter of 64 bits that is never given out twice: an allocation gives the next number and keeps it,
-- or it fails, and then the next number may be lost. A damaged counter gives no number.
abbrev pub Counts : Option ℕ → Result ℕ → Option ℕ → Type 0
Counts (some m) (ok n) o = (n ≡ m + 1) × (n ≤ u64_max) × (o ≡ some n)
Counts (some m) (thrown _) o = (o ≡ some m) ⊎ (o ≡ some (m + 1))
Counts none (ok n) o = ⊥
Counts none (thrown _) o = o ≡ none

Counts-thrown : (o : Option ℕ) (e : Exception) → Counts o (thrown e) o
Counts-thrown none e = refl
Counts-thrown (some m) e = inl refl

-- What a write of `next` over `o` has done.
abbrev Written : ℕ → Option ℕ → Result (Unit {0}) → Option ℕ → Type 0
Written next o (ok _) o' = o' ≡ some next
Written next o (thrown _) o' = (o' ≡ o) ⊎ (o' ≡ some next)

module _ (fw : FrameworkStore) (lib : JsonLib) where
  -- The stored number of a device.
  abbrev pub stored_highest : FotaStateStore fw → Option ℕ
  stored_highest s = highest lib (fw.contents s.store sequence_key)

  -- A state that was read has the stored number, and reading changes nothing.
  abbrev Read : Option ℕ → Result SequenceState → Type 0
  Read o (ok cur) = o ≡ some cur.highest_allocated
  Read o (thrown _) = Unit

  read_sequence-Read : (s : FotaStateStore fw) → Read (stored_highest s) (read_sequence fw lib s).0
  unfolding read_sequence
  read_sequence-Read s = ground (
    arith,
    fw.has_answer sequence_key s.store,
    fw.load_answer sequence_key (fw.has sequence_key s.store).1,
    fw.contents-has sequence_key sequence_key s.store,
  )

  stored-read_sequence :
      (s : FotaStateStore fw) → stored_highest (read_sequence fw lib s).1 ≡ stored_highest s
  unfolding read_sequence
  stored-read_sequence s = ground (
    arith,
    fw.contents-has sequence_key sequence_key s.store,
    fw.contents-load sequence_key sequence_key (fw.has sequence_key s.store).1,
  )

  -- A save of an encoded state that holds `next`.
  save_step :
      (next : ℕ) (bytes : List ℕ) (s : FotaStateStore fw)
      → highest lib (some bytes) ≡ some next
      → Written next
          (stored_highest s)
          (store_save fw sequence_key bytes s).0
          (stored_highest (store_save fw sequence_key bytes s).1)
  save_step next bytes s h =
      ground (
        arith,
        fw.save_durable sequence_key bytes s.store,
        fw.save_atomic sequence_key bytes s.store,
      )

  save_encoded :
      (next : ℕ) (r : Result (List ℕ)) (s : FotaStateStore fw)
      → OnReturn (λ bytes. highest lib (some bytes) ≡ some next) r
      → Written next
          (stored_highest s)
          (after (r, s) (λ bytes. store_save fw sequence_key bytes)).0
          (stored_highest (after (r, s) (λ bytes. store_save fw sequence_key bytes)).1)
  save_encoded next (ok bytes) s h = save_step next bytes s h
  save_encoded next (thrown e) s h = inl refl

  module _ (short : HasShortSequences lib) where
    highest-encoded :
        (now : ℤ) (st : SequenceState) (r : Result (List ℕ))
        → st.schema_version ≡ 1
        → st.highest_allocated ≤ u64_max
        → encode_sequence lib now st ≡ r
        → OnReturn (λ bytes. highest lib (some bytes) ≡ some st.highest_allocated) r
    highest-encoded now st (ok bytes) v fits e =
        let d : decode_sequence lib bytes ≡ ok st =
          decode-encode_sequence lib now st bytes v (omega arith) e (short now st bytes e) in
        ground (arith, d)
    highest-encoded now st (thrown x) v fits e = tt

    save_sequence-Written :
        (next : ℕ) (t : ℤ) (s : FotaStateStore fw)
        → next ≤ u64_max
        → Written next
            (stored_highest s)
            (save_sequence fw lib next t s).0
            (stored_highest (save_sequence fw lib next t s).1)
    unfolding save_sequence
    save_sequence-Written next t s fits =
        let w : fw.World = (fw.now_ms s.store).1 in
        let now : ℤ = (fw.now_ms s.store).0 in
        let st : SequenceState = record {
          schema_version = 1;
          highest_allocated = next;
          updated_at = t;
        } in
        let same : stored_highest (record s { store = w }) ≡ stored_highest s =
          ap (highest lib) (fw.contents-now_ms sequence_key s.store) in
        subst
          (λ o.
            Written next o (save_sequence fw lib next t s).0
              (stored_highest (save_sequence fw lib next t s).1))
          same
          (save_encoded next (encode_sequence lib now st) (record s { store = w })
            (highest-encoded now st (encode_sequence lib now st) refl fits refl))

    write_sequence-Written :
        (next : ℕ) (s : FotaStateStore fw)
        → next ≤ u64_max
        → Written next
            (stored_highest s)
            (write_sequence fw lib next s).0
            (stored_highest (write_sequence fw lib next s).1)
    unfolding write_sequence
    write_sequence-Written next s fits = ground (
      arith,
      fw.contents-now_ms sequence_key s.store,
      save_sequence-Written next (fw.now_ms s.store).0 (record s { store = (fw.now_ms s.store).1 })
          fits,
    )

    allocate_from-Counts :
        (cur : SequenceState) (s : FotaStateStore fw)
        → stored_highest s ≡ some cur.highest_allocated
        → Counts
            (some cur.highest_allocated)
            (allocate_from fw lib cur s).0
            (stored_highest (allocate_from fw lib cur s).1)
    unfolding allocate_from
    allocate_from-Counts cur s h =
        ground (arith, write_sequence-Written (cur.highest_allocated + 1) s)

    catching-Counts :
        (r : Result SequenceState) (s : FotaStateStore fw)
        → Read (stored_highest s) r
        → Counts
            (stored_highest s)
            (after (catching (λ _. (r, s)) (load_failed fw lib) s) (allocate_from fw lib)).0
            (stored_highest
              (after (catching (λ _. (r, s)) (load_failed fw lib) s) (allocate_from fw lib)).1)
    catching-Counts (ok cur) s h =
        subst
          (λ o.
            Counts o (allocate_from fw lib cur s).0 (stored_highest (allocate_from fw lib cur s).1))
          (sym h) (allocate_from-Counts cur s h)
    catching-Counts (thrown (store_exception x)) s h = Counts-thrown (stored_highest s) _
    catching-Counts (thrown (state_decode_error x)) s h = Counts-thrown (stored_highest s) _
    catching-Counts (thrown (json_exception x)) s h = Counts-thrown (stored_highest s) _
    catching-Counts (thrown (seq_alloc_blocked x y)) s h = Counts-thrown (stored_highest s) _
    catching-Counts (thrown (config_exception x)) s h = Counts-thrown (stored_highest s) _
    catching-Counts (thrown (fota_config_exception x)) s h = Counts-thrown (stored_highest s) _
    catching-Counts (thrown (canonical_error x y)) s h = Counts-thrown (stored_highest s) _
    catching-Counts (thrown (hash_exception x)) s h = Counts-thrown (stored_highest s) _

    -- With a JSON library whose texts for a sequence state are short, every call of
    -- `allocateSnapshotSeq` is a step of the counter, whichever calls of the framework's store fail: a
    -- number that is returned is one above the stored number, is at most 2^64 - 1 and is stored.
    pub allocate_snapshot_seq-Counts :
        (s : FotaStateStore fw)
        → Counts
            (stored_highest s)
            (allocate_snapshot_seq fw lib s).0
            (stored_highest (allocate_snapshot_seq fw lib s).1)
    unfolding allocate_snapshot_seq
    allocate_snapshot_seq-Counts s =
        let s1 : FotaStateStore fw = (read_sequence fw lib s).1 in
        let same : stored_highest s1 ≡ stored_highest s = stored-read_sequence s in
        let read : Read (stored_highest s1) (read_sequence fw lib s).0 =
          subst (λ o. Read o (read_sequence fw lib s).0) (sym same) (read_sequence-Read s) in
        ground (
          arith,
          catching-Counts (read_sequence fw lib s).0 s1 read,
          Counts-thrown (stored_highest s) (seq_alloc_blocked "sequence blocked" "STATE_BLOCKED"),
          same,
        )
