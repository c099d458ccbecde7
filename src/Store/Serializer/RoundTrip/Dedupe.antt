-- ===== src/Store/Serializer/RoundTrip/Dedupe.antt =====
-- The deduplication window: what `encodeDedupe` writes, `decodeDedupe` reads back.
use iov_vehicle_cgw_fota.Prelude.{
  ℕ, ◌≡◌, ◌<◌, refl, sym, ap, List, [], ◌∷◌, length, map, String, All, arith,
}
use iov_vehicle_cgw_fota.Prelude.Int.{ℤ}
use iov_vehicle_cgw_fota.Prelude.Result.{ok, traverse}
use iov_vehicle_cgw_fota.Store.FotaState.{DedupeEntry, DedupeState}
use iov_vehicle_cgw_fota.Store.Serializer.Json.{JsonLib}
use iov_vehicle_cgw_fota.Store.Serializer.Values.{
  validate_persisted_fingerprints, dedupe_entry_to_json, dedupe_entry_from_json,
}
use mathlib.Core.Path.{subst}
use iov_vehicle_cgw_fota.Store.Serializer.Coding.{enveloped}
use iov_vehicle_cgw_fota.Store.Serializer.Dedupe.{dedupe_json, encode_dedupe, decode_dedupe}
use iov_vehicle_cgw_fota.Store.Serializer.RoundTrip.{decode_enveloped, read_fingerprints}
use iov_vehicle_cgw_fota.Store.Serializer.RoundTrip.Members.{push_members_lem}

-- The number fits into its type and the validation accepts the fingerprints.
pub record IsStorableEntry (e : DedupeEntry) : Type 0 where
  pub seq_fits : e.snapshot_seq < 18446744073709551616
  pub fingerprints_valid : validate_persisted_fingerprints e.fingerprints "dedupe entry" ≡ ok tt

pub record IsStorable (s : DedupeState) : Type 0 where
  pub version : s.schema_version ≡ 2
  pub max_fits : s.max_entries < 4294967296
  pub entries_storable : All IsStorableEntry s.entries

read_entry :
    (lib : JsonLib) (e : DedupeEntry)
    → IsStorableEntry e
    → dedupe_entry_from_json lib (dedupe_entry_to_json lib e) ≡ ok e
unfolding dedupe_entry_from_json dedupe_entry_to_json
read_entry lib e v = simp (
  lib.find_value-object,
  lib.member-object,
  lib.get_string-string,
  lib.get_i64-signed,
  lib.get_u64-unsigned e.snapshot_seq v.seq_fits,
  read_fingerprints lib,
  v.fingerprints_valid,
)

read_entries :
    (lib : JsonLib) (es : List DedupeEntry)
    → All IsStorableEntry es
    → traverse (dedupe_entry_from_json lib) (map (dedupe_entry_to_json lib) es) ≡ ok es
read_entries lib [] v = refl
read_entries lib (e ∷ es) v = rw (read_entry lib e v.0, read_entries lib es v.1) refl

-- The members before the entries are pushed.
abbrev start_members : (lib : JsonLib) → DedupeState → List (String × lib.Json)
start_members lib s =
    ("schemaVersion", lib.unsigned s.schema_version)
    ∷ ("entries", lib.array [])
    ∷ ("maxEntries", lib.unsigned s.max_entries)
    ∷ ("ttlMs", lib.signed s.ttl_ms)
    ∷ []

-- A window of the current version whose entries have numbers that fit and fingerprints that the
-- validation accepts, and that was encoded into less than 4 GiB, is decoded as it was, its entries in
-- order, if the JSON library behaves as documented.
pub decode-encode_dedupe :
    (lib : JsonLib) (now : ℤ) (s : DedupeState) (bytes : List ℕ)
    → IsStorable s
    → encode_dedupe lib now s ≡ ok bytes
    → length bytes < 4294967296
    → decode_dedupe lib bytes ≡ ok s
unfolding encode_dedupe decode_dedupe dedupe_json
decode-encode_dedupe lib now s bytes v he hl =
    let (fs, p) =
      push_members_lem lib "entries" (map (dedupe_entry_to_json lib) s.entries) []
        (start_members lib s) refl in
    decode_enveloped lib "dedupe" 2 _ _ now (lib.object fs) bytes s (omega arith)
      (subst (λ n. enveloped lib now n (lib.object fs) ≡ ok bytes) v.version (rw p.pushed at he)) hl
      (rw (lib.find_value-object, p.others "schemaVersion" refl, v.version) refl)
      (simp
        (
          lib.find_value-object,
          lib.member-object,
          p.here,
          p.others "maxEntries" refl,
          p.others "ttlMs" refl,
          lib.elements-array,
          read_entries lib s.entries v.entries_storable,
          lib.get_u32-unsigned s.max_entries v.max_fits,
          lib.get_i64-signed,
        )
        (ap (λ n. ok (record s { schema_version = n })) (sym v.version)))
