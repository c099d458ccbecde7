-- ===== src/Store/Serializer/Values.antt =====
-- The conversions between the members of the report states and JSON
-- (src/store/fota_state_serializer.cpp): the fingerprints and the entries of the
-- deduplication window, and the helpers that all the conversions share.
use Prim.Native.String.{len, [] as empty, ◌∷◌ as then_char}
use Prim.Native.Char.{code}
use iov_vehicle_cgw_fota.Prelude.{
  ℕ, String, Bool, true, not, ◌&&◌, ◌||◌, List, [], ◌∷◌, Option, none, some, leb, ◌==◌, str_eq,
  if◌then◌else◌,
}
use iov_vehicle_cgw_fota.Prelude.Int.{ℤ}
use iov_vehicle_cgw_fota.Prelude.Text.{join}
use iov_vehicle_cgw_fota.Prelude.Result.{
  Result, ok, thrown, state_decode_error, ◌>>=◌, ◌>>◌, of_option,
}
use iov_vehicle_cgw_fota.Store.FotaState.{PersistedFingerprints, DedupeEntry}
use iov_vehicle_cgw_fota.Store.Serializer.Json.{JsonLib}

all_hex : String → Bool
all_hex empty = true
all_hex (then_char c s) =
    (leb 48 (code c) && leb (code c) 57 || leb 97 (code c) && leb (code c) 102) && all_hex s

-- `size()` counts bytes.
unfoldable pub is_valid_hex64 : String → Bool
unfolding all_hex
is_valid_hex64 h = len h == 64 && all_hex h

abbrev pub is_empty : String → Bool
is_empty s = str_eq s ""

-- `throw StateDecodeError(text)` under a condition
abbrev pub refuse_if : Bool → String → Result (Unit {0})
refuse_if b text = if b then thrown (state_decode_error text) else ok tt

unfoldable pub validate_persisted_fingerprints : PersistedFingerprints → String → Result (Unit {0})
validate_persisted_fingerprints fp stage =
    let any_hex =
      not (is_empty fp.version_fingerprint_hex)
      || not (is_empty fp.snapshot_fingerprint_hex)
      || not (is_empty fp.dedupe_key_hex) in
    refuse_if (any_hex && not (str_eq fp.algorithm "sha-256"))
      (join (join stage " bad fingerprint algorithm: ") fp.algorithm)
    >> refuse_if (any_hex && not (str_eq fp.canonicalization "cgw-fota-snapshot-v1"))
        (join (join stage " bad fingerprint canonicalization: ") fp.canonicalization)
    >> refuse_if
        (not (is_empty fp.version_fingerprint_hex)
          && not (is_valid_hex64 fp.version_fingerprint_hex))
        (join stage " bad versionFingerprintHex")
    >> refuse_if
        (not (is_empty fp.snapshot_fingerprint_hex)
          && not (is_valid_hex64 fp.snapshot_fingerprint_hex))
        (join stage " bad snapshotFingerprintHex")
    >> refuse_if (not (is_empty fp.dedupe_key_hex) && not (is_valid_hex64 fp.dedupe_key_hex))
        (join stage " bad dedupeKeyHex")

module _ (lib : JsonLib) where
  open lib use {
    Json, string, unsigned, signed, array, object, member, contains, find_value, set_member,
    push_back, elements, get_string, get_u64, get_i64,
  }

  -- `j.at(key).get<T>()`
  abbrev pub string_at : Json → String → Result String
  string_at j k = member j k >>= get_string

  abbrev pub u64_at : Json → String → Result ℕ
  u64_at j k = member j k >>= get_u64

  abbrev pub i64_at : Json → String → Result ℤ
  i64_at j k = member j k >>= get_i64

  -- `j.value(key, default)` of a type that `get` reads
  abbrev pub value_of {ℓ} : {A : Type ℓ} → (Json → Result A) → Json → String → A → Result A
  value_of get j k d = find_value j k >>= λ o. elim o [ none ↦ ok d | some v ↦ get v ]

  -- `if (o) j[key] = *o`
  abbrev pub set_optional : String → Option String → Json → Result Json
  set_optional k none j = ok j
  set_optional k (some s) j = set_member j k (string s)

  -- `if (j.contains(key)) o = j[key].get<std::string>()`
  unfoldable pub optional_at : Json → String → Result (Option String)
  optional_at j k = if contains j k then (string_at j k >>= λ s. ok (some s)) else ok none

  -- `j[key].push_back(x)` for each of the values
  abbrev pub push_members : String → List Json → Json → Result Json
  push_members k [] j = ok j
  push_members k (x ∷ xs) j = do
    a ← member j k
    a' ← push_back a x
    j' ← set_member j k a'
    push_members k xs j'

  -- A text that has to name a value.
  abbrev pub named_at {ℓ} : {A : Type ℓ} → (String → Option A) → String → Json → String → Result A
  named_at read error j k = do
    s ← string_at j k
    of_option (state_decode_error (join error s)) (read s)

  unfoldable pub persisted_fingerprints_to_json : PersistedFingerprints → Json
  persisted_fingerprints_to_json fp = object (
      ("algorithm", string fp.algorithm)
      ∷ ("canonicalization", string fp.canonicalization)
      ∷ ("versionFingerprintHex", string fp.version_fingerprint_hex)
      ∷ ("snapshotFingerprintHex", string fp.snapshot_fingerprint_hex)
      ∷ ("dedupeKeyHex", string fp.dedupe_key_hex)
      ∷ [])

  unfoldable pub persisted_fingerprints_from_json : Json → Result PersistedFingerprints
  persisted_fingerprints_from_json j = do
    algorithm ← value_of get_string j "algorithm" ""
    canonicalization ← value_of get_string j "canonicalization" ""
    version_fingerprint_hex ← value_of get_string j "versionFingerprintHex" ""
    snapshot_fingerprint_hex ← value_of get_string j "snapshotFingerprintHex" ""
    dedupe_key_hex ← value_of get_string j "dedupeKeyHex" ""
    ok (record {
      algorithm = algorithm;
      canonicalization = canonicalization;
      version_fingerprint_hex = version_fingerprint_hex;
      snapshot_fingerprint_hex = snapshot_fingerprint_hex;
      dedupe_key_hex = dedupe_key_hex;
    })

  -- `persistedFingerprintsFromJson(j.value("fingerprints", json::object()))` and its validation
  abbrev pub fingerprints_at : Json → String → Result PersistedFingerprints
  fingerprints_at j stage = do
    f ← value_of ok j "fingerprints" (object [])
    fp ← persisted_fingerprints_from_json f
    validate_persisted_fingerprints fp stage
    ok fp

  unfoldable pub dedupe_entry_to_json : DedupeEntry → Json
  dedupe_entry_to_json e = object (
      ("requestId", string e.request_id)
      ∷ ("reportId", string e.report_id)
      ∷ ("snapshotSeq", unsigned e.snapshot_seq)
      ∷ ("fingerprints", persisted_fingerprints_to_json e.fingerprints)
      ∷ ("overallResult", string e.overall_result)
      ∷ ("completedAt", signed e.completed_at)
      ∷ ("expiresAt", signed e.expires_at)
      ∷ [])

  unfoldable pub dedupe_entry_from_json : Json → Result DedupeEntry
  dedupe_entry_from_json j = do
    request_id ← string_at j "requestId"
    report_id ← string_at j "reportId"
    snapshot_seq ← u64_at j "snapshotSeq"
    fingerprints ← fingerprints_at j "dedupe entry"
    overall_result ← string_at j "overallResult"
    completed_at ← i64_at j "completedAt"
    expires_at ← i64_at j "expiresAt"
    ok (record {
      request_id = request_id;
      report_id = report_id;
      snapshot_seq = snapshot_seq;
      fingerprints = fingerprints;
      overall_result = overall_result;
      completed_at = completed_at;
      expires_at = expires_at;
    })
