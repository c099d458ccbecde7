-- ===== src/Store/Serializer/Coding.antt =====
-- What the encoders, the migrations and the decoders of the report states share
-- (src/store/fota_state_serializer.cpp). `now` is the clock's answer.
use iov_vehicle_cgw_fota.Prelude.{
  ℕ, zero, suc, ◌+◌, ◌-◌, String, not, List, [], ◌∷◌, ltb, ◌==◌, if◌then◌else◌,
}
use iov_vehicle_cgw_fota.Prelude.Int.{ℤ}
use iov_vehicle_cgw_fota.Prelude.Text.{join, to_string}
use iov_vehicle_cgw_fota.Prelude.Result.{
  Result, ok, thrown, json_exception, state_decode_error, ◌>>=◌, ◌>>◌,
}
use iov_vehicle_cgw_fota.Store.Serializer.Json.{JsonLib}
use iov_vehicle_cgw_fota.Store.Serializer.Envelope.{
  encode_envelope, parse_envelope_header, extract_payload,
}
use iov_vehicle_cgw_fota.Store.Serializer.Values.{refuse_if, value_of}

-- `catch (const json::exception& e) { throw StateDecodeError(text + e.what()); }`
abbrev pub as_decode_error {ℓ} : {A : Type ℓ} → String → Result A → Result A
as_decode_error text (ok a) = ok a
as_decode_error text (thrown (json_exception what)) = thrown (state_decode_error (join text what))
as_decode_error text (thrown e) = thrown e

-- `while (v < current) { payload = migrate(payload, v); ++v; }`, with `n` rounds left
abbrev pub migrate_chain : (List ℕ → ℕ → Result (List ℕ)) → ℕ → ℕ → List ℕ → Result (List ℕ)
migrate_chain migrate zero v payload = ok payload
migrate_chain migrate (suc n) v payload = do
  payload' ← migrate payload v
  migrate_chain migrate n (v + 1) payload'

module _ (lib : JsonLib) where
  open lib use {
    Json, string, unsigned, signed, array, object, member, contains, set_member, erase, is_array,
    elements, get_u32, get_u64, get_i64, parse, dump,
  }

  -- `encodeEnvelope(version, j.dump())`
  abbrev pub enveloped : ℤ → ℕ → Json → Result (List ℕ)
  enveloped now version j = do text ← dump j; ok (encode_envelope now version text)

  -- `if (!j.contains(key)) j[key] = value`
  abbrev pub add_missing : String → Json → Json → Result Json
  add_missing k v j = if contains j k then ok j else set_member j k v

  -- What the four decoders share: the envelope, the chain of migrations and the schema version.
  abbrev pub decode_state {ℓ} :
      {A : Type ℓ}
      → String
      → ℕ
      → (List ℕ → ℕ → Result (List ℕ))
      → (ℕ → Json → Result A)
      → List ℕ
      → Result A
  decode_state name version migrate read bytes = do
    h ← parse_envelope_header bytes
    refuse_if (ltb version h.schema_version)
        (join (join name " unknown newer schemaVersion: ") (to_string h.schema_version))
    as_decode_error (join name " decode failed: ") (do
      payload ←
          migrate_chain migrate (version - h.schema_version) h.schema_version
            (extract_payload bytes h)
      j ← parse payload
      v ← value_of lib get_u32 j "schemaVersion" version
      refuse_if (not (v == version)) (join name " schemaVersion mismatch after migration")
      read v j)

  -- `json{{"algorithm", ""}, ...}`
  abbrev pub no_fingerprints : Json
  no_fingerprints = object (
      ("algorithm", string "")
      ∷ ("canonicalization", string "")
      ∷ ("versionFingerprintHex", string "")
      ∷ ("snapshotFingerprintHex", string "")
      ∷ ("dedupeKeyHex", string "")
      ∷ [])
