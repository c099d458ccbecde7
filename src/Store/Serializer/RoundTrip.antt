-- ===== src/Store/Serializer/RoundTrip.antt =====
-- An encoded report state is decoded as it was (src/store/fota_state_serializer.cpp): what the four
-- states share.
pub mod ActiveJob
pub mod Sequence
pub mod LastSuccess
pub mod Dedupe
pub mod Members
pub mod Snapshot
use iov_vehicle_cgw_fota.Prelude.{
  ℕ, ◌≡◌, ◌<◌, ◌+◌, ◌-◌, zero, refl, sym, ap, ◌∙◌, String, Bool, true, false, List, length,
  length-append, some, ltb, ◌==◌, arith,
}
use iov_vehicle_cgw_fota.Prelude.Int.{ℤ}
use iov_vehicle_cgw_fota.Prelude.Result.{Result, ok, ◌>>=◌, >>=-returned}
use iov_vehicle_cgw_fota.Store.Serializer.Json.{JsonLib}
use iov_vehicle_cgw_fota.Store.Serializer.Envelope.{
  encode_envelope, parse_envelope_header, extract_payload, written_header, parse-encode_envelope,
}
use iov_vehicle_cgw_fota.Store.FotaState.{PersistedFingerprints}
use iov_vehicle_cgw_fota.Store.Serializer.Values.{
  persisted_fingerprints_to_json, persisted_fingerprints_from_json,
}
use iov_vehicle_cgw_fota.Store.Serializer.Coding.{enveloped, decode_state}

pub length-encode_envelope :
    (now : ℤ) (version : ℕ) (text : List ℕ)
    → length (encode_envelope now version text) ≡ 28 + length text
unfolding encode_envelope
length-encode_envelope now version text = omega arith

module _ (lib : JsonLib) where
  open lib use {Json, unsigned, find_value, dump, parse}

  -- What an envelope of the current version holds is read by the state's own reader.
  pub decode_enveloped :
      {A : Type 0} (name : String) (version : ℕ) (migrate : List ℕ → ℕ → Result (List ℕ))
      (read : ℕ → Json → Result A) (now : ℤ) (j : Json) (bytes : List ℕ) (a : A)
      → version < 4294967296
      → enveloped lib now version j ≡ ok bytes
      → length bytes < 4294967296
      → find_value j "schemaVersion" ≡ ok (some (unsigned version))
      → read version j ≡ ok a
      → decode_state lib name version migrate read bytes ≡ ok a
  decode_enveloped name version migrate read now j bytes a hv he hl hf hr =
      let (text, ht, hb) = >>=-returned (dump j) _ he in
      let eb : encode_envelope now version text ≡ bytes = cc in
      let small : length text < 4294967296 =
        omega (arith, length-encode_envelope now version text, ap length eb) in
      let (hp, hx) = parse-encode_envelope now version text hv small in
      let pt : parse text ≡ ok j = lib.parse-dump j text ht in
      let diff : version - version ≡ 0 = omega arith in
      let irr : ltb version version ≡ false = ground arith in
      let same : (version == version) ≡ true = ground arith in
      rw (sym eb, hp, irr, diff, hx, pt, hf, lib.get_u32-unsigned version hv, same, hr) refl

  pub read_fingerprints :
      (fp : PersistedFingerprints)
      → persisted_fingerprints_from_json lib (persisted_fingerprints_to_json lib fp) ≡ ok fp
  unfolding persisted_fingerprints_from_json persisted_fingerprints_to_json
  read_fingerprints fp = simp (lib.find_value-object, lib.get_string-string)
