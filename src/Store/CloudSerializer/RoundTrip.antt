-- ===== src/Store/CloudSerializer/RoundTrip.antt =====
-- An encoded vehicle-cloud record is decoded as it was
-- (src/store/fota_cloud_state_serializer.cpp): the envelope that the records share.
pub mod Tasks
pub mod Installation
pub mod Reports
use iov_vehicle_cgw_fota.Prelude.{
  ℕ, ◌≡◌, ◌<◌, ◌+◌, refl, sym, ap, String, false, List, length, ltb, arith,
}
use iov_vehicle_cgw_fota.Prelude.Int.{ℤ}
use iov_vehicle_cgw_fota.Prelude.Result.{Result, ok, ◌>>=◌, >>=-returned}
use iov_vehicle_cgw_fota.Store.Serializer.Json.{JsonLib}
use iov_vehicle_cgw_fota.Store.Serializer.Envelope.{encode_envelope, parse-encode_envelope}
use iov_vehicle_cgw_fota.Store.Serializer.Coding.{enveloped}
use iov_vehicle_cgw_fota.Store.Serializer.RoundTrip.{length-encode_envelope}
use iov_vehicle_cgw_fota.Store.CloudSerializer.{decode_envelope_json}

module _ (lib : JsonLib) where
  open lib use {Json, dump, parse}

  pub read_enveloped :
      (tag : String) (version : ℕ) (now : ℤ) (j : Json) (bytes : List ℕ)
      → version < 4294967296
      → enveloped lib now version j ≡ ok bytes
      → length bytes < 4294967296
      → decode_envelope_json lib bytes version tag ≡ ok j
  unfolding decode_envelope_json
  read_enveloped tag version now j bytes hv he hl =
      let (text, ht, hb) = >>=-returned (dump j) _ he in
      let eb : encode_envelope now version text ≡ bytes = cc in
      let small : length text < 4294967296 =
        omega (arith, length-encode_envelope now version text, ap length eb) in
      let (hp, hx) = parse-encode_envelope now version text hv small in
      let pt : parse text ≡ ok j = lib.parse-dump j text ht in
      let irr : ltb version version ≡ false = ground arith in rw (sym eb, hp, irr, hx, pt) refl
