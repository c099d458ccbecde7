-- ===== src/Store/CloudSerializer/Hex.antt =====
-- The hexadecimal form of serialized messages: `protoBinaryToHex`, `hexToProtoBinary`
-- (src/store/fota_cloud_state_serializer.cpp).
use iov_vehicle_cgw_fota.Prelude.{ℕ, ◌≡◌, String, false, List, ◌∷◌, Option, none, some, str_eq}
use iov_vehicle_cgw_fota.Prelude.Text.{join, to_string}
use iov_vehicle_cgw_fota.Prelude.Result.{Result, ok, thrown, state_decode_error}

-- `hexToBytes` returns bytes or throws a `HexException` with its code and position.
pub data HexReply : Type 0 where
  bytes : List ℕ → HexReply
  refused : String → Option ℕ → HexReply

-- The framework's conversions (cgw-framework-hash), as a parameter.
pub record HexLib : Type 0 where
  pub bytes_to_hex : List ℕ → String
  pub hex_to_bytes : String → HexReply
  pub hex_to_bytes-bytes_to_hex : (b : List ℕ) → hex_to_bytes (bytes_to_hex b) ≡ bytes b
  pub bytes_to_hex-cons : (x : ℕ) (xs : List ℕ) → str_eq (bytes_to_hex (x ∷ xs)) "" ≡ false

module _ (hex : HexLib) where
  abbrev pub proto_binary_to_hex : List ℕ → String
  proto_binary_to_hex binary = hex.bytes_to_hex binary

  abbrev pub hex_to_proto_binary : String → Result (List ℕ)
  hex_to_proto_binary text = elim (hex.hex_to_bytes text) [
    | bytes binary ↦ ok binary
    | refused code position ↦ elim position [
      | none ↦ thrown (state_decode_error (join "proto hex decode failed: " code))
      | some p ↦ thrown (
          state_decode_error
            (join (join (join "proto hex decode failed: " code) " at index ") (to_string p)))
    ]
  ]
