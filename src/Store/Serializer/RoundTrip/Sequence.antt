-- ===== src/Store/Serializer/RoundTrip/Sequence.antt =====
-- The sequence number: what `encodeSequence` writes, `decodeSequence` reads back.
use iov_vehicle_cgw_fota.Prelude.{ℕ, ◌≡◌, ◌<◌, refl, sym, ap, List, length, arith}
use iov_vehicle_cgw_fota.Prelude.Int.{ℤ}
use iov_vehicle_cgw_fota.Prelude.Result.{ok}
use iov_vehicle_cgw_fota.Store.FotaState.{SequenceState}
use iov_vehicle_cgw_fota.Store.Serializer.Json.{JsonLib}
use iov_vehicle_cgw_fota.Store.Serializer.Sequence.{sequence_json, encode_sequence, decode_sequence}
use iov_vehicle_cgw_fota.Store.Serializer.RoundTrip.{decode_enveloped}

-- A sequence state of the current version with a uint64_t number that was encoded into less than
-- 4 GiB is decoded as it was, if the JSON library behaves as documented.
pub decode-encode_sequence :
    (lib : JsonLib) (now : ℤ) (s : SequenceState) (bytes : List ℕ)
    → s.schema_version ≡ 1
    → s.highest_allocated < 18446744073709551616
    → encode_sequence lib now s ≡ ok bytes
    → length bytes < 4294967296
    → decode_sequence lib bytes ≡ ok s
unfolding encode_sequence decode_sequence sequence_json
decode-encode_sequence lib now s bytes v fits he hl =
    decode_enveloped lib "sequence" 1 _ _ now (sequence_json lib s) bytes s (omega arith)
      (rw (sym v) he) hl (rw (lib.find_value-object, v) refl)
      (simp
        (
          lib.find_value-object,
          lib.member-object,
          lib.get_i64-signed,
          lib.get_u64-unsigned s.highest_allocated fits,
        )
        (ap (λ n. ok (record s { schema_version = n })) (sym v)))
