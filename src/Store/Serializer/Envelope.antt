-- ===== src/Store/Serializer/Envelope.antt =====
-- The envelope around a stored state: `encodeEnvelope`, `parseEnvelopeHeader` and `extractPayload` of
-- src/store/fota_state_serializer.cpp. A byte is a number below 256; the header has 28 bytes.
use iov_vehicle_cgw_fota.Prelude.{
  ℕ, zero, suc, ◌+◌, ◌-◌, ◌*◌, ◌/◌, ◌%◌, ◌<◌, ◌≡◌, refl, Bool, not, ◌&&◌, List, [], ◌∷◌, ◌++◌,
  length, get_elem?, get_or, ltb, ◌==◌, u32, arith, if◌then◌else◌,
}
use iov_vehicle_cgw_fota.Prelude.Int.{ℤ, pos, negsuc, to_u64}
use iov_vehicle_cgw_fota.Prelude.Text.{join, to_string}
use iov_vehicle_cgw_fota.Prelude.Result.{Result, ok, thrown, state_decode_error}

-- `schema::WRITER_VERSION` and `schema::MIN_READER_VERSION`
abbrev pub writer_version : ℕ
writer_version = 2

abbrev pub min_reader_version : ℕ
min_reader_version = 0

-- `envelope::HEADER_SIZE`
abbrev pub header_size : ℕ
header_size = 28

-- `envelope::MAGIC`: "FTSE"
abbrev pub magic : List ℕ
magic = 70 ∷ 84 ∷ 83 ∷ 69 ∷ []

-- `static_cast<std::int64_t>`
abbrev pub to_i64 : ℕ → ℤ
to_i64 u = if ltb u 9223372036854775808 then pos u else negsuc (18446744073709551615 - u)

abbrev pub put_u32_le : ℕ → List ℕ
put_u32_le v = v % 256 ∷ v / 256 % 256 ∷ v / 65536 % 256 ∷ v / 16777216 % 256 ∷ []

abbrev pub put_u64_le : ℤ → List ℕ
put_u64_le v = put_u32_le (to_u64 v % 4294967296) ++ put_u32_le (to_u64 v / 4294967296)

-- `b[off]`
abbrev pub byte_at : List ℕ → ℕ → ℕ
byte_at b off = get_or (get_elem? b off) 0

abbrev pub get_u32_le : List ℕ → ℕ → ℕ
get_u32_le b off =
    byte_at b off
    + byte_at b (off + 1) * 256
    + byte_at b (off + 2) * 65536
    + byte_at b (off + 3) * 16777216

abbrev pub get_u64_le : List ℕ → ℕ → ℤ
get_u64_le b off = to_i64 (get_u32_le b off + get_u32_le b (off + 4) * 4294967296)

pub record EnvelopeHeader : Type 0 where
  pub schema_version : ℕ
  pub writer_version : ℕ
  pub min_reader_version : ℕ
  pub written_at : ℤ
  pub payload_len : ℕ

-- `now` is the clock's answer.
unfoldable pub encode_envelope : ℤ → ℕ → List ℕ → List ℕ
encode_envelope now schema_version payload =
    magic
    ++ (put_u32_le schema_version
        ++ (put_u32_le writer_version
            ++ (put_u32_le min_reader_version
                ++ (put_u64_le now ++ (put_u32_le (u32 (length payload)) ++ payload)))))

-- `std::memcmp(bytes.data(), envelope::MAGIC, 4) != 0`
abbrev pub bad_magic : List ℕ → Bool
bad_magic b = not (byte_at b 0 == 70 && byte_at b 1 == 84 && byte_at b 2 == 83 && byte_at b 3 == 69)

-- The fields at their offsets.
abbrev pub header_of : List ℕ → EnvelopeHeader
header_of b = record {
  schema_version = get_u32_le b 4;
  writer_version = get_u32_le b 8;
  min_reader_version = get_u32_le b 12;
  written_at = get_u64_le b 16;
  payload_len = get_u32_le b 24;
}

unfoldable pub parse_envelope_header : List ℕ → Result EnvelopeHeader
parse_envelope_header b =
    if ltb (length b) header_size
    then thrown (state_decode_error (join "envelope truncated: size=" (to_string (length b))))
    else if bad_magic b
    then thrown (state_decode_error "envelope bad magic")
    else if not (length b == header_size + (header_of b).payload_len)
    then thrown (
        state_decode_error (
          join
            (join (join "envelope length mismatch: declared=" (to_string (header_of b).payload_len))
              " actual=")
            (to_string (length b - header_size))))
    else if ltb writer_version (header_of b).min_reader_version
    then thrown (
        state_decode_error (
          join "envelope minReaderVersion too high: " (to_string (header_of b).min_reader_version)))
    else ok (header_of b)

-- `bytes.substr(from, count)`
abbrev pub drop {ℓ} : {A : Type ℓ} → ℕ → List A → List A
drop zero xs = xs
drop (suc n) [] = []
drop (suc n) (x ∷ xs) = drop n xs

abbrev pub take {ℓ} : {A : Type ℓ} → ℕ → List A → List A
take zero xs = []
take (suc n) [] = []
take (suc n) (x ∷ xs) = x ∷ take n xs

unfoldable pub extract_payload : List ℕ → EnvelopeHeader → List ℕ
extract_payload b h = take h.payload_len (drop header_size b)

take-length {ℓ} : {A : Type ℓ} (xs : List A) → take (length xs) xs ≡ xs
take-length [] = refl
take-length (x ∷ xs) = rw (take-length xs)

-- The header that the writer puts before a payload.
abbrev pub written_header : ℤ → ℕ → List ℕ → EnvelopeHeader
written_header now schema_version payload = record {
  schema_version = schema_version;
  writer_version = 2;
  min_reader_version = 0;
  written_at = to_i64 (to_u64 now);
  payload_len = length payload;
}

-- For a schema version and a payload length of 32 bits, the header of an encoded envelope is read
-- back, and the extracted payload is the payload that was encoded.
pub parse-encode_envelope :
    (now : ℤ) (schema_version : ℕ) (payload : List ℕ)
    → schema_version < 4294967296
    → length payload < 4294967296
    → (parse_envelope_header (encode_envelope now schema_version payload)
        ≡ ok (written_header now schema_version payload))
      × (extract_payload
            (encode_envelope now schema_version payload)
            (written_header now schema_version payload)
          ≡ payload)
unfolding parse_envelope_header encode_envelope extract_payload
parse-encode_envelope now v payload hv hl = (ground arith, take-length payload)
