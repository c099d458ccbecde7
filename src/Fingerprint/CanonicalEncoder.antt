-- ===== src/Fingerprint/CanonicalEncoder.antt =====
-- The canonical encoder (src/fingerprint/canonical_encoder.cpp and
-- include/cgw/fota/fingerprint/canonical_encoder.hpp). A byte is a number below 256; a string is its
-- bytes. Casts to uint32_t and uint16_t are written out.
pub mod Layout
use iov_vehicle_cgw_fota.Prelude.{
  ℕ, zero, suc, ◌+◌, ◌%◌, ◌/◌, List, [], ◌∷◌, ◌++◌, Option, none, some, length, u32,
}

-- The members of `CanonicalEncoder`.
pub record Encoder : Type 0 where
  pub buf : List ℕ
  pub field_count_pos : ℕ
  pub field_count : ℕ

-- `FieldState`, as the byte that stands for it.
pub data FieldState : Type 0 where
  missing null present : FieldState

abbrev pub state_byte : FieldState → ℕ
state_byte missing = 0
state_byte null = 1
state_byte present = 2

abbrev pub u16_be : ℕ → List ℕ
u16_be v = v / 256 % 256 ∷ v % 256 ∷ []

abbrev pub u32_be : ℕ → List ℕ
u32_be v = v / 16777216 % 256 ∷ v / 65536 % 256 ∷ v / 256 % 256 ∷ v % 256 ∷ []

abbrev pub put_bytes : List ℕ → Encoder → Encoder
put_bytes bytes enc = record enc { buf = enc.buf ++ bytes }

abbrev pub put_u8 : ℕ → Encoder → Encoder
put_u8 v enc = put_bytes (v ∷ []) enc

abbrev pub put_u16_be : ℕ → Encoder → Encoder
put_u16_be v enc = put_bytes (u16_be v) enc

abbrev pub put_u32_be : ℕ → Encoder → Encoder
put_u32_be v enc = put_bytes (u32_be v) enc

abbrev pub put_string : List ℕ → Encoder → Encoder
put_string s enc = put_bytes s enc

abbrev pub put_field_header : ℕ → FieldState → ℕ → Encoder → Encoder
put_field_header id state len enc = put_u32_be len (put_u8 (state_byte state) (put_u16_be id enc))

-- `++fieldCount_`
abbrev pub counted : Encoder → Encoder
counted enc = record enc { field_count = u32 (enc.field_count + 1) }

-- The constructor.
unfoldable pub create : List ℕ → Encoder
create domain =
    let start : Encoder = record { buf = []; field_count_pos = 0; field_count = 0 } in
    let enc = put_string domain (put_u32_be (u32 (length domain)) start) in
    put_u32_be 0 (record enc { field_count_pos = length enc.buf })

unfoldable pub write_string_field : ℕ → List ℕ → Encoder → Encoder
write_string_field id value enc =
    counted (put_string value (put_field_header id present (u32 (length value)) enc))

unfoldable pub write_optional_string_field : ℕ → Option (List ℕ) → Encoder → Encoder
write_optional_string_field id none enc = counted (put_field_header id missing 0 enc)
write_optional_string_field id (some value) enc =
    counted (put_string value (put_field_header id present (u32 (length value)) enc))

unfoldable pub write_enum_field : ℕ → ℕ → Encoder → Encoder
write_enum_field id code enc = counted (put_u32_be code (put_field_header id present 4 enc))

unfoldable pub write_bytes_field : ℕ → List ℕ → Encoder → Encoder
write_bytes_field id bytes enc =
    counted (put_bytes bytes (put_field_header id present (u32 (length bytes)) enc))

-- `for (item : itemBytes) totalLen += item.size()`
unfoldable pub total_length : List (List ℕ) → ℕ → ℕ
total_length [] total = total
total_length (item ∷ items) total = total_length items (u32 (total + length item))

unfoldable pub put_items : List (List ℕ) → Encoder → Encoder
put_items [] enc = enc
put_items (item ∷ items) enc = put_items items (put_bytes item enc)

unfoldable pub write_list_field : ℕ → List (List ℕ) → Encoder → Encoder
write_list_field id items enc =
    let header = put_field_header id present (total_length items 4) enc in
    counted (put_items items (put_u32_be (u32 (length items)) header))

-- `buf[i] = v`
unfoldable pub set_elem : ℕ → ℕ → List ℕ → List ℕ
set_elem i v [] = []
set_elem zero v (x ∷ xs) = v ∷ xs
set_elem (suc i) v (x ∷ xs) = x ∷ set_elem i v xs

unfoldable pub finalize : Encoder → List ℕ
finalize enc =
    let fc = enc.field_count in
    let pos = enc.field_count_pos in
    let b0 = set_elem pos (fc / 16777216 % 256) enc.buf in
    let b1 = set_elem (pos + 1) (fc / 65536 % 256) b0 in
    let b2 = set_elem (pos + 2) (fc / 256 % 256) b1 in set_elem (pos + 3) (fc % 256) b2
