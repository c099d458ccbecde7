-- ===== src/Fingerprint/CanonicalEncoder/Layout.antt =====
-- What a run of the encoder puts out.
use iov_vehicle_cgw_fota.Prelude.{
  ℕ, suc, ◌+◌, ◌%◌, ◌/◌, ◌≡◌, refl, sym, ap, ◌∙◌, List, [], ◌∷◌, ◌++◌, Option, none, some, length,
  length-append, u32, arith,
}
use iov_vehicle_cgw_fota.Fingerprint.CanonicalEncoder.{
  Encoder, FieldState, missing, present, state_byte, u16_be, u32_be, create, write_string_field,
  write_optional_string_field, write_enum_field, write_bytes_field, total_length, put_items,
  write_list_field, set_elem, finalize, put_bytes, counted,
}

-- The fields that a client writes.
pub data Field : Type 0 where
  string_field : ℕ → List ℕ → Field
  optional_string_field : ℕ → Option (List ℕ) → Field
  enum_field : ℕ → ℕ → Field
  bytes_field : ℕ → List ℕ → Field
  list_field : ℕ → List (List ℕ) → Field

unfoldable pub write : Field → Encoder → Encoder
write (string_field id value) enc = write_string_field id value enc
write (optional_string_field id value) enc = write_optional_string_field id value enc
write (enum_field id code) enc = write_enum_field id code enc
write (bytes_field id bytes) enc = write_bytes_field id bytes enc
write (list_field id items) enc = write_list_field id items enc

unfoldable pub write_all : List Field → Encoder → Encoder
write_all [] enc = enc
write_all (f ∷ fs) enc = write_all fs (write f enc)

unfoldable pub concat : List (List ℕ) → List ℕ
concat [] = []
concat (item ∷ items) = item ++ concat items

abbrev pub field_id : Field → ℕ
field_id (string_field id value) = id
field_id (optional_string_field id value) = id
field_id (enum_field id code) = id
field_id (bytes_field id bytes) = id
field_id (list_field id items) = id

abbrev pub field_state : Field → FieldState
field_state (optional_string_field id none) = missing
field_state _ = present

-- The bytes of a field's value.
unfoldable pub payload : Field → List ℕ
payload (string_field id value) = value
payload (optional_string_field id none) = []
payload (optional_string_field id (some value)) = value
payload (enum_field id code) = u32_be code
payload (bytes_field id bytes) = bytes
payload (list_field id items) = u32_be (u32 (length items)) ++ concat items

-- A field: its id, its state, the length of its value and the value.
unfoldable pub field_bytes : Field → List ℕ
field_bytes f =
    u16_be (field_id f)
    ++ state_byte (field_state f) ∷ u32_be (u32 (length (payload f)))
    ++ payload f

unfoldable pub fields_bytes : List Field → List ℕ
fields_bytes [] = []
fields_bytes (f ∷ fs) = field_bytes f ++ fields_bytes fs

-- The layout: the domain under its length, the number of fields, and the fields.
unfoldable pub layout : List ℕ → List Field → List ℕ
layout domain fs =
    u32_be (u32 (length domain)) ++ domain ++ u32_be (u32 (length fs)) ++ fields_bytes fs

append_assoc : (xs ys zs : List ℕ) → (xs ++ ys) ++ zs ≡ xs ++ (ys ++ zs)
append_assoc [] ys zs = refl
append_assoc (x ∷ xs) ys zs = ap (λ l. x ∷ l) (append_assoc xs ys zs)

append_nil : (xs : List ℕ) → xs ++ [] ≡ xs
append_nil [] = refl
append_nil (x ∷ xs) = ap (λ l. x ∷ l) (append_nil xs)

set-append :
    (xs : List ℕ) (i v : ℕ) (ys : List ℕ)
    → set_elem (length xs + i) v (xs ++ ys) ≡ xs ++ set_elem i v ys
unfolding set_elem
set-append [] i v ys = ap (λ k. set_elem k v ys) (omega arith)
set-append (x ∷ xs) i v ys =
    ap (λ k. set_elem k v (x ∷ xs ++ ys)) {x = suc (length xs) + i} {y = suc (length xs + i)}
      (omega arith)
    ∙ ap (λ l. x ∷ l) (set-append xs i v ys)

same_buf : (enc : Encoder) {a b : List ℕ} → a ≡ b → record enc { buf = a } ≡ record enc { buf = b }
same_buf enc h = ap (λ l. record enc { buf = l }) h

-- The sum of the lengths, in uint32_t.
total-length :
    (items : List (List ℕ)) (t n : ℕ)
    → t ≡ u32 n
    → total_length items t ≡ u32 (n + length (concat items))
unfolding total_length concat
total-length [] t n h = omega (arith, h)
total-length (item ∷ items) t n h =
    let rest = total-length items (u32 (t + length item)) (n + length item) (omega (arith, h)) in
    rest ∙ ap u32 (omega (arith, length-append item (concat items)))

put-items :
    (items : List (List ℕ)) (enc : Encoder) → put_items items enc ≡ put_bytes (concat items) enc
unfolding put_items concat
put-items [] enc = rw (append_nil enc.buf) refl
put-items (item ∷ items) enc =
    put-items items (put_bytes item enc) ∙ same_buf enc (append_assoc enc.buf item (concat items))

-- A write appends the field and counts it.
write_lem :
    (f : Field) (enc : Encoder)
    → write f enc
      ≡ record enc { buf = enc.buf ++ field_bytes f; field_count = u32 (enc.field_count + 1) }
unfolding write field_bytes payload write_string_field write_optional_string_field write_enum_field
    write_bytes_field write_list_field
write_lem (string_field id value) enc = same_buf (counted enc) (simp append_assoc refl)
write_lem (optional_string_field id none) enc = same_buf (counted enc) (simp append_assoc refl)
write_lem (optional_string_field id (some value)) enc =
    same_buf (counted enc) (simp append_assoc refl)
write_lem (enum_field id code) enc = same_buf (counted enc) (simp append_assoc refl)
write_lem (bytes_field id bytes) enc = same_buf (counted enc) (simp append_assoc refl)
write_lem (list_field id items) enc =
    let sum : total_length items 4 ≡ u32 (length (payload (list_field id items))) =
      total-length items 4 4 refl ∙ ap u32 (omega arith) in
    rw (put-items items _, sum) (same_buf (counted enc) (simp append_assoc refl))

-- Many writes append their fields and count them.
write_all_lem :
    (fs : List Field) (enc : Encoder) (n : ℕ)
    → enc.field_count ≡ u32 n
    → write_all fs enc
      ≡ record enc { buf = enc.buf ++ fields_bytes fs; field_count = u32 (n + length fs) }
unfolding write_all fields_bytes
write_all_lem [] enc n h =
    same_buf enc (sym (append_nil enc.buf))
    ∙ ap (λ c. record enc { buf = enc.buf ++ []; field_count = c }) (omega (arith, h))
write_all_lem (f ∷ fs) enc n h =
    let next : Encoder = record enc {
      buf = enc.buf ++ field_bytes f;
      field_count = u32 (enc.field_count + 1);
    } in
    let count : u32 (n + 1 + length fs) ≡ u32 (n + suc (length fs)) = ap u32 (omega arith) in
    ap (write_all fs) (write_lem f enc)
    ∙ (write_all_lem fs next (n + 1) (omega (arith, h))
        ∙ (same_buf (record enc { field_count = u32 (n + 1 + length fs) })
              (append_assoc enc.buf _ _)
            ∙ ap
                (λ c. record enc {
                  buf = enc.buf ++ (field_bytes f ++ fields_bytes fs);
                  field_count = c;
                })
                count))

set_at :
    (pre : List ℕ) (pos i v : ℕ) (ys : List ℕ)
    → pos ≡ length pre + i
    → set_elem pos v (pre ++ ys) ≡ pre ++ set_elem i v ys
set_at pre pos i v ys h = rw h (set-append pre i v ys)

-- The bytes of the field count, written over the four bytes in their place.
finalize_lem :
    (pre post : List ℕ) (fc : ℕ)
    → finalize (record {
      buf = pre ++ (0 ∷ 0 ∷ 0 ∷ 0 ∷ post);
      field_count_pos = length pre;
      field_count = fc;
    })
      ≡ pre ++ (u32_be fc ++ post)
unfolding finalize set_elem
finalize_lem pre post fc =
    let p = length pre in
    let b0 = fc / 16777216 % 256 in
    let b1 = fc / 65536 % 256 in
    let b2 = fc / 256 % 256 in
    let set1 : List ℕ → List ℕ = set_elem (p + 1) b1 in
    let set2 : List ℕ → List ℕ = set_elem (p + 2) b2 in
    let set3 : List ℕ → List ℕ = set_elem (p + 3) (fc % 256) in
    ap (λ l. set3 (set2 (set1 l))) (set_at pre p 0 b0 (0 ∷ 0 ∷ 0 ∷ 0 ∷ post) (omega arith))
    ∙ (ap (λ l. set3 (set2 l)) (set_at pre (p + 1) 1 b1 (b0 ∷ 0 ∷ 0 ∷ 0 ∷ post) refl)
        ∙ (ap set3 (set_at pre (p + 2) 2 b2 (b0 ∷ b1 ∷ 0 ∷ 0 ∷ post) refl)
            ∙ set_at pre (p + 3) 3 (fc % 256) (b0 ∷ b1 ∷ b2 ∷ 0 ∷ post) refl))

-- The encoder puts out the layout: whatever fields are written, in whatever order, `finalize` gives
-- the length of the domain, the domain, the number of the fields and each field under its header,
-- with no other bytes and the field count in its place. For the empty domain of a sub-record the
-- length, four zero bytes, is put out too.
pub finalize-write_all :
    (domain : List ℕ) (fs : List Field) → finalize (write_all fs (create domain)) ≡ layout domain fs
unfolding create layout
finalize-write_all domain fs =
    let pre = u32_be (u32 (length domain)) ++ domain in
    let counts : Encoder = record {
      buf = [];
      field_count_pos = length pre;
      field_count = u32 (0 + length fs);
    } in
    ap finalize (write_all_lem fs (create domain) 0 refl ∙ same_buf counts (append_assoc pre _ _))
    ∙ (finalize_lem pre (fields_bytes fs) (u32 (0 + length fs))
        ∙ (ap (λ n. pre ++ (u32_be n ++ fields_bytes fs)) (omega arith)
            ∙ sym (append_assoc pre (u32_be (u32 (length fs))) (fields_bytes fs))))
