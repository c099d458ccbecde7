-- ===== src/Store/Serializer/Json.antt =====
-- The JSON library (nlohmann::json) that the serializer calls, as a parameter: its operations and what
-- its documentation says of them. Values that compare equal are one value. A text is its bytes.
use iov_vehicle_cgw_fota.Prelude.{
  ℕ, ◌≡◌, ◌<◌, String, Bool, List, [], ◌∷◌, ◌++◌, Option, none, some, is_some, str_eq,
  if◌then◌else◌,
}
use iov_vehicle_cgw_fota.Prelude.Int.{ℤ}
use iov_vehicle_cgw_fota.Prelude.Result.{Exception, Result, ok, of_option}

-- The first value that stands under a key.
abbrev pub lookup {ℓ} : {A : Type ℓ} → String → List (String × A) → Option A
lookup k [] = none
lookup k (x ∷ xs) = if str_eq k x.0 then some x.1 else lookup k xs

abbrev pub without {ℓ} : {A : Type ℓ} → String → List (String × A) → List (String × A)
without k [] = []
without k (x ∷ xs) = let rest = without k xs in if str_eq k x.0 then rest else x ∷ rest

pub record JsonLib : Type 1 where
  pub Json : Type 0
  pub string : String → Json
  pub unsigned : ℕ → Json
  pub signed : ℤ → Json
  pub boolean : Bool → Json
  pub array : List Json → Json
  -- `json{{key, value}, ...}`
  pub object : List (String × Json) → Json
  -- `j.at(key)`
  pub member : Json → String → Result Json
  pub contains : Json → String → Bool
  -- what `j.value(key, default)` finds
  pub find_value : Json → String → Result (Option Json)
  -- `j[key] = value`
  pub set_member : Json → String → Json → Result Json
  pub erase : Json → String → Result Json
  pub is_array : Json → Bool
  -- `j.push_back(value)`
  pub push_back : Json → Json → Result Json
  -- what `for (x : j)` visits
  pub elements : Json → List Json
  pub get_string : Json → Result String
  pub get_u32 : Json → Result ℕ
  pub get_u64 : Json → Result ℕ
  pub get_i64 : Json → Result ℤ
  pub get_bool : Json → Result Bool
  pub parse : List ℕ → Result Json
  pub dump : Json → Result (List ℕ)
  -- what `at` throws for a key that is not there
  pub out_of_range : String → Exception
  pub member-object :
      (fs : List (String × Json)) (k : String)
      → member (object fs) k ≡ of_option (out_of_range k) (lookup k fs)
  pub contains-object :
      (fs : List (String × Json)) (k : String) → contains (object fs) k ≡ is_some (lookup k fs)
  pub find_value-object :
      (fs : List (String × Json)) (k : String) → find_value (object fs) k ≡ ok (lookup k fs)
  pub set_member-object :
      (fs : List (String × Json)) (k : String) (v : Json)
      → set_member (object fs) k v ≡ ok (object ((k, v) ∷ fs))
  pub erase-object :
      (fs : List (String × Json)) (k : String) → erase (object fs) k ≡ ok (object (without k fs))
  pub push_back-array :
      (xs : List Json) (x : Json) → push_back (array xs) x ≡ ok (array (xs ++ x ∷ []))
  pub elements-array : (xs : List Json) → elements (array xs) ≡ xs
  pub get_string-string : (s : String) → get_string (string s) ≡ ok s
  pub get_u32-unsigned : (n : ℕ) → n < 4294967296 → get_u32 (unsigned n) ≡ ok n
  pub get_u64-unsigned : (n : ℕ) → n < 18446744073709551616 → get_u64 (unsigned n) ≡ ok n
  -- `get<std::uint64_t>()` is a uint64_t.
  pub get_u64_range : (j : Json) (n : ℕ) → get_u64 j ≡ ok n → n < 18446744073709551616
  pub get_i64-signed : (z : ℤ) → get_i64 (signed z) ≡ ok z
  pub get_bool-boolean : (b : Bool) → get_bool (boolean b) ≡ ok b
  pub parse-dump : (j : Json) (text : List ℕ) → dump j ≡ ok text → parse text ≡ ok j
