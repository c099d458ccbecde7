-- ===== src/Prelude/Text.antt =====
-- Texts: concatenation, repetition and `std::to_string`.
use Prim.Native.String.{◌++◌ as append}
use iov_vehicle_cgw_fota.Prelude.{
  ℕ, zero, suc, ◌/◌, ◌%◌, String, [], ◌∷◌, get_elem?, get_or, ltb, if◌then◌else◌,
}
use iov_vehicle_cgw_fota.Prelude.Int.{ℤ, pos, negsuc}

-- `a + b` of two texts
abbrev pub join : String → String → String
join = append

-- `std::string(n, c)`
unfoldable pub repeat_text : ℕ → String → String
repeat_text zero c = ""
repeat_text (suc n) c = join c (repeat_text n c)

digit : ℕ → String
digit d = get_or (get_elem? ("0" ∷ "1" ∷ "2" ∷ "3" ∷ "4" ∷ "5" ∷ "6" ∷ "7" ∷ "8" ∷ "9" ∷ []) d) ""

digits : ℕ → ℕ → String
digits zero n = ""
digits (suc fuel) n =
    let front = digits fuel (n / 10) in if ltb n 10 then digit n else join front (digit (n % 10))

-- `std::to_string` of an unsigned number: no number of 64 bits has more than 20 digits.
unfoldable pub to_string : ℕ → String
unfolding digits digit
to_string n = digits 20 n

-- `std::to_string` of a signed number
unfoldable pub to_string_ℤ : ℤ → String
unfolding to_string
to_string_ℤ (pos n) = to_string n
to_string_ℤ (negsuc n) = join "-" (to_string (suc n))
