-- ===== src/Prelude/Result.antt =====
-- Calls that return or throw: the exceptions of the program and of the libraries it calls.
use mathlib.Core.Path.{◌≡◌, refl}
use mathlib.Core.Option.{Option, none, some}
use mathlib.Core.List.{List, [], ◌∷◌}
use Prim.Native.String.{String}

-- `store_exception` is the framework's `StoreException` with its code, `json_exception` the JSON
-- library's, `config_exception` the framework's for a value of the wrong type and `hash_exception`
-- its for a failed hash; the others are the program's own.
pub data Exception : Type 0 where
  store_exception : String → Exception
  json_exception : String → Exception
  state_decode_error : String → Exception
  seq_alloc_blocked : String → String → Exception
  config_exception : String → Exception
  fota_config_exception : String → Exception
  canonical_error : String → String → Exception
  hash_exception : String → Exception

-- `thrown` is a call that has ended with an exception.
pub data Result {ℓ} (Value : Type ℓ) : Type ℓ where
  thrown : Exception → Result Value
  ok : Value → Result Value

module _ {ℓ κ} {Value : Type ℓ} {Answer : Type κ} where
  infixl 5 ◌>>=◌
  abbrev pub ◌>>=◌ : Result Value → (Value → Result Answer) → Result Answer
  first >>= rest = elim first [ thrown e ↦ thrown e | ok v ↦ rest v ]

  -- What stands in a call that returns.
  pub >>=-returned :
      (first : Result Value) (rest : Value → Result Answer) {answer : Answer}
      → (first >>= rest) ≡ ok answer
      → (v : Value) × (first ≡ ok v) × (rest v ≡ ok answer)
  >>=-returned (thrown e) rest h = cc
  >>=-returned (ok v) rest h = (v, refl, h)

infixl 5 ◌>>◌
abbrev pub ◌>>◌ {κ} : {Answer : Type κ} → Result (Unit {0}) → Result Answer → Result Answer
check >> rest = check >>= λ _. rest

-- A loop that converts each element and appends it.
abbrev pub traverse {ℓ κ} : {A : Type ℓ} {B : Type κ} → (A → Result B) → List A → Result (List B)
traverse f [] = ok []
traverse f (x ∷ xs) = f x >>= λ y. traverse f xs >>= λ ys. ok (y ∷ ys)

abbrev pub of_option {ℓ} : {A : Type ℓ} → Exception → Option A → Result A
of_option e none = thrown e
of_option e (some a) = ok a

-- What holds of a result when there is one.
abbrev pub OnReturn : {Value : Type 0} → (Value → Type 0) → Result Value → Type 0
OnReturn P (ok v) = P v
OnReturn P (thrown _) = Unit
