-- ===== src/Store/FrameworkStore.antt =====
-- The framework's key-value store (cgw-framework-store) and its clock, as a parameter: the calls that
-- the program makes and what is documented of them. `World` is the device with its files, and also
-- decides which calls fail. A call that fails throws a `StoreException`.
use iov_vehicle_cgw_fota.Prelude.{
  ◌≡◌, ◌⊎◌, ℕ, String, Bool, false, List, Option, none, some, is_some, str_eq,
}
use iov_vehicle_cgw_fota.Prelude.Int.{ℤ}
use iov_vehicle_cgw_fota.Prelude.Result.{Result, ok, OnReturn}

pub record FrameworkStore : Type 1 where
  pub World : Type 0
  -- The value that a restart finds under a key.
  pub contents : World → String → Option (List ℕ)
  pub has : String → World → Result Bool × World
  pub load : String → World → Result (List ℕ) × World
  pub save : String → List ℕ → World → Result (Unit {0}) × World
  pub remove : String → World → Result (Unit {0}) × World
  pub now_ms : World → ℤ × World
  pub has_answer : (k : String) (w : World) → OnReturn (λ b. is_some (contents w k) ≡ b) (has k w).0
  pub load_answer : (k : String) (w : World) → OnReturn (λ v. contents w k ≡ some v) (load k w).0
  -- A save that returns is durable; one that throws has written the value or has not.
  pub save_durable :
      (k : String) (v : List ℕ) (w : World)
      → (save k v w).0 ≡ ok tt
      → contents (save k v w).1 k ≡ some v
  pub save_atomic :
      (k : String) (v : List ℕ) (w : World)
      → (contents (save k v w).1 k ≡ contents w k) ⊎ (contents (save k v w).1 k ≡ some v)
  pub remove_effect :
      (k : String) (w : World) → (remove k w).0 ≡ ok tt → contents (remove k w).1 k ≡ none
  pub contents-has : (k k' : String) (w : World) → contents (has k w).1 k' ≡ contents w k'
  pub contents-load : (k k' : String) (w : World) → contents (load k w).1 k' ≡ contents w k'
  pub contents-now_ms : (k' : String) (w : World) → contents (now_ms w).1 k' ≡ contents w k'
  pub contents-save :
      (k : String) (v : List ℕ) (k' : String) (w : World)
      → str_eq k' k ≡ false
      → contents (save k v w).1 k' ≡ contents w k'
  pub contents-remove :
      (k k' : String) (w : World) → str_eq k' k ≡ false → contents (remove k w).1 k' ≡ contents w k'
