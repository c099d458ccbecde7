-- ===== src/Store/FotaStateStore.antt =====
-- The store of the report states (`FotaStateStore` of src/store/fota_state_store.cpp and
-- include/cgw/fota/store/fota_state_store.hpp): its members and its calls as functions of them.
-- `root_` only serves diagnosis and logging has no effect, so both are left out.
pub mod Open
pub mod Sequence
pub mod Records
pub mod Loads
pub mod Allocation
pub mod Numbers
use iov_vehicle_cgw_fota.Prelude.{◌≡◌, refl, ℕ, String, Bool, List, Option, none, some}
use iov_vehicle_cgw_fota.Prelude.Int.{ℤ}
use iov_vehicle_cgw_fota.Prelude.Result.{Exception, Result, ok, thrown}
use iov_vehicle_cgw_fota.Store.FrameworkStore.{FrameworkStore}

-- `keys::SEQUENCE`, `LAST_SUCCESS`, `DEDUPE`, `ACTIVE_JOB`
abbrev pub sequence_key : String
sequence_key = "inventory.sequence"

abbrev pub last_success_key : String
last_success_key = "inventory.last_success"

abbrev pub dedupe_key : String
dedupe_key = "inventory.dedupe"

abbrev pub active_job_key : String
active_job_key = "inventory.active_job"

-- `store` is the framework's store and everything around the program.
pub record FotaStateStore (fw : FrameworkStore) : Type 0 where
  pub store : fw.World
  pub dedupe_max_entries : ℕ
  pub dedupe_ttl_ms : ℤ
  pub sequence_blocked : Bool
  pub last_success_available : Bool
  pub dedupe_available : Bool
  pub active_job_corrupted : Bool

-- A call: what it changed stays changed when it throws.
abbrev pub Action {ℓ} : FrameworkStore → Type ℓ → Type ℓ
Action fw A = FotaStateStore fw → Result A × FotaStateStore fw

module _ {fw : FrameworkStore} where
  abbrev pub pure {ℓ} : {A : Type ℓ} → A → Action fw A
  pure a s = (ok a, s)

  abbrev pub raise {ℓ} : {A : Type ℓ} → Exception → Action fw A
  raise e s = (thrown e, s)

  abbrev pub lift {ℓ} : {A : Type ℓ} → Result A → Action fw A
  lift r s = (r, s)

  abbrev pub gets {ℓ} : {A : Type ℓ} → (FotaStateStore fw → A) → Action fw A
  gets f s = (ok (f s), s)

  abbrev pub modify : (FotaStateStore fw → FotaStateStore fw) → Action fw (Unit {0})
  modify f s = (ok tt, f s)

  abbrev pub after {ℓ κ} :
      {A : Type ℓ} {B : Type κ}
      → Result A × FotaStateStore fw
      → (A → Action fw B)
      → Result B × FotaStateStore fw
  after p f = elim p.0 [ ok a ↦ f a p.1 | thrown e ↦ (thrown e, p.1) ]

  infixl 5 ◌>>=◌ ◌>>◌
  abbrev pub ◌>>=◌ {ℓ κ} : {A : Type ℓ} {B : Type κ} → Action fw A → (A → Action fw B) → Action fw B
  ◌>>=◌ m f s = after (m s) f

  abbrev pub ◌>>◌ {ℓ} : {B : Type ℓ} → Action fw (Unit {0}) → Action fw B → Action fw B
  m >> k = m >>= λ _. k

  -- `try { m } catch ...`: what the handler does not name goes on.
  abbrev pub catching {ℓ} :
      {A : Type ℓ} → Action fw A → (Exception → Option (Action fw A)) → Action fw A
  catching m handler s =
      let (r, s') = m s in
      elim r [
        | ok a ↦ (ok a, s')
        | thrown e ↦ elim (handler e) [ none ↦ (thrown e, s') | some k ↦ k s' ]
      ]

  -- A call of the framework.
  abbrev pub on_store {ℓ} : {A : Type ℓ} → (fw.World → Result A × fw.World) → Action fw A
  on_store call s = let (r, w) = call s.store in (r, record s { store = w })

  abbrev pub now_ms : Action fw ℤ
  now_ms s = let (t, w) = fw.now_ms s.store in (ok t, record s { store = w })

-- A call that returns: its first part has returned, and the rest from where that left the store.
pub after-returns {ℓ κ} :
    {fw : FrameworkStore} {A : Type ℓ} {B : Type κ} (p : Result A × FotaStateStore fw)
    (f : A → Action fw B) {b : B}
    → (after p f).0 ≡ ok b
    → (a : A) × (p.0 ≡ ok a) × ((f a p.1).0 ≡ ok b) × (after p f ≡ f a p.1)
after-returns (ok a, s) f h = (a, refl, h, refl)
after-returns (thrown e, s) f h = absurd (cc)

-- What every continuation leaves as it was, the whole call leaves.
pub contents-after {ℓ κ} :
    {fw : FrameworkStore} {A : Type ℓ} {B : Type κ} (p : Result A × FotaStateStore fw)
    (f : A → Action fw B) (k : String)
    → ((a : A) → fw.contents (f a p.1).1.store k ≡ fw.contents p.1.store k)
    → fw.contents (after p f).1.store k ≡ fw.contents p.1.store k
contents-after (ok a, s) f k h = h a
contents-after (thrown e, s) f k h = refl

abbrev pub store_has : (fw : FrameworkStore) → String → Action fw Bool
store_has fw k = on_store (fw.has k)

abbrev pub store_load : (fw : FrameworkStore) → String → Action fw (List ℕ)
store_load fw k = on_store (fw.load k)

abbrev pub store_save : (fw : FrameworkStore) → String → List ℕ → Action fw (Unit {0})
store_save fw k v = on_store (fw.save k v)

abbrev pub store_remove : (fw : FrameworkStore) → String → Action fw (Unit {0})
store_remove fw k = on_store (fw.remove k)
