-- ===== src/Fingerprint/Inventory/Order.antt =====
-- The order of the ECUs in a digest: `sortEcuIndices`
-- (src/fingerprint/inventory_fingerprint.cpp).
use Prim.Native.Nat.{compare, Ordering}
use iov_vehicle_cgw_fota.Prelude.{
  ℕ, ◌+◌, String, List, [], ◌∷◌, Option, none, some, Bool, true, false, get_elem?, get_or,
  if◌then◌else◌,
}
use iov_vehicle_cgw_fota.Prelude.Text.{join}
use iov_vehicle_cgw_fota.Prelude.Result.{Result, ok, thrown, canonical_error}
use iov_vehicle_cgw_fota.Store.FotaState
use iov_vehicle_cgw_fota.Store.FotaState.{EcuVersionEntry, EcuStatus}

-- The bytes of a text and the framework's hash functions, which may throw a `HashException`.
pub record Platform : Type 0 where
  pub bytes : String → List ℕ
  pub sha256 : List ℕ → Result (List ℕ)
  pub sha256_hex : List ℕ → Result String

abbrev pub text_bytes : Platform → String → List ℕ
text_bytes p s = p.bytes s

-- `EcuVersionEntry{}`, for an index that no ECU has.
abbrev pub no_entry : EcuVersionEntry
no_entry = record {
  ecu_id = "";
  part_number = none;
  sw_version = none;
  hw_version = none;
  source = FotaState.uds_0x22;
  status = EcuStatus.ok;
  error_code = none;
}

-- `ecus[i]`
abbrev pub entry_at : List EcuVersionEntry → ℕ → EcuVersionEntry
entry_at ecus i = get_or (get_elem? ecus i) no_entry

pub record StableKey : Type 0 where
  pub ecu_id : List ℕ
  pub part_number : List ℕ
  pub sw_version : List ℕ

abbrev pub first_of : Ordering → Ordering → Ordering
first_of Ordering.eq next = next
first_of Ordering.lt next = Ordering.lt
first_of Ordering.gt next = Ordering.gt

-- The order of `std::string`, byte by byte.
unfoldable pub bytes_compare : List ℕ → List ℕ → Ordering
bytes_compare [] [] = Ordering.eq
bytes_compare [] (y ∷ ys) = Ordering.lt
bytes_compare (x ∷ xs) [] = Ordering.gt
bytes_compare (x ∷ xs) (y ∷ ys) = first_of (compare x y) (bytes_compare xs ys)

-- The order of `std::tuple`, member by member.
unfoldable pub key_compare : StableKey → StableKey → Ordering
unfolding bytes_compare
key_compare a b =
    first_of (bytes_compare a.ecu_id b.ecu_id) (
      first_of (bytes_compare a.part_number b.part_number)
        (bytes_compare a.sw_version b.sw_version))

abbrev pub is_lt : Ordering → Bool
is_lt Ordering.lt = true
is_lt Ordering.eq = false
is_lt Ordering.gt = false

abbrev pub is_eq : Ordering → Bool
is_eq Ordering.lt = false
is_eq Ordering.eq = true
is_eq Ordering.gt = false

-- `stableKey(a) < stableKey(b)`, in which the index decides between equal keys.
unfoldable pub before : (ℕ → StableKey) → ℕ → ℕ → Bool
unfolding key_compare
before key a b = is_lt (first_of (key_compare (key a) (key b)) (compare a b))

unfoldable pub insert : (ℕ → ℕ → Bool) → ℕ → List ℕ → List ℕ
insert lt x [] = x ∷ []
insert lt x (y ∷ ys) = let rest = insert lt x ys in if lt y x then y ∷ rest else x ∷ y ∷ ys

-- `std::stable_sort`
unfoldable pub stable_sort : (ℕ → ℕ → Bool) → List ℕ → List ℕ
unfolding insert
stable_sort lt [] = []
stable_sort lt (x ∷ xs) = insert lt x (stable_sort lt xs)

-- `order[i] = i`, from index `i`.
unfoldable pub indices : ℕ → List EcuVersionEntry → List ℕ
indices i [] = []
indices i (e ∷ es) = i ∷ indices (i + 1) es

-- The second of two neighbours with equal keys.
unfoldable pub duplicate : (ℕ → StableKey) → List ℕ → Option ℕ
unfolding key_compare
duplicate key [] = none
duplicate key (a ∷ []) = none
duplicate key (a ∷ b ∷ is) =
    let rest = duplicate key (b ∷ is) in
    if is_eq (key_compare (key a) (key b)) then some b else rest

-- The order, or the exception for the ECU that has the key of the one before it.
unfoldable pub checked_order : (ℕ → StableKey) → (ℕ → String) → List ℕ → Result (List ℕ)
unfolding duplicate
checked_order key id_of order = elim (duplicate key order) [
  | none ↦ ok order
  | some i ↦
      thrown (canonical_error "CGW-FOTA-2001" (join "duplicate ECU stable key: ecuId=" (id_of i)))
]

module _ (p : Platform) where
  -- `value_or("")`
  abbrev pub value_bytes : Option String → List ℕ
  value_bytes none = p.bytes ""
  value_bytes (some s) = p.bytes s

  unfoldable pub stable_key : EcuVersionEntry → StableKey
  stable_key e = record {
    ecu_id = p.bytes e.ecu_id;
    part_number = value_bytes e.part_number;
    sw_version = value_bytes e.sw_version;
  }

  abbrev pub key_at : List EcuVersionEntry → ℕ → StableKey
  key_at ecus i = stable_key (entry_at ecus i)

  unfoldable pub sort_ecu_indices : List EcuVersionEntry → Result (List ℕ)
  unfolding stable_sort before indices checked_order
  sort_ecu_indices ecus =
      let key = key_at ecus in
      checked_order key (λ i. (entry_at ecus i).ecu_id) (stable_sort (before key) (indices 0 ecus))
