-- ===== src/Store/Serializer/RoundTrip/Members.antt =====
-- Pushing values into a list member of a JSON object (`j["entries"].push_back(...)`).
use iov_vehicle_cgw_fota.Prelude.{
  ◌≡◌, refl, ◌∙◌, ap, String, false, some, List, [], ◌∷◌, ◌++◌, str_eq, arith, eq_iff,
}
use mathlib.Core.List.{append_assoc, append-nil}
use iov_vehicle_cgw_fota.Prelude.Result.{ok}
use iov_vehicle_cgw_fota.Store.Serializer.Json.{JsonLib, lookup}
use iov_vehicle_cgw_fota.Store.Serializer.Values.{push_members}

module _ (lib : JsonLib) where
  open lib use {Json, object, array}

  -- What is left after the values have been pushed under `k`.
  pub record IsPushed (k : String) (xs ys : List Json) (fs fs' : List (String × Json))
      : Type 0 where
    pub pushed : push_members lib k xs (object fs) ≡ ok (object fs')
    pub here : lookup k fs' ≡ some (array (ys ++ xs))
    pub others : (k' : String) → str_eq k' k ≡ false → lookup k' fs' ≡ lookup k' fs

  pub push_members_lem :
      (k : String) (xs ys : List Json) (fs : List (String × Json))
      → lookup k fs ≡ some (array ys)
      → (fs' : List (String × Json)) × IsPushed k xs ys fs fs'
  push_members_lem k [] ys fs h =
      (fs, record { pushed = refl; here = rw (append-nil ys) h; others = λ k' e. refl })
  push_members_lem k (x ∷ xs) ys fs h =
      let fs1 : List (String × Json) = (k, array (ys ++ x ∷ [])) ∷ fs in
      let first : lookup k fs1 ≡ some (array (ys ++ x ∷ [])) = ground (arith, eq_iff k k) in
      let (fs', p) = push_members_lem k xs (ys ++ x ∷ []) fs1 first in
      (
        fs',
        record {
          pushed = rw (lib.member-object, h, lib.push_back-array, lib.set_member-object) p.pushed;
          here = p.here ∙ ap (λ l. some (array l)) (append_assoc ys (x ∷ []) xs);
          others = λ k' e. p.others k' e ∙ rw e refl;
        },
      )
