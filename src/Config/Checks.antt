-- ===== src/Config/Checks.antt =====
-- The checks of a configuration: ranges, unknown keys and casts (src/config/fota_config.cpp).
use iov_vehicle_cgw_fota.Prelude.{
  ℕ, ◌%◌, String, Bool, false, ◌||◌, List, [], ◌∷◌, str_eq, if◌then◌else◌,
}
use iov_vehicle_cgw_fota.Prelude.Int.{ℤ, pos, ltb_ℤ, to_u64}
use iov_vehicle_cgw_fota.Prelude.Text.{join, to_string_ℤ}
use iov_vehicle_cgw_fota.Prelude.Result.{Result, ok, thrown, fota_config_exception, ◌>>=◌, ◌>>◌}
use iov_vehicle_cgw_fota.Config.FotaConfig.{ConfigSnapshot}

abbrev pub int64_max : ℤ
int64_max = pos 9223372036854775807

abbrev pub to_u32 : ℤ → ℕ
to_u32 v = to_u64 v % 4294967296

abbrev pub to_u16 : ℤ → ℕ
to_u16 v = to_u64 v % 65536

unfoldable pub require_range : String → ℤ → ℤ → ℤ → Result (Unit {0})
require_range key value lo hi =
    if ltb_ℤ value lo || ltb_ℤ hi value
    then thrown (
        fota_config_exception (
          join "config range violation: " (
            join key (
              join " (" (
                join (to_string_ℤ value) (
                  join ") not in ["
                    (join (to_string_ℤ lo) (join "," (join (to_string_ℤ hi) "]")))))))))
    else ok tt

abbrev pub stands_in : String → List String → Bool
stands_in k [] = false
stands_in k (a ∷ rest) = str_eq a k || stands_in k rest

abbrev pub reject_others : String → List String → List String → Result (Unit {0})
reject_others section allowed [] = ok tt
reject_others section allowed (k ∷ ks) =
    let rest = reject_others section allowed ks in
    if stands_in k allowed
    then rest
    else thrown (fota_config_exception (join "unknown config key: " (join section (join "." k))))

unfoldable pub reject_unknown : ConfigSnapshot → String → List String → Result (Unit {0})
reject_unknown s section allowed = reject_others section allowed (s.keys section)

-- `getOr<std::int64_t>` and `requireRange`
unfoldable pub ranged : ConfigSnapshot → String → ℤ → ℤ → ℤ → Result ℤ
unfolding require_range
ranged s key default lo hi = do v ← s.int_or key default; require_range key v lo hi; ok v
