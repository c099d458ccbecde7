-- ===== src/Config/Ids.antt =====
-- The ids of the generic message service that a configuration can have.
use iov_vehicle_cgw_fota.Prelude.{◌≡◌, ◌≢◌, ◌≤◌, ◌<◌, ◌⊎◌, inl, inr, ℕ, String, Bool, arith}
use iov_vehicle_cgw_fota.Prelude.Int.{ℤ, pos, negsuc}
use iov_vehicle_cgw_fota.Prelude.Result.{Result, ok, thrown, OnReturn, ◌>>=◌}
use iov_vehicle_cgw_fota.Someip.GenericTransport
use iov_vehicle_cgw_fota.Someip.GenericTransport.{
  GenericTransportSpec, IsAllocated, FitsU16, resolve_tbox_generic_transport, address_of, returned,
  default_address,
}
use iov_vehicle_cgw_fota.Config.FotaConfig.{ConfigSnapshot, FotaConfig}
use iov_vehicle_cgw_fota.Config.Checks.{to_u16, require_range, reject_unknown}
use iov_vehicle_cgw_fota.Config.From.{
  unallocated, allocated, ids_from, generic_transport_from, from,
}
use iov_vehicle_cgw_fota.Config.Bounds.{Within, of_return, from_parts}

-- The ids that were accepted: none, or all within their ranges.
abbrev pub IdBounds : GenericTransportSpec → Type 0
IdBounds g =
    (g ≡ unallocated)
    ⊎ ((1 ≤ g.method_id)
        × (g.method_id ≤ 32767)
        × (32768 ≤ g.event_id)
        × (g.event_id ≤ 65534)
        × (1 ≤ g.eventgroup_id)
        × (g.eventgroup_id ≤ 65534))

required : (key : String) (lo hi v : ℤ) → OnReturn (λ _. Within lo hi v) (require_range key v lo hi)
unfolding require_range
required key lo hi v = ground arith

u16-bounds :
    (lo hi : ℕ) (v : ℤ)
    → hi < 65536
    → Within (pos lo) (pos hi) v
    → (lo ≤ to_u16 v) × (to_u16 v ≤ hi)
u16-bounds lo hi (pos n) h w = ground arith
u16-bounds lo hi (negsuc n) h w = absurd (cc)

allocated-bounds : (m e g iv : ℤ) → OnReturn IdBounds (allocated m e g iv)
unfolding allocated
allocated-bounds m e g iv = ground (
  arith,
  required "fota.someip.generic_transport.method_id" (pos 1) (pos 32767) m,
  required "fota.someip.generic_transport.event_id" (pos 32768) (pos 65534) e,
  required "fota.someip.generic_transport.eventgroup_id" (pos 1) (pos 65534) g,
  u16-bounds 1 32767 m (omega arith),
  u16-bounds 32768 65534 e (omega arith),
  u16-bounds 1 65534 g (omega arith),
)

ids_from-IdBounds : (m e g iv : ℤ) → OnReturn IdBounds (ids_from m e g iv)
unfolding ids_from
ids_from-IdBounds m e g iv = ground (arith, allocated-bounds m e g iv)

chain-IdBounds :
    (r : Result (Unit {0})) (rm re rg ri : Result ℤ)
    → OnReturn IdBounds
        (r >>= λ _. rm >>= λ m. re >>= λ e. rg >>= λ g. ri >>= λ iv. ids_from m e g iv)
chain-IdBounds (thrown x) rm re rg ri = tt
chain-IdBounds (ok _) (thrown x) re rg ri = tt
chain-IdBounds (ok _) (ok m) (thrown x) rg ri = tt
chain-IdBounds (ok _) (ok m) (ok e) (thrown x) ri = tt
chain-IdBounds (ok _) (ok m) (ok e) (ok g) (thrown x) = tt
chain-IdBounds (ok _) (ok m) (ok e) (ok g) (ok iv) = ids_from-IdBounds m e g iv

generic_transport_from-IdBounds :
    (s : ConfigSnapshot) → OnReturn IdBounds (generic_transport_from s)
unfolding generic_transport_from
generic_transport_from-IdBounds s =
    chain-IdBounds (reject_unknown s "fota.someip.generic_transport" _)
      (s.int_or "fota.someip.generic_transport.method_id" (pos 0))
      (s.int_or "fota.someip.generic_transport.event_id" (pos 0))
      (s.int_or "fota.someip.generic_transport.eventgroup_id" (pos 0))
      (s.int_or "fota.someip.generic_transport.interface_major" (pos 1))

undeclared_resolved :
    (text : String) → resolve_tbox_generic_transport unallocated ≢ GenericTransport.thrown text
unfolding resolve_tbox_generic_transport
undeclared_resolved text h = ground arith

refused_ids :
    (g : GenericTransportSpec) (text : String)
    → IdBounds g
    → resolve_tbox_generic_transport g ≡ GenericTransport.thrown text
    → (g.method_id ≡ 1) ⊎ (g.interface_major ≢ 1)
unfolding resolve_tbox_generic_transport
refused_ids g text (inl e) h = absurd (undeclared_resolved text (rw e at h))
refused_ids g text (inr b) h = ground arith

-- For an accepted configuration, the contract of the generic service refuses the configured ids only
-- if the method is the one of the inventory report or the major version is not 1.
pub refused_only_for_conflict :
    (test_doubles : Bool) (s : ConfigSnapshot) (c : FotaConfig) (text : String)
    → from test_doubles s ≡ ok c
    → resolve_tbox_generic_transport c.generic_transport ≡ GenericTransport.thrown text
    → (c.generic_transport.method_id ≡ 1) ⊎ (c.generic_transport.interface_major ≢ 1)
refused_only_for_conflict t s c text h r =
    refused_ids c.generic_transport text
      (of_return IdBounds (generic_transport_from s) c.generic_transport
        (generic_transport_from-IdBounds s) (from_parts t s c h).3)
      r
