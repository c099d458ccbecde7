-- ===== src/Someip/GenericTransport.antt =====
-- The address of the TBOX's generic message service (src/someip/tbox_generic_transport_contract.cpp
-- and include/cgw/fota/someip/tbox_generic_transport_contract.hpp), resolved from the configuration
-- `fota.someip.generic_transport.*` (`GenericTransportSpec` of
-- include/cgw/fota/config/fota_config.hpp). An id is a uint16_t, the major version a uint32_t.
use iov_vehicle_cgw_fota.Prelude.{
  ℕ, ◌≡◌, ◌≤◌, ◌<◌, ◌%◌, String, Bool, true, false, not, ◌&&◌, ◌||◌, ◌==◌, ltb, arith,
  if◌then◌else◌,
}

-- `GenericTransportSpec`
pub record GenericTransportSpec : Type 0 where
  pub method_id : ℕ
  pub event_id : ℕ
  pub eventgroup_id : ℕ
  pub interface_major : ℕ

unfoldable pub any_declared : GenericTransportSpec → Bool
any_declared spec =
    not (spec.method_id == 0) || not (spec.event_id == 0) || not (spec.eventgroup_id == 0)

-- `TboxGenericTransportAddress`; the minor part of its version is always 0.
pub record TboxGenericTransportAddress : Type 0 where
  pub service : ℕ
  pub instance_id : ℕ
  pub method : ℕ
  pub event : ℕ
  pub eventgroup : ℕ
  pub interface_version : ℕ × ℕ

abbrev pub default_address : TboxGenericTransportAddress
default_address = record {
  service = 24833;
  instance_id = 1;
  method = 0;
  event = 0;
  eventgroup = 0;
  interface_version = (1, 0);
}

unfoldable pub fully_allocated : TboxGenericTransportAddress → Bool
fully_allocated a = not (a.method == 0) && not (a.event == 0) && not (a.eventgroup == 0)

-- How a resolution ends: with its result and `out`, or with a `FotaConfigException`.
pub data Resolution : Type 0 where
  returned : Bool → TboxGenericTransportAddress → Resolution
  thrown : String → Resolution

-- `spec.methodId == TBOX_METHOD_REPORT_SOFTWARE_INVENTORY`
unfoldable pub conflicts_with_local_allocations : GenericTransportSpec → Bool
conflicts_with_local_allocations spec = spec.method_id == 1

abbrev pub address_of : GenericTransportSpec → TboxGenericTransportAddress
address_of spec = record default_address {
  method = spec.method_id;
  event = spec.event_id;
  eventgroup = spec.eventgroup_id;
  interface_version = (spec.interface_major % 256, 0);
}

unfoldable pub resolve_tbox_generic_transport : GenericTransportSpec → Resolution
unfolding any_declared fully_allocated conflicts_with_local_allocations
resolve_tbox_generic_transport spec =
    if not (any_declared spec)
    then returned false default_address
    else if spec.method_id == 0 || spec.event_id == 0 || spec.eventgroup_id == 0
    then thrown
        "fota.someip.generic_transport: partial Registry allocation (method_id/event_id/eventgroup_id must all be non-zero)"
    else if spec.method_id == 0 || spec.method_id == 65535 || ltb 32767 spec.method_id
    then thrown "fota.someip.generic_transport.method_id out of range"
    else if ltb spec.event_id 32768 || spec.event_id == 65535
    then thrown "fota.someip.generic_transport.event_id out of SOME/IP event range"
    else if spec.eventgroup_id == 0 || spec.eventgroup_id == 65535
    then thrown "fota.someip.generic_transport.eventgroup_id reserved value"
    else if conflicts_with_local_allocations spec
    then thrown
        "fota.someip.generic_transport.method_id conflicts with local Registry allocation (TBOX_METHOD_REPORT_SOFTWARE_INVENTORY, contract A)"
    else if not (spec.interface_major == 1)
    then thrown "fota.someip.generic_transport.interface_major mismatch: expected 1"
    else if not (fully_allocated (address_of spec))
    then thrown "fota.someip.generic_transport: unresolved address"
    else returned true (address_of spec)

-- The ids that the registry can have given to the generic service.
pub record IsAllocated (spec : GenericTransportSpec) : Type 0 where
  pub method_above : 2 ≤ spec.method_id
  pub method_below : spec.method_id ≤ 32767
  pub event_above : 32768 ≤ spec.event_id
  pub event_below : spec.event_id ≤ 65534
  pub eventgroup_above : 1 ≤ spec.eventgroup_id
  pub eventgroup_below : spec.eventgroup_id ≤ 65534
  pub major : spec.interface_major ≡ 1

-- The ids are uint16_t.
abbrev pub FitsU16 : GenericTransportSpec → Type 0
FitsU16 spec = (spec.method_id < 65536) × (spec.event_id < 65536) × (spec.eventgroup_id < 65536)

-- For a configuration of 16-bit ids, a resolution that returns true says that each id is in its
-- range, that the method is not the one of the inventory report and that the major version is 1, and
-- `out` holds just these ids.
pub resolve-IsAllocated :
    (spec : GenericTransportSpec) (out : TboxGenericTransportAddress)
    → FitsU16 spec
    → resolve_tbox_generic_transport spec ≡ returned true out
    → IsAllocated spec
      × (out.method ≡ spec.method_id)
      × (out.event ≡ spec.event_id)
      × (out.eventgroup ≡ spec.eventgroup_id)
      × (out.interface_version ≡ (1, 0))
unfolding resolve_tbox_generic_transport
resolve-IsAllocated spec out f h = ground arith

-- Every configuration with allocated ids is resolved.
pub allocated_resolved :
    (spec : GenericTransportSpec)
    → IsAllocated spec
    → resolve_tbox_generic_transport spec ≡ returned true (address_of spec)
unfolding resolve_tbox_generic_transport
allocated_resolved spec a = ground (
  arith, a.method_above, a.method_below, a.event_above, a.event_below, a.eventgroup_above,
  a.eventgroup_below, a.major,
)

-- The resolution returns false only when no id is declared, and `out` is then the default address.
pub unresolved_undeclared :
    (spec : GenericTransportSpec) (out : TboxGenericTransportAddress)
    → resolve_tbox_generic_transport spec ≡ returned false out
    → (spec.method_id ≡ 0)
      × (spec.event_id ≡ 0)
      × (spec.eventgroup_id ≡ 0)
      × (out ≡ default_address)
unfolding resolve_tbox_generic_transport
unresolved_undeclared spec out h = ground arith
