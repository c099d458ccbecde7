-- ===== src/Config/Bounds.antt =====
-- Every configuration that is accepted lies within its bounds.
use iov_vehicle_cgw_fota.Prelude.{◌≡◌, ◌≤◌, ◌<◌, ℕ, String, Bool, false, not, ◌&&◌, arith}
use mathlib.Core.Path.{subst}
use iov_vehicle_cgw_fota.Prelude.Int.{ℤ, pos, negsuc, ltb_ℤ, to_u64}
use iov_vehicle_cgw_fota.Prelude.Result.{Result, ok, thrown, OnReturn}
use iov_vehicle_cgw_fota.Config.FotaConfig.{
  ConfigSnapshot, CloudConfig, SomeIpTransportConfig, InventoryConfig, DiagConfig, FotaConfig,
}
use iov_vehicle_cgw_fota.Config.Checks.{int64_max, to_u32, require_range, ranged}
use iov_vehicle_cgw_fota.Config.From.{
  inventory_from, diag_from, transport_from, generic_transport_from, cloud_from, mock_from, from,
}

-- lo <= v <= hi
abbrev pub Within : ℤ → ℤ → ℤ → Type 0
Within lo hi v = (ltb_ℤ v lo ≡ false) × (ltb_ℤ hi v ≡ false)

ranged-Within :
    (s : ConfigSnapshot) (key : String) (default lo hi : ℤ)
    → OnReturn (Within lo hi) (ranged s key default lo hi)
unfolding ranged require_range
ranged-Within s key default lo hi = ground arith

-- A cast of what has been checked keeps the bounds.
u64-bounds :
    (lo hi : ℕ) (v : ℤ)
    → hi < 18446744073709551616
    → Within (pos lo) (pos hi) v
    → (lo ≤ to_u64 v) × (to_u64 v ≤ hi)
u64-bounds lo hi (pos n) h w = ground arith
u64-bounds lo hi (negsuc n) h w = absurd (cc)

u32-bounds :
    (lo hi : ℕ) (v : ℤ)
    → hi < 4294967296
    → Within (pos lo) (pos hi) v
    → (lo ≤ to_u32 v) × (to_u32 v ≤ hi)
u32-bounds lo hi (pos n) h w = ground arith
u32-bounds lo hi (negsuc n) h w = absurd (cc)

weaken :
    {A : Type 0} (P Q : A → Type 0) (m : Result A)
    → OnReturn P m
    → ((v : A) → P v → Q v)
    → OnReturn Q m
weaken P Q (ok v) p h = h v p
weaken P Q (thrown e) p h = tt

ranged-u64 :
    (s : ConfigSnapshot) (key : String) (default : ℤ) (lo hi : ℕ)
    → hi < 18446744073709551616
    → OnReturn (λ v. (lo ≤ to_u64 v) × (to_u64 v ≤ hi)) (ranged s key default (pos lo) (pos hi))
ranged-u64 s key default lo hi h =
    weaken (Within (pos lo) (pos hi)) _ (ranged s key default (pos lo) (pos hi))
      (ranged-Within s key default (pos lo) (pos hi)) (λ v w. u64-bounds lo hi v h w)

ranged-u32 :
    (s : ConfigSnapshot) (key : String) (default : ℤ) (lo hi : ℕ)
    → hi < 4294967296
    → OnReturn (λ v. (lo ≤ to_u32 v) × (to_u32 v ≤ hi)) (ranged s key default (pos lo) (pos hi))
ranged-u32 s key default lo hi h =
    weaken (Within (pos lo) (pos hi)) _ (ranged s key default (pos lo) (pos hi))
      (ranged-Within s key default (pos lo) (pos hi)) (λ v w. u32-bounds lo hi v h w)

pub record InventoryBounds (c : InventoryConfig) : Type 0 where
  pub interval : Within (pos 0) int64_max c.min_report_interval
  pub pending_above : 1 ≤ c.max_pending_requests
  pub pending_below : c.max_pending_requests ≤ 1024
  pub entries_above : 1 ≤ c.dedupe_max_entries
  pub entries_below : c.dedupe_max_entries ≤ 1024
  pub ttl : Within (pos 0) int64_max c.dedupe_ttl_ms

inventory_from-InventoryBounds : (s : ConfigSnapshot) → OnReturn InventoryBounds (inventory_from s)
unfolding inventory_from
inventory_from-InventoryBounds s = ground (
  arith,
  ranged-Within s "fota.inventory.min_report_interval_ms" (pos 300000) (pos 0) int64_max,
  ranged-u32 s "fota.inventory.max_pending_requests" (pos 32) 1 1024 (omega arith),
  ranged-u32 s "fota.inventory.dedupe_max_entries" (pos 100) 1 1024 (omega arith),
  ranged-Within s "fota.inventory.dedupe_ttl_ms" (pos 3600000) (pos 0) int64_max,
)

pub record DiagBounds (c : DiagConfig) : Type 0 where
  pub timeout : Within (pos 1) int64_max c.diag_collect_timeout
  pub attempts : c.diag_retry.max_attempts ≤ 10
  pub backoff : Within (pos 0) int64_max c.diag_retry.backoff

diag_from-DiagBounds : (s : ConfigSnapshot) → OnReturn DiagBounds (diag_from s)
unfolding diag_from
diag_from-DiagBounds s = ground (
  arith,
  ranged-Within s "fota.diag.collect_timeout_ms" (pos 30000) (pos 1) int64_max,
  ranged-u32 s "fota.diag.retry_max_attempts" (pos 2) 0 10 (omega arith),
  ranged-Within s "fota.diag.retry_backoff_ms" (pos 1000) (pos 0) int64_max,
)

pub record TransportBounds (c : SomeIpTransportConfig) : Type 0 where
  pub timeout : Within (pos 1) int64_max c.exchange_timeout
  pub envelope : 64 ≤ c.max_envelope_bytes
  pub payload : 1 ≤ c.max_payload_bytes
  pub in_flight_above : 1 ≤ c.max_in_flight
  pub in_flight_below : c.max_in_flight ≤ 1024
  pub queue_above : 1 ≤ c.downlink_queue_capacity
  pub queue_below : c.downlink_queue_capacity ≤ 1048576
  pub workers_above : 1 ≤ c.downlink_workers
  pub workers_below : c.downlink_workers ≤ 64
  pub ttl : Within (pos 1) int64_max c.in_flight_ttl
  pub wait : Within (pos 1) int64_max c.availability_wait

transport_from-TransportBounds : (s : ConfigSnapshot) → OnReturn TransportBounds (transport_from s)
unfolding transport_from
transport_from-TransportBounds s = ground (
  arith,
  ranged-Within s "fota.someip.transport.exchange_timeout_ms" (pos 10000) (pos 1) int64_max,
  ranged-u64 s "fota.someip.transport.max_envelope_bytes" (pos 262144) 64 9223372036854775807
      (omega arith),
  ranged-u64 s "fota.someip.transport.max_payload_bytes" (pos 262144) 1 9223372036854775807
      (omega arith),
  ranged-u64 s "fota.someip.transport.max_in_flight" (pos 64) 1 1024 (omega arith),
  ranged-u64 s "fota.someip.transport.downlink_queue_capacity" (pos 256) 1 1048576 (omega arith),
  ranged-u64 s "fota.someip.transport.downlink_workers" (pos 1) 1 64 (omega arith),
  ranged-Within s "fota.someip.transport.in_flight_ttl_ms" (pos 30000) (pos 1) int64_max,
  ranged-Within s "fota.someip.transport.availability_wait_ms" (pos 5000) (pos 1) int64_max,
)

pub record CloudBounds (c : CloudConfig) : Type 0 where
  pub interval : Within (pos 1) int64_max c.task_check_interval
  pub outbox_above : 1 ≤ c.event_outbox_max
  pub outbox_below : c.event_outbox_max ≤ 1048576
  pub batch_above : 1 ≤ c.event_batch_max
  pub batch_below : c.event_batch_max ≤ 65535
  pub ack : Within (pos 1) int64_max c.control_ack_timeout
  pub call : Within (pos 1) int64_max c.cloud_call_timeout

cloud_from-CloudBounds : (s : ConfigSnapshot) → OnReturn CloudBounds (cloud_from s)
unfolding cloud_from
cloud_from-CloudBounds s = ground (
  arith,
  ranged-Within s "fota.cloud.task_check_interval_ms" (pos 60000) (pos 1) int64_max,
  ranged-u32 s "fota.cloud.event_outbox_max" (pos 4096) 1 1048576 (omega arith),
  ranged-u32 s "fota.cloud.event_batch_max" (pos 64) 1 65535 (omega arith),
  ranged-Within s "fota.cloud.control_ack_timeout_ms" (pos 5000) (pos 1) int64_max,
  ranged-Within s "fota.cloud.cloud_call_timeout_ms" (pos 10000) (pos 1) int64_max,
)

mock_off :
    (t : Bool) (s : ConfigSnapshot) → OnReturn (λ c. (not t && c.enabled) ≡ false) (mock_from t s)
unfolding mock_from
mock_off t s = ground arith

-- Every number that is used to size or to time something lies within the documented range, and a
-- production build runs without test doubles.
pub record IsBounded (test_doubles : Bool) (c : FotaConfig) : Type 0 where
  pub inventory_bounds : InventoryBounds c.inventory
  pub diag_bounds : DiagBounds c.diag
  pub transport_bounds : TransportBounds c.transport
  pub cloud_bounds : CloudBounds c.cloud
  pub production : (not test_doubles && c.mock.enabled) ≡ false

-- What holds of every result holds of the one that is there.
pub of_return : {A : Type 0} (P : A → Type 0) (m : Result A) (v : A) → OnReturn P m → m ≡ ok v → P v
of_return P (ok a) v p h = subst P (cc) p
of_return P (thrown e) v p h = absurd (cc)

-- An accepted configuration has the sections that its parts return.
pub from_parts :
    (t : Bool) (s : ConfigSnapshot) (c : FotaConfig)
    → from t s ≡ ok c
    → (inventory_from s ≡ ok c.inventory)
      × (diag_from s ≡ ok c.diag)
      × (transport_from s ≡ ok c.transport)
      × (generic_transport_from s ≡ ok c.generic_transport)
      × (cloud_from s ≡ ok c.cloud)
      × (mock_from t s ≡ ok c.mock)
unfolding from
from_parts t s c h = ground arith

-- Every configuration that is accepted has its intervals, limits, capacities and retries within their
-- documented ranges, and in a build without test doubles they are switched off.
pub from-IsBounded :
    (test_doubles : Bool) (s : ConfigSnapshot) (c : FotaConfig)
    → from test_doubles s ≡ ok c
    → IsBounded test_doubles c
from-IsBounded t s c h =
    let (i, d, r, g, l, m) = from_parts t s c h in
    record {
      inventory_bounds =
          of_return _ (inventory_from s) c.inventory (inventory_from-InventoryBounds s) i;
      diag_bounds = of_return _ (diag_from s) c.diag (diag_from-DiagBounds s) d;
      transport_bounds =
          of_return _ (transport_from s) c.transport (transport_from-TransportBounds s) r;
      cloud_bounds = of_return _ (cloud_from s) c.cloud (cloud_from-CloudBounds s) l;
      production = of_return _ (mock_from t s) c.mock (mock_off t s) m;
    }
