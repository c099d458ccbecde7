-- ===== src/Config/FotaConfig.antt =====
-- The configuration that `FotaConfig::from` accepts (src/config/fota_config.cpp and
-- include/cgw/fota/config/fota_config.hpp). The snapshot of the framework is a parameter. A number of
-- milliseconds is signed; a cast to an unsigned type wraps.
use iov_vehicle_cgw_fota.Prelude.{ℕ, String, Bool, List}
use iov_vehicle_cgw_fota.Prelude.Int.{ℤ}
use iov_vehicle_cgw_fota.Prelude.Result.{Result}
use iov_vehicle_cgw_fota.Someip.GenericTransport.{GenericTransportSpec}

-- `ConfigSnapshot` of the framework: `keys`, `has` and `getOr`, which throws when a value is there
-- and has another type. An integer is an int64_t.
pub record ConfigSnapshot : Type 0 where
  pub keys : String → List String
  pub has : String → Bool
  pub bool_or : String → Bool → Result Bool
  pub int_or : String → ℤ → Result ℤ
  pub string_or : String → String → Result String

pub record RetryConfig : Type 0 where
  pub max_attempts : ℕ
  pub backoff : ℤ

pub record CloudConfig : Type 0 where
  pub enabled : Bool
  pub protocol_version : String
  pub task_check_interval : ℤ
  pub reconcile_on_start : Bool
  pub event_outbox_max : ℕ
  pub event_batch_max : ℕ
  pub control_ack_timeout : ℤ
  pub cloud_call_timeout : ℤ

pub record SomeIpTransportConfig : Type 0 where
  pub exchange_timeout : ℤ
  pub max_envelope_bytes : ℕ
  pub max_payload_bytes : ℕ
  pub max_in_flight : ℕ
  pub downlink_queue_capacity : ℕ
  pub downlink_workers : ℕ
  pub in_flight_ttl : ℤ
  pub availability_wait : ℤ

pub record MockConfig : Type 0 where
  pub enabled : Bool
  pub scenario_path : String
  pub virtual_clock : Bool

-- The `inventory.*` members of `FotaConfig`.
pub record InventoryConfig : Type 0 where
  pub change_detection_enabled : Bool
  pub min_report_interval : ℤ
  pub max_pending_requests : ℕ
  pub dedupe_max_entries : ℕ
  pub dedupe_ttl_ms : ℤ

-- The `diag.*` members of `FotaConfig`.
pub record DiagConfig : Type 0 where
  pub diag_collect_timeout : ℤ
  pub diag_retry : RetryConfig

pub record FotaConfig : Type 0 where
  pub inventory : InventoryConfig
  pub diag : DiagConfig
  pub transport : SomeIpTransportConfig
  pub generic_transport : GenericTransportSpec
  pub cloud : CloudConfig
  pub mock : MockConfig
  pub store_root : String
