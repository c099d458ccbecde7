-- ===== src/Config/From.antt =====
-- `FotaConfig::from`, section by section in its order (src/config/fota_config.cpp).
use iov_vehicle_cgw_fota.Prelude.{Bool, true, false, not, ◌&&◌, ◌||◌, [], ◌∷◌, if◌then◌else◌}
use iov_vehicle_cgw_fota.Prelude.Int.{ℤ, pos, is_zero, to_u64}
use iov_vehicle_cgw_fota.Prelude.Result.{Result, ok, thrown, fota_config_exception, ◌>>=◌, ◌>>◌}
use iov_vehicle_cgw_fota.Someip.GenericTransport.{GenericTransportSpec}
use iov_vehicle_cgw_fota.Config.FotaConfig.{
  ConfigSnapshot, CloudConfig, SomeIpTransportConfig, MockConfig, InventoryConfig, DiagConfig,
  FotaConfig,
}
use iov_vehicle_cgw_fota.Config.Checks.{
  int64_max, to_u32, to_u16, require_range, reject_unknown, ranged,
}

unfoldable pub inventory_from : ConfigSnapshot → Result InventoryConfig
inventory_from s = do
  reject_unknown s "fota.inventory" (
      "change_detection_enabled" ∷ "min_report_interval_ms" ∷ "max_pending_requests"
      ∷ "dedupe_max_entries" ∷ "dedupe_ttl_ms" ∷ [])
  changes ← s.bool_or "fota.inventory.change_detection_enabled" true
  interval ← ranged s "fota.inventory.min_report_interval_ms" (pos 300000) (pos 0) int64_max
  pending ← ranged s "fota.inventory.max_pending_requests" (pos 32) (pos 1) (pos 1024)
  entries ← ranged s "fota.inventory.dedupe_max_entries" (pos 100) (pos 1) (pos 1024)
  ttl ← ranged s "fota.inventory.dedupe_ttl_ms" (pos 3600000) (pos 0) int64_max
  ok (record {
    change_detection_enabled = changes;
    min_report_interval = interval;
    max_pending_requests = to_u32 pending;
    dedupe_max_entries = to_u32 entries;
    dedupe_ttl_ms = ttl;
  })

unfoldable pub diag_from : ConfigSnapshot → Result DiagConfig
diag_from s = do
  reject_unknown s "fota.diag"
      ("collect_timeout_ms" ∷ "retry_max_attempts" ∷ "retry_backoff_ms" ∷ [])
  timeout ← ranged s "fota.diag.collect_timeout_ms" (pos 30000) (pos 1) int64_max
  attempts ← ranged s "fota.diag.retry_max_attempts" (pos 2) (pos 0) (pos 10)
  backoff ← ranged s "fota.diag.retry_backoff_ms" (pos 1000) (pos 0) int64_max
  ok (record {
    diag_collect_timeout = timeout;
    diag_retry = record { max_attempts = to_u32 attempts; backoff = backoff };
  })

unfoldable pub transport_from : ConfigSnapshot → Result SomeIpTransportConfig
transport_from s = do
  reject_unknown s "fota.someip.transport" (
      "exchange_timeout_ms" ∷ "max_envelope_bytes" ∷ "max_payload_bytes" ∷ "max_in_flight"
      ∷ "downlink_queue_capacity" ∷ "downlink_workers" ∷ "in_flight_ttl_ms" ∷ "availability_wait_ms"
      ∷ [])
  timeout ← ranged s "fota.someip.transport.exchange_timeout_ms" (pos 10000) (pos 1) int64_max
  envelope ← ranged s "fota.someip.transport.max_envelope_bytes" (pos 262144) (pos 64) int64_max
  payload ← ranged s "fota.someip.transport.max_payload_bytes" (pos 262144) (pos 1) int64_max
  in_flight ← ranged s "fota.someip.transport.max_in_flight" (pos 64) (pos 1) (pos 1024)
  queue ← ranged s "fota.someip.transport.downlink_queue_capacity" (pos 256) (pos 1) (pos 1048576)
  workers ← ranged s "fota.someip.transport.downlink_workers" (pos 1) (pos 1) (pos 64)
  ttl ← ranged s "fota.someip.transport.in_flight_ttl_ms" (pos 30000) (pos 1) int64_max
  wait ← ranged s "fota.someip.transport.availability_wait_ms" (pos 5000) (pos 1) int64_max
  ok (record {
    exchange_timeout = timeout;
    max_envelope_bytes = to_u64 envelope;
    max_payload_bytes = to_u64 payload;
    max_in_flight = to_u64 in_flight;
    downlink_queue_capacity = to_u64 queue;
    downlink_workers = to_u64 workers;
    in_flight_ttl = ttl;
    availability_wait = wait;
  })

abbrev pub unallocated : GenericTransportSpec
unallocated = record { method_id = 0; event_id = 0; eventgroup_id = 0; interface_major = 1 }

-- The ids as they were read.
unfoldable pub allocated : ℤ → ℤ → ℤ → ℤ → Result GenericTransportSpec
unfolding require_range
allocated m e g iv =
    if is_zero m || is_zero e || is_zero g
    then thrown (
        fota_config_exception
          "fota.someip.generic_transport: partial Registry allocation (method_id/event_id/eventgroup_id must all be non-zero)")
    else do
      require_range "fota.someip.generic_transport.method_id" m (pos 1) (pos 32767)
      require_range "fota.someip.generic_transport.event_id" e (pos 32768) (pos 65534)
      require_range "fota.someip.generic_transport.eventgroup_id" g (pos 1) (pos 65534)
      require_range "fota.someip.generic_transport.interface_major" iv (pos 1) (pos 255)
      ok (record {
        method_id = to_u16 m;
        event_id = to_u16 e;
        eventgroup_id = to_u16 g;
        interface_major = to_u32 iv;
      })

-- `if (m != 0 || e != 0 || g != 0)`
unfoldable pub ids_from : ℤ → ℤ → ℤ → ℤ → Result GenericTransportSpec
ids_from m e g iv =
    if not (is_zero m) || not (is_zero e) || not (is_zero g)
    then allocated m e g iv
    else ok unallocated

unfoldable pub generic_transport_from : ConfigSnapshot → Result GenericTransportSpec
generic_transport_from s = do
  reject_unknown s "fota.someip.generic_transport"
      ("method_id" ∷ "event_id" ∷ "eventgroup_id" ∷ "interface_major" ∷ [])
  m ← s.int_or "fota.someip.generic_transport.method_id" (pos 0)
  e ← s.int_or "fota.someip.generic_transport.event_id" (pos 0)
  g ← s.int_or "fota.someip.generic_transport.eventgroup_id" (pos 0)
  iv ← s.int_or "fota.someip.generic_transport.interface_major" (pos 1)
  ids_from m e g iv

unfoldable pub cloud_from : ConfigSnapshot → Result CloudConfig
cloud_from s = do
  if s.has "fota.ota"
      then thrown
          (fota_config_exception "fota.ota.* is legacy; use fota.cloud.* (CGW-FOTA-DSN-CR-011)")
      else ok tt
  reject_unknown s "fota.cloud" (
      "enabled" ∷ "protocol_version" ∷ "task_check_interval_ms" ∷ "reconcile_on_start"
      ∷ "event_outbox_max" ∷ "event_batch_max" ∷ "control_ack_timeout_ms" ∷ "cloud_call_timeout_ms"
      ∷ [])
  enabled ← s.bool_or "fota.cloud.enabled" true
  version ← s.string_or "fota.cloud.protocol_version" "fota-v1"
  interval ← ranged s "fota.cloud.task_check_interval_ms" (pos 60000) (pos 1) int64_max
  reconcile ← s.bool_or "fota.cloud.reconcile_on_start" true
  outbox ← ranged s "fota.cloud.event_outbox_max" (pos 4096) (pos 1) (pos 1048576)
  batch ← ranged s "fota.cloud.event_batch_max" (pos 64) (pos 1) (pos 65535)
  ack ← ranged s "fota.cloud.control_ack_timeout_ms" (pos 5000) (pos 1) int64_max
  call ← ranged s "fota.cloud.cloud_call_timeout_ms" (pos 10000) (pos 1) int64_max
  ok (record {
    enabled = enabled;
    protocol_version = version;
    task_check_interval = interval;
    reconcile_on_start = reconcile;
    event_outbox_max = to_u32 outbox;
    event_batch_max = to_u32 batch;
    control_ack_timeout = ack;
    cloud_call_timeout = call;
  })

-- `test_doubles` says whether FOTA_ENABLE_TEST_DOUBLES is defined.
unfoldable pub mock_from : Bool → ConfigSnapshot → Result MockConfig
mock_from test_doubles s = do
  reject_unknown s "fota.mock" ("enabled" ∷ "scenario_path" ∷ "virtual_clock" ∷ [])
  enabled ← s.bool_or "fota.mock.enabled" false
  path ← s.string_or "fota.mock.scenario_path" ""
  clock ← s.bool_or "fota.mock.virtual_clock" false
  if not test_doubles && enabled
      then thrown (
          fota_config_exception
            "fota.mock.enabled=true rejected in production build (FOTA_ENABLE_TEST_DOUBLES not defined)")
      else ok (record { enabled = enabled; scenario_path = path; virtual_clock = clock })

unfoldable pub from : Bool → ConfigSnapshot → Result FotaConfig
from test_doubles s = do
  reject_unknown s "fota" ("inventory" ∷ "diag" ∷ "someip" ∷ "log" ∷ "cloud" ∷ "mock" ∷ [])
  inventory ← inventory_from s
  store_root ← s.string_or "common.store.root" "/var/lib/cgw"
  diag ← diag_from s
  reject_unknown s "fota.someip" ("transport" ∷ "generic_transport" ∷ [])
  transport ← transport_from s
  generic_transport ← generic_transport_from s
  cloud ← cloud_from s
  mock ← mock_from test_doubles s
  ok (record {
    inventory = inventory;
    diag = diag;
    transport = transport;
    generic_transport = generic_transport;
    cloud = cloud;
    mock = mock;
    store_root = store_root;
  })
