-- ===== src/Tests/ConfigTests.antt =====
-- The theorems about the configuration at a concrete snapshot.
use iov_vehicle_cgw_fota.Prelude.{
  ◌≡◌, ◌≢◌, ◌⊎◌, refl, String, true, false, [], ◌∷◌, str_eq, if◌then◌else◌,
}
use iov_vehicle_cgw_fota.Prelude.Int.{ℤ, pos}
use iov_vehicle_cgw_fota.Prelude.Result.{ok}
use iov_vehicle_cgw_fota.Someip.GenericTransport.{resolve_tbox_generic_transport}
use iov_vehicle_cgw_fota.Config.FotaConfig.{ConfigSnapshot, FotaConfig}
use iov_vehicle_cgw_fota.Config.Checks.{require_range, reject_unknown, ranged}
use iov_vehicle_cgw_fota.Config.From.{
  inventory_from, diag_from, transport_from, allocated, ids_from, generic_transport_from,
  cloud_from, mock_from, from,
}
use iov_vehicle_cgw_fota.Config.Bounds.{IsBounded, from-IsBounded}
use iov_vehicle_cgw_fota.Config.Ids.{refused_only_for_conflict}

-- A snapshot with some of the ids set and defaults for all else.
abbrev ids : String → ℤ → ℤ
ids key default =
    if str_eq key "fota.someip.generic_transport.method_id"
    then pos 1
    else if str_eq key "fota.someip.generic_transport.event_id"
    then pos 32769
    else if str_eq key "fota.someip.generic_transport.eventgroup_id"
    then pos 5
    else default

abbrev snapshot : ConfigSnapshot
snapshot = record {
  keys = λ section. if str_eq section "fota" then "someip" ∷ [] else [];
  has = λ key. false;
  bool_or = λ key default. ok default;
  int_or = λ key default. ok (ids key default);
  string_or = λ key default. ok default;
}

abbrev default_config : FotaConfig
default_config = record {
  inventory = record {
    change_detection_enabled = true;
    min_report_interval = pos 300000;
    max_pending_requests = 32;
    dedupe_max_entries = 100;
    dedupe_ttl_ms = pos 3600000;
  };
  diag = record {
    diag_collect_timeout = pos 30000;
    diag_retry = record { max_attempts = 2; backoff = pos 1000 };
  };
  transport = record {
    exchange_timeout = pos 10000;
    max_envelope_bytes = 262144;
    max_payload_bytes = 262144;
    max_in_flight = 64;
    downlink_queue_capacity = 256;
    downlink_workers = 1;
    in_flight_ttl = pos 30000;
    availability_wait = pos 5000;
  };
  generic_transport = record {
    method_id = 1;
    event_id = 32769;
    eventgroup_id = 5;
    interface_major = 1;
  };
  cloud = record {
    enabled = true;
    protocol_version = "fota-v1";
    task_check_interval = pos 60000;
    reconcile_on_start = true;
    event_outbox_max = 4096;
    event_batch_max = 64;
    control_ack_timeout = pos 5000;
    cloud_call_timeout = pos 10000;
  };
  mock = record { enabled = false; scenario_path = ""; virtual_clock = false };
  store_root = "/var/lib/cgw";
}

config_example : IsBounded false default_config
unfolding from inventory_from diag_from transport_from generic_transport_from ids_from allocated
    cloud_from mock_from reject_unknown ranged require_range
config_example = from-IsBounded false snapshot default_config refl

refused_example :
    (default_config.generic_transport.method_id ≡ 1)
    ⊎ (default_config.generic_transport.interface_major ≢ 1)
unfolding from inventory_from diag_from transport_from generic_transport_from ids_from allocated
    cloud_from mock_from reject_unknown ranged require_range resolve_tbox_generic_transport
refused_example =
    refused_only_for_conflict false snapshot default_config
      "fota.someip.generic_transport.method_id conflicts with local Registry allocation (TBOX_METHOD_REPORT_SOFTWARE_INVENTORY, contract A)"
      refl refl
