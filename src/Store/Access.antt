-- ===== src/Store/Access.antt =====
-- The loads and the removals of `FotaCloudStateStore` (src/store/fota_cloud_state_store.cpp).
use iov_vehicle_cgw_fota.Prelude.{ℕ, String, Option, none, ◌==◌, str_eq, if◌then◌else◌}
use iov_vehicle_cgw_fota.Store.CloudState.{
  CloudStore, FotaVehicleTaskRecord, FotaInventoryRecord, FotaConsentRecord, FotaDownloadRecord,
  FotaExecutionRecord, FotaEventOutboxMeta, FotaEventOutboxRecord, FotaControlRecord,
  FotaPolicyRecord, FotaLogJobRecord,
}

abbrev load_vehicle_task : CloudStore → Option FotaVehicleTaskRecord
load_vehicle_task s = s.vehicle_task

abbrev remove_vehicle_task : CloudStore → CloudStore
remove_vehicle_task s = record s { vehicle_task = none }

abbrev load_inventory : CloudStore → Option FotaInventoryRecord
load_inventory s = s.inventory

abbrev remove_inventory : CloudStore → CloudStore
remove_inventory s = record s { inventory = none }

abbrev load_consent : CloudStore → Option FotaConsentRecord
load_consent s = s.consent

abbrev remove_consent : CloudStore → CloudStore
remove_consent s = record s { consent = none }

abbrev load_download : String → CloudStore → Option FotaDownloadRecord
load_download id s = s.downloads id

abbrev remove_download : String → CloudStore → CloudStore
remove_download id s = record s { downloads = λ k. if str_eq k id then none else s.downloads k }

abbrev load_execution : CloudStore → Option FotaExecutionRecord
load_execution s = s.execution

abbrev remove_execution : CloudStore → CloudStore
remove_execution s = record s { execution = none }

abbrev load_event_outbox_meta : CloudStore → Option FotaEventOutboxMeta
load_event_outbox_meta s = s.event_outbox_meta

abbrev load_event : ℕ → CloudStore → Option FotaEventOutboxRecord
load_event seq s = s.events seq

abbrev remove_event : ℕ → CloudStore → CloudStore
remove_event seq s = record s { events = λ k. if k == seq then none else s.events k }

abbrev load_control : ℕ → CloudStore → Option FotaControlRecord
load_control revision s = s.controls revision

abbrev remove_control : ℕ → CloudStore → CloudStore
remove_control revision s = record s {
  controls = λ k. if k == revision then none else s.controls k;
}

abbrev load_policy : CloudStore → Option FotaPolicyRecord
load_policy s = s.policy

abbrev remove_policy : CloudStore → CloudStore
remove_policy s = record s { policy = none }

abbrev load_log_job : String → CloudStore → Option FotaLogJobRecord
load_log_job id s = s.log_jobs id

abbrev remove_log_job : String → CloudStore → CloudStore
remove_log_job id s = record s { log_jobs = λ k. if str_eq k id then none else s.log_jobs k }
