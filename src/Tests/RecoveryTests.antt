-- ===== src/Tests/RecoveryTests.antt =====
-- The theorems about the recovery of the report states at concrete inputs.
use iov_vehicle_cgw_fota.Prelude.{
  ◌≡◌, ◌≢◌, ◌≤◌, refl, String, true, false, [], ◌∷◌, none, some, length, position, arith,
}
use iov_vehicle_cgw_fota.Store.FotaState
use iov_vehicle_cgw_fota.Store.FotaState.{
  ActiveJobState, LastSuccessState, DedupeState, DedupeEntry, PersistedFingerprints, JobPhase,
  VinSource, BaselineSource, EcuStatus,
}
use iov_vehicle_cgw_fota.Store.FotaState.Names.{
  job_phase_to_string, trigger_reason_to_string, collection_status_to_string,
  version_source_to_string, ecu_status_to_string, vin_source_to_string, baseline_source_to_string,
}
use iov_vehicle_cgw_fota.Store.Serializer.Values.{
  validate_persisted_fingerprints, persisted_fingerprints_to_json, dedupe_entry_to_json,
}
use iov_vehicle_cgw_fota.Store.Serializer.Snapshot.{snapshot_to_json, ecu_entry_to_json}
use iov_vehicle_cgw_fota.Store.Serializer.LastSuccess.{encode_last_success, decode_last_success}
use iov_vehicle_cgw_fota.Store.Serializer.Dedupe.{encode_dedupe, decode_dedupe}
use iov_vehicle_cgw_fota.Store.Serializer.Envelope.{
  encode_envelope, parse_envelope_header, extract_payload,
}
use iov_vehicle_cgw_fota.Store.Serializer.ActiveJob.{encode_active_job, decode_active_job}
use iov_vehicle_cgw_fota.Store.FotaStateStore.{FotaStateStore}
use iov_vehicle_cgw_fota.Store.FotaStateStore.Records.{
  load_active_job, load_last_success, load_dedupe, save_dedupe, remove_active_job,
}
use iov_vehicle_cgw_fota.Tests.Libraries.{json_lib, device_store}
use iov_vehicle_cgw_fota.Store.FotaState.Names.{
  overall_result_from_string, baseline_source_from_string, ecu_status_from_string,
  job_phase_from_string, trigger_reason_from_string, version_source_from_string,
  vin_source_from_string,
}
use iov_vehicle_cgw_fota.Prelude.Int.{◌+ℤ◌}
use iov_vehicle_cgw_fota.Store.FotaStateRecovery.{
  clean_up, entry_of, evict, reconcile_completed, recover_job, recover_loaded, recover_unblocked,
  rolled_back,
}
use iov_vehicle_cgw_fota.Store.Serializer.LastSuccess.{last_success_json}
use iov_vehicle_cgw_fota.Store.Serializer.Dedupe.{dedupe_json}
use iov_vehicle_cgw_fota.Store.Serializer.ActiveJob.{active_job_json}
use iov_vehicle_cgw_fota.Store.Serializer.Snapshot.{ecu_entry_from_json, snapshot_from_json}
use iov_vehicle_cgw_fota.Store.Serializer.Values.{
  dedupe_entry_from_json, optional_at, persisted_fingerprints_from_json,
}
use iov_vehicle_cgw_fota.Tests.StateFixtures.{
  empty_device, job, last_success, window, job_bytes, last_bytes, window_bytes,
}
use iov_vehicle_cgw_fota.Store.FotaStateStore.{active_job_key, last_success_key, dedupe_key}
use iov_vehicle_cgw_fota.Store.FotaStateStore.Sequence.{load_sequence}
use iov_vehicle_cgw_fota.Store.FotaStateRecovery.{
  no_action, retry, plan_of, recover, with_entry, holds_report, plan_for, confirms,
}
use iov_vehicle_cgw_fota.Store.FotaStateRecovery.Window.{with_entry-bounded}
use iov_vehicle_cgw_fota.Store.FotaStateRecovery.Decisions.{
  IsConfirmed, recover-IsConfirmed, unfinished_kept,
}

-- A device that stopped with a job in the given phase, after the last success had been stored.
abbrev stopped_in : JobPhase → FotaStateStore device_store
stopped_in phase = record empty_device {
  store = record {
    files =
        (active_job_key, job_bytes phase)
        ∷ (last_success_key, last_bytes)
        ∷ (dedupe_key, window_bytes)
        ∷ [];
    full = false;
  };
}

bounded_example :
    (length (with_entry (job FotaState.completed_pending_cleanup) last_success window).entries ≤ 1)
    × (holds_report
          (with_entry (job FotaState.completed_pending_cleanup) last_success window).entries
          last_success
        ≡ true)
bounded_example =
    with_entry-bounded (job FotaState.completed_pending_cleanup) last_success window (omega arith)

unfinished_example :
    (retry ≢ no_action)
    × ((k : String)
        → device_store.contents
            (recover device_store json_lib (stopped_in FotaState.submit_unknown)).1.store
            k
          ≡ device_store.contents (stopped_in FotaState.submit_unknown).store k)
unfolding recover load_sequence load_last_success decode_last_success parse_envelope_header
    encode_last_success snapshot_to_json ecu_entry_to_json position collection_status_to_string
    baseline_source_to_string vin_source_to_string ecu_status_to_string version_source_to_string
    persisted_fingerprints_to_json encode_envelope extract_payload confirms holds_report plan_for
    with_entry load_active_job load_dedupe remove_active_job save_dedupe decode_active_job
    encode_active_job decode_dedupe encode_dedupe dedupe_entry_to_json
    validate_persisted_fingerprints job_phase_to_string trigger_reason_to_string
    overall_result_from_string baseline_source_from_string ecu_status_from_string
    job_phase_from_string trigger_reason_from_string version_source_from_string
    vin_source_from_string ◌+ℤ◌ clean_up entry_of evict reconcile_completed recover_job
    recover_loaded recover_unblocked rolled_back last_success_json dedupe_json active_job_json
    ecu_entry_from_json snapshot_from_json dedupe_entry_from_json optional_at
    persisted_fingerprints_from_json
unfinished_example =
    unfinished_kept device_store json_lib (job FotaState.submit_unknown)
      (stopped_in FotaState.submit_unknown) (job_bytes FotaState.submit_unknown)
      (plan_of retry (some (job FotaState.submit_unknown))
        "retry with original ids, result unknown")
      refl refl (cc) refl

recover-IsConfirmed_example :
    IsConfirmed device_store json_lib
      (some (job FotaState.completed_pending_cleanup))
      (some last_success)
unfolding recover load_sequence load_last_success decode_last_success parse_envelope_header
    encode_last_success snapshot_to_json ecu_entry_to_json position collection_status_to_string
    baseline_source_to_string vin_source_to_string ecu_status_to_string version_source_to_string
    persisted_fingerprints_to_json encode_envelope extract_payload confirms holds_report plan_for
    with_entry load_active_job load_dedupe remove_active_job save_dedupe decode_active_job
    encode_active_job decode_dedupe encode_dedupe dedupe_entry_to_json
    validate_persisted_fingerprints job_phase_to_string trigger_reason_to_string
    overall_result_from_string baseline_source_from_string ecu_status_from_string
    job_phase_from_string trigger_reason_from_string version_source_from_string
    vin_source_from_string ◌+ℤ◌ clean_up entry_of evict reconcile_completed recover_job
    recover_loaded recover_unblocked rolled_back last_success_json dedupe_json active_job_json
    ecu_entry_from_json snapshot_from_json dedupe_entry_from_json optional_at
    persisted_fingerprints_from_json
recover-IsConfirmed_example =
    recover-IsConfirmed device_store json_lib (stopped_in FotaState.completed_pending_cleanup)
      (job_bytes FotaState.completed_pending_cleanup)
      (plan_of no_action none "completed and cleaned up") refl refl refl
