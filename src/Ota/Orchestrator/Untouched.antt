-- ===== src/Ota/Orchestrator/Untouched.antt =====
-- The methods that leave the events, the watermarks and the control commands alone.
pub mod Detection
pub mod Installation
use iov_vehicle_cgw_fota.Prelude.{
  ℕ, String, ◌≡◌, ◌⊎◌, refl, Bool, true, false, Option, none, some, List, [], ◌∷◌, inl, inr, arith,
  Bool-cases,
}
use iov_vehicle_cgw_fota.Prelude.Int.{ℤ, is_zero, ltb_ℤ}
use iov_vehicle_cgw_fota.Store.CloudState.{CloudStore, FotaDownloadRecord, FotaPolicyRecord}
use iov_vehicle_cgw_fota.Ota.State.VehicleTask
use iov_vehicle_cgw_fota.Ota.State.VehicleTask.{◌is◌}
use iov_vehicle_cgw_fota.Ota.Messages.{
  InventoryDisposition, TaskCheckRequest, TaskCheckResponse, VehicleTaskSnapshot, ConsentResponse,
  PackageSummary, StageResultReport, StageResultResponse, DownloadGrantResponse,
  InstallPermitResponse, FinalResultReport, FinalResultResponse, PolicyResponse, Outcome,
}
use iov_vehicle_cgw_fota.Ota.Ports.{
  Call, Reply, CollectedInventory, ConsentTermsId, DownloadOutcome, now_ms, all_guards_passed,
}
use iov_vehicle_cgw_fota.Ota.Orchestrator.System.{System, Env}
use iov_vehicle_cgw_fota.Ota.Orchestrator.Persist.{persist_vehicle_task, persist_execution}
use iov_vehicle_cgw_fota.Ota.Orchestrator.Check.{
  inventory_refused, freeze_task, check_task_answered, check_task_replied, do_check_task,
  consent_replied, do_consent,
}
use iov_vehicle_cgw_fota.Ota.Orchestrator.Download.{
  Progress, going, stopped, entry_of, stop_download, close_package, stage_replied, report_stage,
  grant_replied, download_package, download_packages, finish_download, do_download,
}
use iov_vehicle_cgw_fota.Ota.Orchestrator.Permit.{
  window_open, permit_expired, accept_permit, permit_replied, ask_permit, do_permit,
}
use iov_vehicle_cgw_fota.Ota.Orchestrator.Outbox.{outbox_meta}
use iov_vehicle_cgw_fota.Ota.Orchestrator.Control.{policy_replied, synchronize_policy}
use iov_vehicle_cgw_fota.Ota.Orchestrator.Frames.{applies, count}

-- From `s` to `t` no event, no watermark in memory and no control command has changed, no command was
-- applied, and a watermark in the store that agreed with the one in memory still does.
pub record IsUntouched (r : ℕ) (s t : System) : Type 0 where
  pub next_kept : t.next_seq ≡ s.next_seq
  pub accepted_kept : t.accepted_seq ≡ s.accepted_seq
  pub events_kept : t.store.events ≡ s.store.events
  pub synced_kept :
      (outbox_meta s).next_sequence_no ≡ s.next_seq → (outbox_meta t).next_sequence_no ≡ t.next_seq
  pub saved_kept :
      ((outbox_meta t).accepted_sequence_no ≡ (outbox_meta s).accepted_sequence_no)
      ⊎ ((outbox_meta t).accepted_sequence_no ≡ s.accepted_seq)
  pub controls_kept : t.store.controls ≡ s.store.controls
  pub applied_kept : count (applies r) t.history ≡ count (applies r) s.history

pub IsUntouched-trans :
    {r : ℕ} {s t u : System} → IsUntouched r s t → IsUntouched r t u → IsUntouched r s u
IsUntouched-trans h k = ground arith

pub IsUntouched-refl : {r : ℕ} {s : System} → IsUntouched r s s
IsUntouched-refl = ground arith

pub call-IsUntouched :
    {r : ℕ} {s : System} (c : Call)
    → applies r c ≡ false
    → IsUntouched r s (record s { history = c ∷ s.history })
call-IsUntouched c h = ground arith

module _ (r : ℕ) (e : Env) where
  pub persist_vehicle_task-IsUntouched :
      (a : String) (s : System) → IsUntouched r s (persist_vehicle_task a e s).1
  unfolding persist_vehicle_task
  persist_vehicle_task-IsUntouched a s = ground arith

  pub persist_execution-IsUntouched : (s : System) → IsUntouched r s (persist_execution e s).1
  unfolding persist_execution
  persist_execution-IsUntouched s = ground arith
