-- ===== src/Ota/Orchestrator/Consent.antt =====
-- What `doConsent` needs to go on to the download, and what is saved by then.
use iov_vehicle_cgw_fota.Prelude.{String, ◌≡◌, ◌≢◌, refl, some, arith}
use iov_vehicle_cgw_fota.Store.CloudState.{FotaConsentRecord, FotaVehicleTaskRecord}
use iov_vehicle_cgw_fota.Ota.State.VehicleTask.{download_pending, vehicle_task_state_to_string}
use iov_vehicle_cgw_fota.Ota.Messages.{
  ConsentStatus, consent_unspecified, consent_none, consent_accepted, consent_rejected,
  consent_revoked, consent_unrecognized, ConsentResponse,
}
use iov_vehicle_cgw_fota.Ota.Ports.{Reply, ConsentTermsId}
use iov_vehicle_cgw_fota.Ota.Orchestrator.System.{System, Env}
use iov_vehicle_cgw_fota.Ota.Orchestrator.Persist.{persist_vehicle_task}
use iov_vehicle_cgw_fota.Ota.Orchestrator.Check.{consent_replied, do_consent}

-- The store has a consent with this effective status for the task, and the task in this state.
pub record IsDecided (status state : String) (t : System) : Type 0 where
  pub consent : FotaConsentRecord
  pub consent_saved : t.store.consent ≡ some consent
  pub status_saved : consent.effective_status ≡ status
  pub same_task : consent.vehicle_task_id ≡ t.frozen_task.vehicle_task_id
  pub task : FotaVehicleTaskRecord
  pub task_saved : t.store.vehicle_task ≡ some task
  pub state_saved : task.vehicle_task_state ≡ state

module _ (terms : ConsentTermsId) (e : Env) (s : System) where
  answered-IsDecided :
      (resp : ConsentResponse) (status : ConsentStatus)
      → resp.effective_consent_status ≡ status
      → (consent_replied terms (Reply.response resp) e s).1.vt_state ≡ download_pending
      → IsDecided "CONSENT_STATUS_ACCEPTED" "DOWNLOAD_PENDING"
          (consent_replied terms (Reply.response resp) e s).1
  unfolding consent_replied persist_vehicle_task vehicle_task_state_to_string
  answered-IsDecided resp consent_accepted h d = record {
    consent = _;
    consent_saved = refl;
    status_saved = simp h refl;
    same_task = refl;
    task = _;
    task_saved = refl;
    state_saved = simp h refl;
  }
  answered-IsDecided resp consent_unspecified h d = absurd (ground arith)
  answered-IsDecided resp consent_none h d = absurd (ground arith)
  answered-IsDecided resp consent_rejected h d = absurd (ground arith)
  answered-IsDecided resp consent_revoked h d = absurd (ground arith)
  answered-IsDecided resp (consent_unrecognized n) h d = absurd (ground arith)

  replied-IsDecided :
      (reply : Reply ConsentResponse)
      → s.vt_state ≢ download_pending
      → (consent_replied terms reply e s).1.vt_state ≡ download_pending
      → IsDecided "CONSENT_STATUS_ACCEPTED" "DOWNLOAD_PENDING" (consent_replied terms reply e s).1
  unfolding consent_replied
  replied-IsDecided (Reply.fault w) n d = absurd (n d)
  replied-IsDecided (Reply.response resp) n d =
      answered-IsDecided resp resp.effective_consent_status refl d

-- When `doConsent` takes a task that is not in DOWNLOAD_PENDING there, the store has the consent of
-- this task with the effective status ACCEPTED, and the task in DOWNLOAD_PENDING.
pub consent_needed :
    (e : Env) (s : System)
    → s.vt_state ≢ download_pending
    → (do_consent e s).1.vt_state ≡ download_pending
    → IsDecided "CONSENT_STATUS_ACCEPTED" "DOWNLOAD_PENDING" (do_consent e s).1
unfolding do_consent
consent_needed e s n d = replied-IsDecided _ e _ _ n d
