-- ===== src/Ota/Orchestrator/Untouched/Detection.antt =====
-- Task detection, consent and download leave the events and the control commands alone.
use iov_vehicle_cgw_fota.Prelude.{
  ℕ, String, refl, Bool, true, Option, none, some, List, [], ◌∷◌, inl, inr, arith, Bool-cases,
}
use iov_vehicle_cgw_fota.Prelude.Int.{is_zero}
use iov_vehicle_cgw_fota.Store.CloudState.{FotaDownloadRecord}
use iov_vehicle_cgw_fota.Ota.Messages.{
  InventoryDisposition, TaskCheckRequest, TaskCheckResponse, ConsentResponse, PackageSummary,
  StageResultReport, StageResultResponse, DownloadGrantResponse,
}
use iov_vehicle_cgw_fota.Ota.Ports.{
  Reply, CollectedInventory, ConsentTermsId, DownloadOutcome, now_ms,
}
use iov_vehicle_cgw_fota.Ota.Orchestrator.System.{System, Env}
use iov_vehicle_cgw_fota.Ota.Orchestrator.Persist.{persist_vehicle_task}
use iov_vehicle_cgw_fota.Ota.Orchestrator.Check.{
  inventory_refused, freeze_task, check_task_answered, check_task_replied, do_check_task,
  consent_replied, do_consent,
}
use iov_vehicle_cgw_fota.Ota.Orchestrator.Download.{
  Progress, going, stopped, entry_of, stop_download, close_package, stage_replied, report_stage,
  grant_replied, download_package, download_packages, finish_download, do_download,
}
use iov_vehicle_cgw_fota.Ota.Orchestrator.Untouched.{
  IsUntouched, IsUntouched-trans, IsUntouched-refl, call-IsUntouched,
}

module _ (r : ℕ) (e : Env) where
  -- Task detection and consent.
  answered-IsUntouched :
      (inv : CollectedInventory) (req : TaskCheckRequest) (d : InventoryDisposition)
      (resp : TaskCheckResponse) (s : System)
      → IsUntouched r s (check_task_answered inv req d resp e s).1
  unfolding check_task_answered inventory_refused freeze_task persist_vehicle_task
  answered-IsUntouched inv req d resp s = ground arith

  pub check-IsUntouched : (s : System) → IsUntouched r s (do_check_task e s).1
  unfolding do_check_task
  check-IsUntouched s =
      IsUntouched-trans (call-IsUntouched _ refl)
        (IsUntouched-trans (call-IsUntouched _ refl) (replied _ _ _ _))
    where
      replied :
          (inv : CollectedInventory) (req : TaskCheckRequest) (reply : Reply TaskCheckResponse)
          (t : System)
          → IsUntouched r t (check_task_replied inv req reply e t).1
      replied inv req (Reply.fault w) t = unfold check_task_replied in IsUntouched-refl
      replied inv req (Reply.response x) t =
          unfold check_task_replied in answered-IsUntouched inv req x.inventory_disposition x t

  consent_replied-IsUntouched :
      (terms : ConsentTermsId) (reply : Reply ConsentResponse) (s : System)
      → IsUntouched r s (consent_replied terms reply e s).1
  unfolding consent_replied persist_vehicle_task
  consent_replied-IsUntouched terms (Reply.fault w) s = IsUntouched-refl
  consent_replied-IsUntouched terms (Reply.response x) s = ground arith

  pub consent-IsUntouched : (s : System) → IsUntouched r s (do_consent e s).1
  unfolding do_consent
  consent-IsUntouched s = IsUntouched-trans (call-IsUntouched _ refl) (
      IsUntouched-trans (call-IsUntouched now_ms refl)
        (IsUntouched-trans (call-IsUntouched _ refl) (consent_replied-IsUntouched _ _ _)))

  -- Download.
  stop-IsUntouched :
      (entry : FotaDownloadRecord) (w : String) (s : System)
      → IsUntouched r s (stop_download entry w e s).1
  unfolding stop_download
  stop-IsUntouched entry w s = ground arith

  close-IsUntouched :
      (out : DownloadOutcome) (entry : FotaDownloadRecord) (b : Bool) (w : String) (s : System)
      → IsUntouched r s (close_package out entry b w e s).1
  unfolding close_package
  close-IsUntouched out entry b w s = ground arith

  stage_replied-IsUntouched :
      (out : DownloadOutcome) (report : StageResultReport) (reply : Reply StageResultResponse)
      (entry : FotaDownloadRecord) (b : Bool) (w : String) (s : System)
      → IsUntouched r s (stage_replied out report reply entry b w e s).1
  unfolding stage_replied
  stage_replied-IsUntouched out report (Reply.fault x) entry b w s = stop-IsUntouched entry x s
  stage_replied-IsUntouched out report (Reply.response x) entry b w s =
      close-IsUntouched out _ _ w s

  report_stage-IsUntouched :
      (pkg : PackageSummary) (out : DownloadOutcome) (o : Option StageResultReport)
      (entry : FotaDownloadRecord) (b : Bool) (w : String) (s : System)
      → IsUntouched r s (report_stage pkg out o entry b w e s).1
  unfolding report_stage
  report_stage-IsUntouched pkg out none entry b w s = close-IsUntouched out entry b w s
  report_stage-IsUntouched pkg out (some report) entry b w s =
      elim (Bool-cases (is_zero report.verified_at_ms)) [
        | inl y ↦ simp y (
            IsUntouched-trans (call-IsUntouched now_ms refl) (
              IsUntouched-trans (call-IsUntouched _ refl)
                (stage_replied-IsUntouched out _ _ entry b w _)))
        | inr n ↦ simp n (
            IsUntouched-trans (call-IsUntouched _ refl)
              (stage_replied-IsUntouched out _ _ entry b w _))
      ]

  grant_replied-IsUntouched :
      (pkg : PackageSummary) (reply : Reply DownloadGrantResponse) (entry : FotaDownloadRecord)
      (b : Bool) (w : String) (s : System)
      → IsUntouched r s (grant_replied pkg reply entry b w e s).1
  unfolding grant_replied
  grant_replied-IsUntouched pkg (Reply.fault x) entry b w s = stop-IsUntouched entry x s
  grant_replied-IsUntouched pkg (Reply.response grant) entry b w s =
      IsUntouched-trans (call-IsUntouched _ refl) (report_stage-IsUntouched pkg _ _ _ b w _)

  package-IsUntouched :
      (pkg : PackageSummary) (b : Bool) (w : String) (s : System)
      → IsUntouched r s (download_package pkg b w e s).1
  unfolding download_package
  package-IsUntouched pkg b w s =
      elim (Bool-cases (entry_of pkg (s.store.downloads pkg.package_id)).ready) [
        | inl y ↦ simp y IsUntouched-refl
        | inr n ↦
            simp n (
              IsUntouched-trans (call-IsUntouched _ refl) (grant_replied-IsUntouched pkg _ _ b w _))
      ]

  packages-IsUntouched :
      (pkgs : List PackageSummary) (p : Progress) (s : System)
      → IsUntouched r s (download_packages pkgs p e s).1
  unfolding download_packages
  packages-IsUntouched pkgs (stopped w) s = IsUntouched-refl
  packages-IsUntouched [] (going b w) s = IsUntouched-refl
  packages-IsUntouched (pkg ∷ pkgs) (going b w) s =
      let (p, t) = download_package pkg b w e s in
      IsUntouched-trans (package-IsUntouched pkg b w s) (packages-IsUntouched pkgs p t)

  finish-IsUntouched : (p : Progress) (s : System) → IsUntouched r s (finish_download p e s).1
  unfolding finish_download persist_vehicle_task
  finish-IsUntouched (stopped w) s = IsUntouched-refl
  finish-IsUntouched (going b w) s = ground arith

  pub download-IsUntouched : (s : System) → IsUntouched r s (do_download e s).1
  unfolding do_download
  download-IsUntouched s =
      let (p, t) = download_packages s.frozen_task.package_list (going true "") e s in
      IsUntouched-trans (packages-IsUntouched _ _ s) (finish-IsUntouched p t)
