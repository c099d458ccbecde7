-- ===== src/Ota/Orchestrator/Transitions.antt =====
-- The moves of the vehicle task state in `step`.
use iov_vehicle_cgw_fota.Prelude.{
  String, List, [], ◌∷◌, ◌≡◌, refl, ◌⊎◌, inl, inr, Bool, Option, none, some, arith, Bool-cases,
}
use iov_vehicle_cgw_fota.Ota.State.VehicleTask.{
  VehicleTaskState, consent_pending, download_pending, downloading, ready, waiting_window,
  executing, ended,
}
use iov_vehicle_cgw_fota.Prelude.Int.{is_zero}
use iov_vehicle_cgw_fota.Store.CloudState.{FotaDownloadRecord}
use iov_vehicle_cgw_fota.Ota.Messages.{
  PackageSummary, InstallPermitResponse, StageResultReport, StageResultResponse,
  DownloadGrantResponse,
}
use iov_vehicle_cgw_fota.Ota.Ports.{Reply, DownloadOutcome}
use iov_vehicle_cgw_fota.Ota.Orchestrator.System.{System, Env}
use iov_vehicle_cgw_fota.Ota.Orchestrator.Persist.{persist_vehicle_task, persist_execution}
use iov_vehicle_cgw_fota.Ota.Orchestrator.Check.{
  do_check_task, do_consent, check_task_replied, check_task_answered, freeze_task,
  inventory_refused, consent_replied,
}
use iov_vehicle_cgw_fota.Ota.Orchestrator.Download.{
  Progress, going, stopped, download_package, grant_replied, stop_download, report_stage,
  stage_replied, close_package, download_packages, finish_download, do_download,
}
use iov_vehicle_cgw_fota.Ota.Orchestrator.Permit.{
  hold_permit, save_permit, permit_expired, guards_rechecked, expiry_rechecked, accept_permit,
  permit_allowed, permit_replied, guards_checked, window_checked, ask_permit, do_permit,
}

pub check_moves :
    (e : Env) (s : System)
    → ((do_check_task e s).1.vt_state ≡ s.vt_state)
      ⊎ ((do_check_task e s).1.vt_state ≡ consent_pending)
      ⊎ ((do_check_task e s).1.vt_state ≡ download_pending)
unfolding do_check_task check_task_replied check_task_answered inventory_refused freeze_task
    persist_vehicle_task
check_moves e s = ground arith

pub consent_moves :
    (e : Env) (s : System)
    → ((do_consent e s).1.vt_state ≡ s.vt_state)
      ⊎ ((do_consent e s).1.vt_state ≡ download_pending)
      ⊎ ((do_consent e s).1.vt_state ≡ ended)
unfolding do_consent consent_replied persist_vehicle_task
consent_moves e s = ground arith

-- The vehicle task state after a part of a method.
abbrev KeepsOr : VehicleTaskState → System → System → Type 0
KeepsOr v s t = (t.vt_state ≡ s.vt_state) ⊎ (t.vt_state ≡ v)

accept-vt :
    (resp : InstallPermitResponse) (e : Env) (s : System)
    → (accept_permit resp e s).1.vt_state ≡ executing
unfolding accept_permit save_permit hold_permit permit_expired expiry_rechecked guards_rechecked
    persist_vehicle_task persist_execution
accept-vt resp e s = ground arith

permit_replied-moves :
    (reply : Reply InstallPermitResponse) (e : Env) (s : System)
    → KeepsOr executing s (permit_replied reply e s).1
unfolding permit_replied permit_allowed
permit_replied-moves (Reply.fault w) e s = inl refl
permit_replied-moves (Reply.response r) e s = ground (arith, accept-vt r e s)

ask_moves : (e : Env) (s : System) → KeepsOr executing s (ask_permit e s).1
unfolding ask_permit window_checked guards_checked
ask_moves e s = grind (arith, permit_replied-moves)

pub permit_moves :
    (e : Env) (s : System)
    → ((s.vt_state ≡ ready) × ((do_permit e s).1.vt_state ≡ waiting_window))
      ⊎ ((do_permit e s).1.vt_state ≡ s.vt_state)
      ⊎ ((do_permit e s).1.vt_state ≡ executing)
unfolding do_permit persist_vehicle_task
permit_moves e s = ground (arith, ask_moves e s)

close-vt :
    (out : DownloadOutcome) (entry : FotaDownloadRecord) (b : Bool) (w : String) (e : Env)
    (s : System)
    → (close_package out entry b w e s).1.vt_state ≡ s.vt_state
unfolding close_package
close-vt out entry b w e s = ground arith

replied-moves :
    (out : DownloadOutcome) (report : StageResultReport) (reply : Reply StageResultResponse)
    (entry : FotaDownloadRecord) (b : Bool) (w : String) (e : Env) (s : System)
    → KeepsOr downloading s (stage_replied out report reply entry b w e s).1
unfolding stage_replied stop_download
replied-moves out report (Reply.fault what) entry b w e s = inr refl
replied-moves out report (Reply.response resp) entry b w e s = inl (close-vt out _ _ w e s)

stage-moves :
    (pkg : PackageSummary) (out : DownloadOutcome) (o : Option StageResultReport)
    (entry : FotaDownloadRecord) (b : Bool) (w : String) (e : Env) (s : System)
    → KeepsOr downloading s (report_stage pkg out o entry b w e s).1
unfolding report_stage
stage-moves pkg out none entry b w e s = inl (close-vt out entry b w e s)
stage-moves pkg out (some report) entry b w e s =
    elim (Bool-cases (is_zero report.verified_at_ms)) [
      | inl y ↦ rw y (replied-moves out _ _ entry b w e _)
      | inr n ↦ rw n (replied-moves out _ _ entry b w e _)
    ]

grant-moves :
    (pkg : PackageSummary) (reply : Reply DownloadGrantResponse) (entry : FotaDownloadRecord)
    (b : Bool) (w : String) (e : Env) (s : System)
    → KeepsOr downloading s (grant_replied pkg reply entry b w e s).1
unfolding grant_replied stop_download
grant-moves pkg (Reply.fault what) entry b w e s = inr refl
grant-moves pkg (Reply.response grant) entry b w e s = grind (arith, stage-moves)

package_moves :
    (pkg : PackageSummary) (b : Bool) (w : String) (e : Env) (s : System)
    → KeepsOr downloading s (download_package pkg b w e s).1
unfolding download_package
package_moves pkg b w e s = grind (arith, grant-moves)

packages_moves :
    (pkgs : List PackageSummary) (progress : Progress) (e : Env) (s : System)
    → ((download_packages pkgs progress e s).1.vt_state ≡ s.vt_state)
      ⊎ ((download_packages pkgs progress e s).1.vt_state ≡ downloading)
unfolding download_packages
packages_moves pkgs (stopped w) e s = inl refl
packages_moves [] (going b w) e s = inl refl
packages_moves (pkg ∷ pkgs) (going b w) e s =
    let (progress, s') = download_package pkg b w e s in
    ground (arith, package_moves pkg b w e s, packages_moves pkgs progress e s')

pub download_moves :
    (e : Env) (s : System)
    → ((do_download e s).1.vt_state ≡ s.vt_state)
      ⊎ ((do_download e s).1.vt_state ≡ downloading)
      ⊎ ((do_download e s).1.vt_state ≡ ready)
unfolding do_download finish_download persist_vehicle_task
download_moves e s = grind (arith, packages_moves)
