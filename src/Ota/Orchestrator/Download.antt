-- ===== src/Ota/Orchestrator/Download.antt =====
-- Download and verification of the packages: `doDownload`.
use iov_vehicle_cgw_fota.Prelude.{
  ℕ, String, Bool, true, false, not, ◌&&◌, Option, none, some, List, [], ◌∷◌, ltb, str_eq,
  if◌then◌else◌,
}
use iov_vehicle_cgw_fota.Prelude.Int.{ℤ, is_zero}
use iov_vehicle_cgw_fota.Prelude.Text.{join, to_string}
use iov_vehicle_cgw_fota.Store.CloudState.{FotaDownloadRecord, default_download, save_download}
use iov_vehicle_cgw_fota.Ota.State.VehicleTask.{ready, downloading}
use iov_vehicle_cgw_fota.Ota.Messages.{
  PackageSummary, DownloadGrantRequest, DownloadGrantResponse, StageResultReport,
  StageResultResponse,
}
use iov_vehicle_cgw_fota.Ota.Ports.{
  Reply, response, fault, DownloadOutcome, request_download, download_and_verify,
  report_stage_result,
}
use iov_vehicle_cgw_fota.Ota.Orchestrator.System.{
  M, StepOutcome, outcome, ◌>>=◌, ◌>>◌, pure, gets, modify, update_store, call, read_clock,
  make_ctx,
}
use iov_vehicle_cgw_fota.Ota.Orchestrator.Persist.{persist_vehicle_task}

-- The record of a package: the stored one, or a new one.
unfoldable pub entry_of : PackageSummary → Option FotaDownloadRecord → FotaDownloadRecord
entry_of pkg (some entry) = entry
entry_of pkg none = record default_download {
  package_id = pkg.package_id;
  package_revision = pkg.package_revision;
  offset_scope = "STORED_OBJECT";
  verify_status = "PENDING";
  ready = false;
}

-- The request for a grant: an offset is resumed from, with the ETag that it belongs to.
unfoldable pub grant_request : PackageSummary → ℕ → FotaDownloadRecord → DownloadGrantRequest
grant_request pkg revision entry =
    let resumed = ltb 0 entry.current_offset_bytes in
    record {
      package_id = pkg.package_id;
      task_revision = revision;
      package_revision = entry.package_revision;
      current_etag = if resumed then some entry.etag else none;
      current_offset_bytes = if resumed then some entry.current_offset_bytes else none;
      offset_scope =
          if resumed
          then some (if str_eq entry.offset_scope "" then "STORED_OBJECT" else entry.offset_scope)
          else none;
      network_type = "LTE";
    }

-- A grant with another ETag starts the package over.
unfoldable pub renew : String → Option String → FotaDownloadRecord → FotaDownloadRecord
renew revision none entry = entry
renew revision (some etag) entry =
    if not (str_eq etag "") && not (str_eq etag entry.etag)
    then record entry {
      current_offset_bytes = 0;
      etag = etag;
      package_revision = if str_eq revision "" then entry.package_revision else revision;
    }
    else record entry { etag = etag }

unfoldable pub apply_grant : DownloadGrantResponse → FotaDownloadRecord → FotaDownloadRecord
apply_grant grant entry = renew grant.package_revision grant.etag entry

-- The report of a stage, completed where the downloader left a member unset.
unfoldable pub complete_report :
    PackageSummary → FotaDownloadRecord → ℤ → StageResultReport → StageResultReport
complete_report pkg entry now report = record report {
  stage_result_id =
      if str_eq report.stage_result_id ""
      then join "SR-" (join pkg.package_id (join "-" (to_string entry.current_offset_bytes)))
      else report.stage_result_id;
  verified_package_revision =
      if str_eq report.verified_package_revision ""
      then entry.package_revision
      else report.verified_package_revision;
  verified_at_ms = if is_zero report.verified_at_ms then now else report.verified_at_ms;
}

-- What the answer to a stage report makes of a package's record.
unfoldable pub stage_entry :
    StageResultReport → Bool → Bool → FotaDownloadRecord → FotaDownloadRecord
stage_entry report accepted succeeded entry =
    if accepted && succeeded
    then record entry {
      verify_status = "SUCCEEDED";
      ready = true;
      stage_result_id = report.stage_result_id;
      stage_result_digest_hex = report.stage_result_digest.value_hex;
    }
    else record entry { verify_status = "FAILED"; ready = false }

-- What the loop carries from package to package: `allReady` and `o.error`. `stopped` is the early
-- return of a transport failure.
pub data Progress : Type 0 where
  going : Bool → String → Progress
  stopped : String → Progress

-- The `catch` clauses of the loop.
unfoldable pub stop_download : FotaDownloadRecord → String → M Progress
stop_download entry what = do
  modify (λ s. record s { vt_state = downloading })
  update_store (save_download entry)
  pure (stopped what)

-- The end of the loop's body.
unfoldable pub close_package : DownloadOutcome → FotaDownloadRecord → Bool → String → M Progress
close_package out entry all_ready error =
    if out.all_stages_succeeded
    then (do update_store (save_download entry); pure (going all_ready error))
    else (do
      update_store (save_download (record entry { verify_status = "FAILED"; ready = false }))
      pure (
          going false
            (if str_eq out.error_detail "" then "download/verify failed" else out.error_detail)))

unfoldable pub stage_replied :
    DownloadOutcome
    → StageResultReport
    → Reply StageResultResponse
    → FotaDownloadRecord
    → Bool
    → String
    → M Progress
stage_replied out report (fault what) entry all_ready error = stop_download entry what
stage_replied out report (response resp) entry all_ready error =
    close_package out (stage_entry report resp.accepted out.all_stages_succeeded entry)
      (if resp.accepted && out.all_stages_succeeded then all_ready else false) error

unfoldable pub report_stage :
    PackageSummary
    → DownloadOutcome
    → Option StageResultReport
    → FotaDownloadRecord
    → Bool
    → String
    → M Progress
report_stage pkg out none entry all_ready error = close_package out entry all_ready error
report_stage pkg out (some report) entry all_ready error = do
  now ← if is_zero report.verified_at_ms then read_clock else pure report.verified_at_ms
  let full = complete_report pkg entry now report
  ctx ← make_ctx (join "sr-" pkg.package_id)
  reply ← call (report_stage_result full ctx) (λ p. p.stage_result)
  stage_replied out full reply entry all_ready error

unfoldable pub grant_replied :
    PackageSummary → Reply DownloadGrantResponse → FotaDownloadRecord → Bool → String → M Progress
grant_replied pkg (fault what) entry all_ready error = stop_download entry what
grant_replied pkg (response grant) entry all_ready error = do
  let granted = apply_grant grant entry
  out ← call (download_and_verify pkg grant granted.current_offset_bytes) (λ p. p.download)
  report_stage pkg out out.stage_result
      (record granted { current_offset_bytes = out.final_offset_bytes }) all_ready error

-- The body of the loop, for one package.
unfoldable pub download_package : PackageSummary → Bool → String → M Progress
download_package pkg all_ready error = do
  loaded ← gets (λ s. s.store.downloads pkg.package_id)
  let entry = entry_of pkg loaded
  if entry.ready then pure (going all_ready error) else do
    revision ← gets (λ s. s.frozen_task.task_revision)
    ctx ← make_ctx (join "dl-" pkg.package_id)
    reply ← call (request_download (grant_request pkg revision entry) ctx) (λ p. p.grant)
    grant_replied pkg reply entry all_ready error

-- The loop, from the packages that are left.
unfoldable pub download_packages : List PackageSummary → Progress → M Progress
download_packages pkgs (stopped what) e s = (stopped what, s)
download_packages [] (going all_ready error) e s = (going all_ready error, s)
download_packages (pkg ∷ pkgs) (going all_ready error) e s =
    let (progress, s') = download_package pkg all_ready error e s in
    download_packages pkgs progress e s'

-- The end of `doDownload`.
unfoldable pub finish_download : Progress → M StepOutcome
finish_download (stopped what) =
    pure (record (outcome "download") { error = what; transport_failed = true })
finish_download (going all_ready error) = do
  modify (λ s. record s { vt_state = if all_ready then ready else downloading })
  persist_vehicle_task "download"
  vt ← gets (λ s. s.vt_state)
  pure (record (outcome "download") { error = error; vehicle_task_state = vt })

unfoldable pub do_download : M StepOutcome
do_download = do
  pkgs ← gets (λ s. s.frozen_task.package_list)
  progress ← download_packages pkgs (going true "")
  finish_download progress
