-- ===== src/Ota/Orchestrator/Finalize.antt =====
-- The final result and the upload of the log: `doFinalize`, `doLogUpload`.
use iov_vehicle_cgw_fota.Prelude.{String, true, not, [], ◌∷◌, str_eq, if◌then◌else◌}
use iov_vehicle_cgw_fota.Prelude.Int.{ℤ, pos}
use iov_vehicle_cgw_fota.Prelude.Text.{join, repeat_text, to_string_ℤ}
use iov_vehicle_cgw_fota.Store.CloudState.{save_log_job}
use iov_vehicle_cgw_fota.Ota.State.VehicleTask.{
  VehicleTaskState, no_task, completed, ◌is◌, is_terminal_vehicle_task_state,
}
use iov_vehicle_cgw_fota.Ota.State.Execution.{
  ExecutionState, rollback, succeeded, failed, rolled_back,
}
use iov_vehicle_cgw_fota.Ota.State.StateProto.{
  VehicleTaskStatus, retry_pending, from_proto_vehicle_task,
}
use iov_vehicle_cgw_fota.Ota.Messages.{
  Outcome, result_succeeded, result_rolled_back, FinalResultReport, FinalResultResponse,
  LogGrantRequest, LogGrantResponse,
}
use iov_vehicle_cgw_fota.Ota.Ports.{
  Reply, response, fault, FinalResultData, LogPackage, read_final_result, report_final_result,
  request_log_upload, collect_log, report_log_upload,
}
use iov_vehicle_cgw_fota.Ota.Orchestrator.System.{
  System, M, StepOutcome, outcome, ◌>>=◌, ◌>>◌, pure, gets, modify, update_store, call, read_clock,
  make_ctx,
}
use iov_vehicle_cgw_fota.Ota.Orchestrator.Persist.{persist_vehicle_task, persist_execution}

abbrev algorithm_of : LogPackage → String
algorithm_of pkg = if str_eq pkg.algorithm "" then "sha-256" else pkg.algorithm

-- The end of `doLogUpload`, once the cloud has answered to the uploaded log.
unfoldable pub log_reported : String → LogGrantResponse → LogPackage → Reply Unit → M StepOutcome
log_reported log_id grant pkg (fault what) = pure (record (outcome "logUpload") { error = what })
log_reported log_id grant pkg (response r) = do
  completed_at ← read_clock
  update_store (
      save_log_job (record {
        log_request_id = log_id;
        object_key = grant.object_key;
        digest_hex = pkg.digest_hex;
        algorithm = algorithm_of pkg;
        size_bytes = pkg.size_bytes;
        status = "UPLOADED";
        completed_at_ms = completed_at;
      }))
  pure (outcome "logUpload")

-- The log has been collected: it is reported, unless there is none.
unfoldable pub log_collected : String → LogGrantResponse → LogPackage → M StepOutcome
log_collected log_id grant pkg =
    if not pkg.generated
    then pure (record (outcome "logUpload") { error = join "log collect failed: " pkg.error_code })
    else (do
      uploaded_at ← read_clock
      ctx ← make_ctx (join "logres-" log_id)
      reply ←
          call
            (report_log_upload
              (record {
                object_key = grant.object_key;
                upload_result = result_succeeded;
                actual_file_digest = record {
                  algorithm = algorithm_of pkg;
                  value_hex = pkg.digest_hex;
                };
                uploaded_at_ms = uploaded_at;
              })
              ctx)
            (λ p. p.log_result)
      log_reported log_id grant pkg reply)

unfoldable pub log_granted : String → LogGrantRequest → Reply LogGrantResponse → M StepOutcome
log_granted log_id req (fault what) = pure (record (outcome "logUpload") { error = what })
log_granted log_id req (response grant) = do
  pkg ←
      call
        (collect_log (record {
          collection_scope = req.collection_scope;
          start_at_ms = req.start_at_ms;
          end_at_ms = req.end_at_ms;
          redaction_profile_version = req.redaction_profile_version;
          log_type = req.log_type;
        }))
        (λ p. p.log_package)
  log_collected log_id grant pkg

unfoldable pub log_grant_request : String → ℤ → LogGrantRequest
log_grant_request log_id end_at = record {
  log_request_id = log_id;
  collection_scope = "cgw-fota" ∷ [];
  start_at_ms = pos 0;
  end_at_ms = end_at;
  redaction_profile_version = "v1";
  log_type = "fota";
  file_name = join "fota-" (join log_id ".log");
  mime_type = "text/plain";
  privacy_level = "pii-masked";
}

unfoldable pub do_log_upload : M StepOutcome
do_log_upload = do
  requested_at ← read_clock
  let log_id = join "LOG-" (to_string_ℤ requested_at)
  end_at ← read_clock
  let req = log_grant_request log_id end_at
  task ← gets (λ s. s.frozen_task)
  ctx ← make_ctx (join "log-" task.vehicle_task_id)
  reply ← call (request_log_upload req ctx) (λ p. p.log_grant)
  log_granted log_id req reply

-- The result that is reported for an execution.
abbrev pub reported_result : ExecutionState → Outcome
reported_result rollback = result_rolled_back
reported_result _ = result_succeeded

unfoldable pub final_report : FinalResultData → ℤ → System → FinalResultReport
final_report fin completed_at s = record {
  final_sequence_no = s.accepted_seq;
  last_received_control_revision = s.last_received_control_rev;
  last_applied_control_revision = s.last_applied_control_rev;
  pending_control_ids = s.pending_control_ids;
  result_digest = record { algorithm = "sha-256"; value_hex = repeat_text 64 "f" };
  result = reported_result s.ex_state;
  actual_baseline_code = fin.actual_baseline_code;
  baseline_status = fin.baseline_status;
  ecu_results = fin.ecu_results;
  started_at_ms = pos 0;
  completed_at_ms = completed_at;
  rollback_occurred = fin.rollback_occurred;
}

abbrev of_result : Outcome → ExecutionState
of_result result_rolled_back = rolled_back
of_result _ = succeeded

-- The execution state in which an execution is closed.
unfoldable pub closed_execution : VehicleTaskStatus → Outcome → ExecutionState
closed_execution retry_pending result = failed
closed_execution _ result = of_result result

-- The vehicle task state that the cloud's status stands for; NONE counts as completed.
unfoldable pub closed_task : VehicleTaskStatus → VehicleTaskState
closed_task status =
    let vt = from_proto_vehicle_task status in if vt is no_task then completed else vt

unfoldable pub close_execution : FinalResultResponse → Outcome → M StepOutcome
close_execution resp result = do
  modify (λ s. record s {
    ex_state = closed_execution resp.vehicle_task_status result;
    vt_state = closed_task resp.vehicle_task_status;
  })
  persist_vehicle_task "finalResult"
  persist_execution
  s ← gets (λ s. s)
  pure (record (outcome "finalResult") {
    vehicle_task_state = s.vt_state;
    execution_state = s.ex_state;
    terminal = is_terminal_vehicle_task_state s.vt_state;
  })

unfoldable pub final_replied : FinalResultReport → Reply FinalResultResponse → M StepOutcome
final_replied report (fault what) =
    pure (record (outcome "finalResult") { error = what; transport_failed = true })
final_replied report (response resp) =
    if not resp.result_accepted
    then pure (record (outcome "finalResult") { error = "final result not accepted" })
    else (do uploaded ← do_log_upload; close_execution resp report.result)

unfoldable pub do_finalize : M StepOutcome
do_finalize = do
  fin ← call read_final_result (λ p. p.final_data)
  completed_at ← read_clock
  report ← gets (final_report fin completed_at)
  id ← gets (λ s. s.execution_id)
  ctx ← make_ctx (join "final-" id)
  reply ← call (report_final_result report ctx) (λ p. p.final_result)
  final_replied report reply
