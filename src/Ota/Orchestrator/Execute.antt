-- ===== src/Ota/Orchestrator/Execute.antt =====
-- The execution: `doExecute`.
use iov_vehicle_cgw_fota.Prelude.{
  String, Bool, true, false, not, Option, none, some, ltb, if◌then◌else◌,
}
use iov_vehicle_cgw_fota.Prelude.Text.{join}
use iov_vehicle_cgw_fota.Store.CloudState.{FotaEventOutboxMeta, save_event_outbox_meta}
use iov_vehicle_cgw_fota.Ota.State.Execution.{
  ExecutionState, permit_persisted, ready, install_started,
}
use iov_vehicle_cgw_fota.Ota.Ports.{StartResult, PrepareResult, prepare}
use iov_vehicle_cgw_fota.Ota.Orchestrator.System.{
  M, StepOutcome, outcome, ◌>>=◌, ◌>>◌, pure, gets, modify, update_store, call,
}
use iov_vehicle_cgw_fota.Ota.Orchestrator.Persist.{persist_execution}
use iov_vehicle_cgw_fota.Ota.Orchestrator.Outbox.{
  Sending, outbox_meta, start_executor, send_pending,
}
use iov_vehicle_cgw_fota.Ota.Orchestrator.Finalize.{do_finalize}

-- The states in which the executor is still to be prepared and started.
abbrev pub is_unstarted : ExecutionState → Bool
is_unstarted permit_persisted = true
is_unstarted ready = true
is_unstarted _ = false

abbrev pub execute_error : String → StepOutcome
execute_error why = record (outcome "execute") { error = why }

-- Prepare and start: `none` is success, and `some` the early return.
unfoldable pub start_answered : StartResult → M (Option StepOutcome)
start_answered st =
    if not st.started
    then pure (some (execute_error (join "executor start failed: " st.reason)))
    else (do modify (λ s. record s { ex_state = install_started }); persist_execution; pure none)

unfoldable pub prepare_answered : PrepareResult → M (Option StepOutcome)
prepare_answered prep =
    if not prep.ready
    then pure (some (execute_error (join "executor prepare failed: " prep.reason)))
    else (do st ← start_executor; start_answered st)

unfoldable pub launch : M (Option StepOutcome)
launch = do
  task ← gets (λ s. s.frozen_task)
  prep ← call (prepare task) (λ p. p.prepared)
  prepare_answered prep

-- The watermark in the store catches up with the one in memory.
unfoldable pub advance_watermark : FotaEventOutboxMeta → M Unit
advance_watermark meta = do
  accepted ← gets (λ s. s.accepted_seq)
  if ltb meta.accepted_sequence_no accepted
      then update_store (save_event_outbox_meta (record meta { accepted_sequence_no = accepted }))
      else pure tt

unfoldable pub sent : Sending → M StepOutcome
sent sending =
    if sending.send_error
    then (do
      s ← gets (λ s. s)
      pure (record (outcome "execute") {
        vehicle_task_state = s.vt_state;
        execution_state = s.ex_state;
        error = sending.error;
        transport_failed = sending.transport_failed;
      }))
    else do_finalize

-- The part of `doExecute` after the executor has been started.
unfoldable pub report_events : M StepOutcome
report_events = do
  meta ← gets outbox_meta
  sending ← send_pending meta.next_sequence_no
  advance_watermark meta
  persist_execution
  sent sending

unfoldable pub launched : Option StepOutcome → M StepOutcome
launched none = report_events
launched (some failure) = pure failure

unfoldable pub launch_if : Bool → M (Option StepOutcome)
launch_if true = launch
launch_if false = pure none

unfoldable pub do_execute : M StepOutcome
do_execute = do ex ← gets (λ s. s.ex_state); failure ← launch_if (is_unstarted ex); launched failure
