-- ===== src/Ota/Orchestrator/Step.antt =====
-- One step of the orchestrator: `step`.
use iov_vehicle_cgw_fota.Prelude.{true, if◌then◌else◌}
use iov_vehicle_cgw_fota.Ota.State.VehicleTask.{
  VehicleTaskState, no_task, discovered, consent_pending, download_pending, downloading, ready,
  waiting_window, permit_pending, executing, retry_pending, rollback_pending, paused, completed,
  ended, is_terminal_vehicle_task_state,
}
use iov_vehicle_cgw_fota.Ota.State.Execution.{rollback}
use iov_vehicle_cgw_fota.Ota.Orchestrator.System.{
  M, StepOutcome, outcome, ◌>>=◌, ◌>>◌, pure, gets, modify,
}
use iov_vehicle_cgw_fota.Ota.Orchestrator.Check.{do_check_task, do_consent}
use iov_vehicle_cgw_fota.Ota.Orchestrator.Download.{do_download}
use iov_vehicle_cgw_fota.Ota.Orchestrator.Permit.{do_permit}
use iov_vehicle_cgw_fota.Ota.Orchestrator.Execute.{do_execute}

-- `default:` of the `switch`
unfoldable pub do_nothing : M StepOutcome
do_nothing = do
  s ← gets (λ s. s)
  pure (record (outcome "noop") { vehicle_task_state = s.vt_state; execution_state = s.ex_state })

-- the `switch (vtState_)`
unfoldable pub dispatch : VehicleTaskState → M StepOutcome
dispatch no_task = do_check_task
dispatch discovered = do_check_task
dispatch consent_pending = do_consent
dispatch download_pending = do_download
dispatch downloading = do_download
dispatch ready = do_permit
dispatch waiting_window = do_permit
dispatch permit_pending = do_permit
dispatch executing = do_execute
dispatch retry_pending = do modify (λ s. record s { vt_state = permit_pending }); do_permit
dispatch rollback_pending = do
  modify (λ s. record s { ex_state = rollback; vt_state = executing })
  do_execute
dispatch paused = do_nothing
dispatch completed = do_nothing
dispatch ended = do_nothing

unfoldable pub step : M StepOutcome
step = do
  s ← gets (λ s. s)
  if is_terminal_vehicle_task_state s.vt_state
      then pure (record (outcome "terminal") {
        vehicle_task_state = s.vt_state;
        execution_state = s.ex_state;
        terminal = true;
      })
      else dispatch s.vt_state
