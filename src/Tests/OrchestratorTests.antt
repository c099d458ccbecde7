-- ===== src/Tests/OrchestratorTests.antt =====
-- The theorems about the orchestrator at concrete inputs.
use iov_vehicle_cgw_fota.Prelude.{
  ℕ, suc, ◌≤◌, ◌≡◌, ◌≢◌, refl, ◌⊎◌, true, false, none, some, ◌∷◌, arith,
}
use iov_vehicle_cgw_fota.Ota.State.VehicleTask.{
  executing, discovered, download_pending, is_valid_vehicle_task_transition,
}
use iov_vehicle_cgw_fota.Ota.Ports.{now_ms, all_guards_passed}
use iov_vehicle_cgw_fota.Ota.Orchestrator.System.{System, Env}
use iov_vehicle_cgw_fota.Ota.Orchestrator.Persist.{
  persist_vehicle_task, persist_execution, execution_record,
}
use iov_vehicle_cgw_fota.Ota.Orchestrator.Permit.{
  window_open, permit_request, hold_permit, save_permit, permit_expired, guards_rechecked,
  expiry_rechecked, accept_permit, permit_allowed, permit_replied, guards_checked, window_checked,
  ask_permit, do_permit,
}
use iov_vehicle_cgw_fota.Ota.Orchestrator.Outbox.{
  emit, event_record, event_replied, send_payload, send_event, send_events, send_pending,
}
use iov_vehicle_cgw_fota.Ota.Orchestrator.Finalize.{
  log_granted, log_grant_request, do_log_upload, final_report, closed_execution, closed_task,
  close_execution, final_replied, do_finalize,
}
use iov_vehicle_cgw_fota.Ota.Orchestrator.Execute.{
  do_execute, launch_if, launched, report_events, advance_watermark, sent,
}
use iov_vehicle_cgw_fota.Ota.Orchestrator.Control.{on_control}
use iov_vehicle_cgw_fota.Ota.Orchestrator.Step.{step}
use iov_vehicle_cgw_fota.Ota.Orchestrator.Frames.{applies, is_final, count}
use iov_vehicle_cgw_fota.Ota.Orchestrator.Sequence.{IsNumbered, emit_lem, emit-IsNumbered}
use iov_vehicle_cgw_fota.Ota.Orchestrator.Numbering.{step-IsNumbered}
use iov_vehicle_cgw_fota.Ota.Orchestrator.Reporting.{AllSent, final_waits}
use iov_vehicle_cgw_fota.Ota.Orchestrator.Moves.{step_target, step_moves, step-IsValid}
use iov_vehicle_cgw_fota.Ota.Orchestrator.Permission.{IsPermitted, permit_answer, permission}
use iov_vehicle_cgw_fota.Ota.Orchestrator.Check.{do_consent, consent_replied}
use iov_vehicle_cgw_fota.Ota.Orchestrator.Consent.{IsDecided, consent_needed}
use iov_vehicle_cgw_fota.Ota.Orchestrator.Running.{IsRunning, running-IsNumbered}
use iov_vehicle_cgw_fota.Ota.Orchestrator.Commands.Once.{
  IsReached, begin, commanded, stepped, applied_once,
}
use iov_vehicle_cgw_fota.Ota.ProductionPorts.{is_idle, steps, production_never_executes}
use iov_vehicle_cgw_fota.Tests.Fixtures.{
  codec, command, consenting, asked, small_event, env, production, willing, start, waiting,
  installing,
}

waiting_executes : (do_permit env waiting).1.vt_state ≡ executing
unfolding do_permit ask_permit window_checked guards_checked permit_request permit_replied
    permit_allowed accept_permit save_permit hold_permit permit_expired expiry_rechecked
    guards_rechecked persist_vehicle_task persist_execution execution_record
waiting_executes = refl

permission_example :
    (window_open waiting.frozen_task.start_time_ms waiting.frozen_task.end_time_ms
        (env.ports.clock (now_ms ∷ waiting.history))
      ≡ true)
    × (env.ports.guards (all_guards_passed ∷ now_ms ∷ waiting.history) ≡ true)
    × IsPermitted codec (permit_answer env waiting) (do_permit env waiting).1
permission_example = permission env waiting (ground arith) waiting_executes

start-IsNumbered : IsNumbered 100 start
start-IsNumbered = record {
  positive = omega arith;
  bounded = omega arith;
  synced = refl;
  accepted_below = omega arith;
  saved_below = omega arith;
  fresh = λ j l. refl;
  unused = refl;
  keyed = λ j rec p. absurd (cc);
}

installing-IsNumbered : IsNumbered 100 installing
installing-IsNumbered = record {
  positive = omega arith;
  bounded = omega arith;
  synced = refl;
  accepted_below = omega arith;
  saved_below = omega arith;
  fresh = λ j l. refl;
  unused = refl;
  keyed = λ j rec p. absurd (cc);
}

-- The installation has reported an event.
abbrev reporting : System
reporting = (emit small_event env installing).1

reporting_ends : count is_final (do_execute env reporting).1.history ≡ 1
unfolding do_execute launch_if launched report_events send_pending send_events send_event
    send_payload event_replied advance_watermark persist_execution sent do_finalize final_report
    final_replied do_log_upload log_grant_request log_granted close_execution closed_execution
    closed_task persist_vehicle_task emit event_record execution_record
reporting_ends = refl

reporting_begins : count is_final reporting.history ≡ 0
unfolding emit
reporting_begins = refl

reporting-IsNumbered : IsNumbered 100 reporting
reporting-IsNumbered =
    emit-IsNumbered env (omega arith) small_event installing installing-IsNumbered

waits_example : AllSent (do_execute env reporting).1
waits_example =
    final_waits env (omega arith) reporting reporting-IsNumbered
      (omega (arith, reporting_ends, reporting_begins))

emit_example :
    let (accepted, t) = emit small_event env start in
    ((accepted ≡ false) × (t ≡ start) × (start.next_seq ≡ 101))
    ⊎ ((accepted ≡ true)
        × (start.next_seq ≤ 100)
        × (t.next_seq ≡ suc start.next_seq)
        × (start.store.events 1 ≡ none)
        × (t.store.events 1 ≡ some (event_record codec 1 small_event))
        × ((j : ℕ) → j ≢ 1 → t.store.events j ≡ start.store.events j))
emit_example = emit_lem small_event env start (omega arith) start-IsNumbered

step-IsNumbered_example : IsNumbered 100 (step env installing).1
step-IsNumbered_example = step-IsNumbered env (omega arith) installing installing-IsNumbered

commanded_twice :
    (e : Env) (s : System)
    → IsReached e s (on_control command e (step e (on_control command e s).1).1).1
commanded_twice e s = commanded command (stepped (commanded command begin))

applied_once_example :
    count
      (applies 5)
      (on_control command env (step env (on_control command env start).1).1).1.history
    ≤ 1
applied_once_example = applied_once 5 env start _ refl (commanded_twice env start)

moves_example :
    step_target discovered (step env (record start { vt_state = discovered })).1.vt_state ≡ true
moves_example = step_moves env (record start { vt_state = discovered })

valid_example :
    is_valid_vehicle_task_transition discovered
      (step env (record start { vt_state = discovered })).1.vt_state
    ≡ true
valid_example = step-IsValid env (record start { vt_state = discovered }) refl

production_example : is_idle (steps 9 production waiting).vt_state ≡ true
production_example = production_never_executes 9 willing production waiting refl refl

asked_downloads : (do_consent consenting asked).1.vt_state ≡ download_pending
unfolding do_consent consent_replied persist_vehicle_task
asked_downloads = refl

consent_example :
    IsDecided "CONSENT_STATUS_ACCEPTED" "DOWNLOAD_PENDING" (do_consent consenting asked).1
consent_example = consent_needed consenting asked (ground arith) asked_downloads

-- A command, an event and a step, in this order.
abbrev commanded_system : System
commanded_system = (on_control command env start).1

abbrev running_system : System
running_system = (step env (emit small_event env commanded_system).1).1

running_system-IsRunning : IsRunning env start running_system
running_system-IsRunning =
    IsRunning.stepped
      (IsRunning.emitted small_event (IsRunning.commanded command IsRunning.created))

running-IsNumbered_example : IsNumbered 100 running_system
running-IsNumbered_example =
    running-IsNumbered env running_system (omega arith) running_system-IsRunning
