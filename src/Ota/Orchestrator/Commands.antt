-- ===== src/Ota/Orchestrator/Commands.antt =====
-- Control commands: which methods know of them, and which hand them to the executor.
pub mod Once
use iov_vehicle_cgw_fota.Prelude.{
  ℕ, zero, suc, ◌-◌, ◌≤◌, String, ◌≡◌, refl, ◌∙◌, sym, ap, inl, inr, Bool, true, false, Option,
  none, some, List, [], ◌∷◌, arith, Bool-cases, ◌==◌, is_some, if◌then◌else◌,
}
use iov_vehicle_cgw_fota.Store.CloudState.{CloudStore, FotaEventOutboxMeta}
use iov_vehicle_cgw_fota.Ota.State.VehicleTask
use iov_vehicle_cgw_fota.Ota.State.VehicleTask.{VehicleTaskState, is_terminal_vehicle_task_state}
use iov_vehicle_cgw_fota.Ota.Messages.{
  ControlCommand, ExecutionEvent, ControlAckStatus, ack_received,
}
use iov_vehicle_cgw_fota.Ota.Ports.{History, ControlApplyOutcome, apply_control, prepare}
use iov_vehicle_cgw_fota.Ota.Orchestrator.System.{System, Env, StepOutcome}
use iov_vehicle_cgw_fota.Ota.Orchestrator.Persist.{
  persist_execution, restore_execution, restore_watermarks, restore_rest, restart, restore,
  reconcile_on_start,
}
use iov_vehicle_cgw_fota.Ota.Orchestrator.Outbox.{
  Sending, all_sent, emit, outbox_meta, send_pending,
}
use iov_vehicle_cgw_fota.Ota.Orchestrator.Execute.{
  is_unstarted, start_answered, prepare_answered, launch, advance_watermark, sent, report_events,
  launched, launch_if, do_execute,
}
use iov_vehicle_cgw_fota.Ota.Orchestrator.Control.{
  ControlOutcome, control_record, control_applied, new_control, on_control, synchronize_policy,
}
use iov_vehicle_cgw_fota.Ota.Orchestrator.Step.{do_nothing, dispatch, step}
use iov_vehicle_cgw_fota.Ota.Orchestrator.Frames.{
  IsKept, applies, count, emit-IsKept, send_events-IsKept, start_executor-IsKept,
}
use iov_vehicle_cgw_fota.Ota.Orchestrator.Untouched.{IsUntouched}
use iov_vehicle_cgw_fota.Ota.Orchestrator.Untouched.Detection.{
  check-IsUntouched, consent-IsUntouched, download-IsUntouched,
}
use iov_vehicle_cgw_fota.Ota.Orchestrator.Untouched.Installation.{
  permit-IsUntouched, finalize-IsUntouched, policy-IsUntouched,
}

-- A command whose revision the store has is answered RECEIVED and changes nothing.
pub duplicate_ignored :
    (cmd : ControlCommand) (e : Env) (s : System)
    → is_some (s.store.controls cmd.control_revision) ≡ true
    → on_control cmd e s
      ≡ (record { status = ack_received; reason = "duplicate controlRevision" }, s)
unfolding on_control
duplicate_ignored cmd e s h = simp h refl

-- The commands of revision `r` that the executor has had, and what the store knows of them.
pub record IsOnce (r : ℕ) (s : System) : Type 0 where
  pub at_most : count (applies r) s.history ≤ 1
  pub known : 1 ≤ count (applies r) s.history → is_some (s.store.controls r) ≡ true

-- Two systems agree on the commands.
pub record SameCommands (r : ℕ) (s t : System) : Type 0 where
  pub controls : t.store.controls ≡ s.store.controls
  pub applied : count (applies r) t.history ≡ count (applies r) s.history

pub IsOnce-same : {r : ℕ} {s t : System} → SameCommands r s t → IsOnce r s → IsOnce r t
IsOnce-same k h = record {
  at_most = rw k.applied h.at_most;
  known = rw (k.controls, k.applied) h.known;
}

SameCommands-trans :
    {r : ℕ} {s t u : System} → SameCommands r s t → SameCommands r t u → SameCommands r s u
SameCommands-trans h k = record {
  controls = k.controls ∙ h.controls;
  applied = k.applied ∙ h.applied;
}

pub of_untouched : {r : ℕ} {s t : System} → IsUntouched r s t → SameCommands r s t
of_untouched u = record { controls = u.controls_kept; applied = u.applied_kept }

pub of_kept : {r : ℕ} {s t : System} → IsKept r s t → SameCommands r s t
of_kept u = record { controls = u.controls_kept; applied = u.applied_kept }

module _ (r : ℕ) (e : Env) where
  launch-same : (s : System) → SameCommands r s (launch e s).1
  unfolding launch prepare_answered start_answered persist_execution
  launch-same s =
      let h : History = prepare s.frozen_task ∷ s.history in
      let k = start_executor-IsKept r e (record s { history = h }) in
      record {
        controls = ground (arith, k.controls_kept);
        applied = ground (arith, k.applied_kept);
      }

  launch_if-same : (b : Bool) (s : System) → SameCommands r s (launch_if b e s).1
  unfolding launch_if
  launch_if-same true s = launch-same s
  launch_if-same false s = record { controls = refl; applied = refl }

  pending-same : (next : ℕ) (s : System) → SameCommands r s (send_pending next e s).1
  unfolding send_pending
  pending-same next s = of_kept (send_events-IsKept r e (next - 1) 1 all_sent s)

  advance-same :
      (meta : FotaEventOutboxMeta) (s : System) → SameCommands r s (advance_watermark meta e s).1
  unfolding advance_watermark
  advance-same meta s = record { controls = ground arith; applied = ground arith }

  persist-same : (s : System) → SameCommands r s (persist_execution e s).1
  unfolding persist_execution
  persist-same s = record { controls = refl; applied = refl }

  sent-same : (sending : Sending) (s : System) → SameCommands r s (sent sending e s).1
  unfolding sent
  sent-same sending s = elim (Bool-cases sending.send_error) [
    | inl y ↦ simp y (record { controls = refl; applied = refl })
    | inr n ↦ simp n (of_untouched (finalize-IsUntouched r e s))
  ]

  launched-same : (o : Option StepOutcome) (s : System) → SameCommands r s (launched o e s).1
  unfolding launched report_events
  launched-same none s =
      SameCommands-trans (pending-same _ s) (
        SameCommands-trans (advance-same _ _) (SameCommands-trans (persist-same _) (sent-same _ _)))
  launched-same (some failure) s = record { controls = refl; applied = refl }

  execute-same : (s : System) → SameCommands r s (do_execute e s).1
  unfolding do_execute
  execute-same s =
      SameCommands-trans (launch_if-same (is_unstarted s.ex_state) s) (launched-same _ _)

  dispatch-same : (vt : VehicleTaskState) (s : System) → SameCommands r s (dispatch vt e s).1
  unfolding dispatch do_nothing
  dispatch-same VehicleTask.no_task s = of_untouched (check-IsUntouched r e s)
  dispatch-same VehicleTask.discovered s = of_untouched (check-IsUntouched r e s)
  dispatch-same VehicleTask.consent_pending s = of_untouched (consent-IsUntouched r e s)
  dispatch-same VehicleTask.download_pending s = of_untouched (download-IsUntouched r e s)
  dispatch-same VehicleTask.downloading s = of_untouched (download-IsUntouched r e s)
  dispatch-same VehicleTask.ready s = of_untouched (permit-IsUntouched r e s)
  dispatch-same VehicleTask.waiting_window s = of_untouched (permit-IsUntouched r e s)
  dispatch-same VehicleTask.permit_pending s = of_untouched (permit-IsUntouched r e s)
  dispatch-same VehicleTask.executing s = execute-same s
  dispatch-same VehicleTask.retry_pending s =
      SameCommands-trans {s = s} (record { controls = refl; applied = refl })
        (of_untouched (permit-IsUntouched r e _))
  dispatch-same VehicleTask.rollback_pending s =
      SameCommands-trans {s = s} (record { controls = refl; applied = refl }) (execute-same _)
  dispatch-same VehicleTask.paused s = record { controls = refl; applied = refl }
  dispatch-same VehicleTask.completed s = record { controls = refl; applied = refl }
  dispatch-same VehicleTask.ended s = record { controls = refl; applied = refl }

  pub step-same : (s : System) → SameCommands r s (step e s).1
  unfolding step
  step-same s = elim (Bool-cases (is_terminal_vehicle_task_state s.vt_state)) [
    | inl y ↦ simp y (record { controls = refl; applied = refl })
    | inr n ↦ simp n (dispatch-same s.vt_state s)
  ]
