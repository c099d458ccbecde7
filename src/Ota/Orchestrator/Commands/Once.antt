-- ===== src/Ota/Orchestrator/Commands/Once.antt =====
-- `onControl` within a run of the orchestrator.
use iov_vehicle_cgw_fota.Prelude.{
  ℕ, ◌≤◌, ◌≡◌, ◌≢◌, inl, inr, true, Option, none, some, [], ◌∷◌, ◌++◌, arith, Bool-cases, ◌==◌,
  is_some,
}
use iov_vehicle_cgw_fota.Ota.Messages.{ControlCommand, ExecutionEvent}
use iov_vehicle_cgw_fota.Store.CloudState.{
  save_control, FotaControlRecord, FotaVehicleTaskRecord, FotaExecutionRecord,
}
use iov_vehicle_cgw_fota.Ota.Ports.{Codec, ControlApplyOutcome, apply_control}
use iov_vehicle_cgw_fota.Ota.Orchestrator.System.{System, Env}
use iov_vehicle_cgw_fota.Ota.Orchestrator.Persist.{
  restore_execution, restore_watermarks, restore_rest, restart, restore, reconcile_on_start,
}
use iov_vehicle_cgw_fota.Ota.Orchestrator.Outbox.{emit}
use iov_vehicle_cgw_fota.Ota.Orchestrator.Control.{
  applied, control_record, control_applied, new_control, on_control, synchronize_policy,
}
use iov_vehicle_cgw_fota.Ota.Orchestrator.Step.{step}
use iov_vehicle_cgw_fota.Ota.Orchestrator.Frames.{applies, count, emit-IsKept}
use iov_vehicle_cgw_fota.Ota.Orchestrator.Untouched.Installation.{policy-IsUntouched}
use iov_vehicle_cgw_fota.Ota.Orchestrator.Commands.{
  IsOnce, SameCommands, IsOnce-same, of_untouched, of_kept, step-same,
}

unknown : (o : Option FotaControlRecord) → o ≡ none → is_some o ≢ true
unknown o n h = ground arith

module _ (r : ℕ) (e : Env) where
  -- The acknowledgement calls no executor, and the revision stays known.
  applied-IsOnce :
      (cmd : ControlCommand) (app : ControlApplyOutcome) (s : System)
      → IsOnce r s
      → IsOnce r (control_applied cmd app e s).1
  unfolding control_applied control_record
  applied-IsOnce cmd app s h = record {
    at_most = ground (arith, h.at_most);
    known = ground (arith, h.known);
  }

  new_count :
      (cmd : ControlCommand) (s : System)
      → s.store.controls cmd.control_revision ≡ none
      → IsOnce r s
      → cmd.control_revision ≡ r
      → count (applies r) s.history ≡ 0
  new_count cmd s n h same = elim (Bool-cases (count (applies r) s.history == 0)) [
    | inl y ↦ ground arith
    | inr m ↦ absurd (unknown (s.store.controls r) (rw same at n) (h.known (ground arith)))
  ]

  new-IsOnce :
      (cmd : ControlCommand) (s : System)
      → s.store.controls cmd.control_revision ≡ none
      → IsOnce r s
      → IsOnce r (new_control cmd e s).1
  unfolding new_control control_record
  new-IsOnce cmd s n h =
      let t = record s {
        store = save_control (control_record cmd) s.store;
        last_received_control_rev = cmd.control_revision;
        pending_control_ids = s.pending_control_ids ++ cmd.control_id ∷ [];
        history = apply_control cmd ∷ s.history;
      } in
      let k : IsOnce r t = record {
        at_most = ground (arith, h.at_most, new_count cmd s n h);
        known = λ l. ground (arith, h.known);
      } in
      elim (Bool-cases (applied (e.ports.control t.history).status)) [
        | inl y ↦ simp y (applied-IsOnce cmd _ t k)
        | inr m ↦ simp m k
      ]

  control-IsOnce :
      (cmd : ControlCommand) (s : System) → IsOnce r s → IsOnce r (on_control cmd e s).1
  unfolding on_control
  control-IsOnce cmd s h = elim (Bool-cases (is_some (s.store.controls cmd.control_revision))) [
    | inl y ↦ simp y h
    | inr n ↦ simp n (new-IsOnce cmd s (ground arith) h)
  ]

restored-same :
    (r : ℕ) (codec : Codec) (o : Option FotaExecutionRecord) (s : System)
    → SameCommands r s (restore_rest codec o s)
unfolding restore_rest restore_watermarks restore_execution
restored-same r codec o s = record { controls = ground arith; applied = ground arith }

restore-same :
    (r : ℕ) (codec : Codec) (o : Option FotaVehicleTaskRecord) (s : System)
    → SameCommands r s (restore codec o s)
unfolding restore restart
restore-same r codec none s = restored-same r codec _ s
restore-same r codec (some vt) s = record {
  controls = ground (arith, restored-same r codec s.store.execution _);
  applied = ground (arith, restored-same r codec s.store.execution _);
}

-- A system that the orchestrator, its callers and its executor can bring about from `start`: steps,
-- control commands, events, policy synchronizations and reconciliations, in any order.
pub data IsReached (e : Env) (start : System) : System → Type 0 where
  begin : IsReached e start start
  stepped : {s : System} → IsReached e start s → IsReached e start (step e s).1
  commanded :
      {s : System} (cmd : ControlCommand)
      → IsReached e start s
      → IsReached e start (on_control cmd e s).1
  emitted :
      {s : System} (evt : ExecutionEvent) → IsReached e start s → IsReached e start (emit evt e s).1
  synchronized : {s : System} → IsReached e start s → IsReached e start (synchronize_policy e s).1
  reconciled : {s : System} → IsReached e start s → IsReached e start (reconcile_on_start e s).1

reached-IsOnce :
    (r : ℕ) (e : Env) (start : System)
    → IsOnce r start
    → {s : System} → IsReached e start s
    → IsOnce r s
unfolding reconcile_on_start
reached-IsOnce r e start h begin = h
reached-IsOnce r e start h (stepped {s} x) =
    IsOnce-same (step-same r e s) (reached-IsOnce r e start h x)
reached-IsOnce r e start h (commanded {s} cmd x) =
    control-IsOnce r e cmd s (reached-IsOnce r e start h x)
reached-IsOnce r e start h (emitted {s} evt x) =
    IsOnce-same (of_kept (emit-IsKept r e evt s)) (reached-IsOnce r e start h x)
reached-IsOnce r e start h (synchronized {s} x) =
    IsOnce-same (of_untouched (policy-IsUntouched r e s)) (reached-IsOnce r e start h x)
reached-IsOnce r e start h (reconciled {s} x) =
    IsOnce-same (restore-same r e.codec s.store.vehicle_task s) (reached-IsOnce r e start h x)

-- From a system that has called nothing yet, in any order of steps, commands, events,
-- synchronizations and reconciliations, the executor is handed each control revision at most once.
pub applied_once :
    (r : ℕ) (e : Env) (start s : System)
    → start.history ≡ []
    → IsReached e start s
    → count (applies r) s.history ≤ 1
applied_once r e start s h x =
    (reached-IsOnce r e start
      (record { at_most = rw h (omega arith); known = rw h (λ l. absurd (omega arith)) }) x).at_most
