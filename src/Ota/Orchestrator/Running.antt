-- ===== src/Ota/Orchestrator/Running.antt =====
-- The outbox of an orchestrator that runs without a restart.
use iov_vehicle_cgw_fota.Prelude.{
  ℕ, ◌≡◌, refl, inl, inr, arith, Bool-cases, is_some, ◌∷◌, [], ◌∙◌, ◌++◌,
}
use iov_vehicle_cgw_fota.Store.CloudState.{empty_store, save_control}
use iov_vehicle_cgw_fota.Ota.Messages.{ControlCommand, ExecutionEvent}
use iov_vehicle_cgw_fota.Ota.Ports.{ControlApplyOutcome, apply_control}
use iov_vehicle_cgw_fota.Ota.Orchestrator.System.{System, Env, create}
use iov_vehicle_cgw_fota.Ota.Orchestrator.Outbox.{emit, outbox_meta}
use iov_vehicle_cgw_fota.Ota.Orchestrator.Control.{
  applied, control_record, control_applied, new_control, on_control, synchronize_policy,
}
use iov_vehicle_cgw_fota.Ota.Orchestrator.Step.{step}
use iov_vehicle_cgw_fota.Ota.Orchestrator.Untouched.Installation.{policy-IsUntouched}
use iov_vehicle_cgw_fota.Ota.Orchestrator.Sequence.{
  IsNumbered, FitsU32, emit-IsNumbered, IsUntouched-IsNumbered,
}
use iov_vehicle_cgw_fota.Ota.Orchestrator.Numbering.{step-IsNumbered}

-- What the numbering reads is the same.
record IsOutboxKept (s t : System) : Type 0 where
  next_kept : t.next_seq ≡ s.next_seq
  accepted_kept : t.accepted_seq ≡ s.accepted_seq
  events_kept : t.store.events ≡ s.store.events
  meta_kept : outbox_meta t ≡ outbox_meta s

kept-IsNumbered : {max : ℕ} {s t : System} → IsOutboxKept s t → IsNumbered max s → IsNumbered max t
kept-IsNumbered u h = record {
  positive = rw u.next_kept h.positive;
  bounded = rw u.next_kept h.bounded;
  synced = rw (u.meta_kept, u.next_kept) h.synced;
  accepted_below = rw (u.next_kept, u.accepted_kept) h.accepted_below;
  saved_below = rw (u.meta_kept, u.next_kept) h.saved_below;
  fresh = λ j l. rw u.events_kept (h.fresh j (rw u.next_kept at l));
  unused = rw u.events_kept h.unused;
  keyed = λ j rec p. h.keyed j rec (rw u.events_kept at p);
}

applied_kept :
    (cmd : ControlCommand) (app : ControlApplyOutcome) (e : Env) (s : System)
    → IsOutboxKept s (control_applied cmd app e s).1
unfolding control_applied
applied_kept cmd app e s = record {
  next_kept = refl;
  accepted_kept = refl;
  events_kept = refl;
  meta_kept = refl;
}

IsOutboxKept-trans : {s t u : System} → IsOutboxKept s t → IsOutboxKept t u → IsOutboxKept s u
IsOutboxKept-trans h k = record {
  next_kept = k.next_kept ∙ h.next_kept;
  accepted_kept = k.accepted_kept ∙ h.accepted_kept;
  events_kept = k.events_kept ∙ h.events_kept;
  meta_kept = k.meta_kept ∙ h.meta_kept;
}

IsOutboxKept-refl : {s : System} → IsOutboxKept s s
IsOutboxKept-refl = record {
  next_kept = refl;
  accepted_kept = refl;
  events_kept = refl;
  meta_kept = refl;
}

new_kept : (cmd : ControlCommand) (e : Env) (s : System) → IsOutboxKept s (new_control cmd e s).1
unfolding new_control
new_kept cmd e s =
    let t = record s {
      store = save_control (control_record cmd) s.store;
      last_received_control_rev = cmd.control_revision;
      pending_control_ids = s.pending_control_ids ++ cmd.control_id ∷ [];
      history = apply_control cmd ∷ s.history;
    } in
    let k : IsOutboxKept s t = record {
      next_kept = refl;
      accepted_kept = refl;
      events_kept = refl;
      meta_kept = refl;
    } in
    elim (Bool-cases (applied (e.ports.control t.history).status)) [
      | inl y ↦ simp y (IsOutboxKept-trans k (applied_kept cmd _ e t))
      | inr n ↦ simp n k
    ]

control_kept : (cmd : ControlCommand) (e : Env) (s : System) → IsOutboxKept s (on_control cmd e s).1
unfolding on_control
control_kept cmd e s = elim (Bool-cases (is_some (s.store.controls cmd.control_revision))) [
  | inl y ↦ simp y IsOutboxKept-refl
  | inr n ↦ simp n (new_kept cmd e s)
]

-- A system that an orchestrator with no restart can bring about from `start`.
pub data IsRunning (e : Env) (start : System) : System → Type 0 where
  created : IsRunning e start start
  stepped : {s : System} → IsRunning e start s → IsRunning e start (step e s).1
  commanded :
      {s : System} (cmd : ControlCommand)
      → IsRunning e start s
      → IsRunning e start (on_control cmd e s).1
  emitted :
      {s : System} (evt : ExecutionEvent) → IsRunning e start s → IsRunning e start (emit evt e s).1
  synchronized : {s : System} → IsRunning e start s → IsRunning e start (synchronize_policy e s).1

fresh-IsNumbered : (max : ℕ) → IsNumbered max (create empty_store)
fresh-IsNumbered max = record {
  positive = omega arith;
  bounded = omega arith;
  synced = refl;
  accepted_below = omega arith;
  saved_below = omega arith;
  fresh = λ j l. refl;
  unused = refl;
  keyed = λ j rec p. absurd (cc);
}

-- An orchestrator that starts on an empty store keeps its outbox numbered, in any order of steps,
-- commands, events and synchronizations: the watermarks stay below the next number, which stays at
-- most one above `eventOutboxMax`, and no event has it or a later one.
pub running-IsNumbered :
    (e : Env) (s : System)
    → FitsU32 e.cfg.event_outbox_max
    → IsRunning e (create empty_store) s
    → IsNumbered e.cfg.event_outbox_max s
running-IsNumbered e s f created = fresh-IsNumbered _
running-IsNumbered e s f (stepped {s = t} x) = step-IsNumbered e f t (running-IsNumbered e t f x)
running-IsNumbered e s f (commanded {s = t} cmd x) =
    kept-IsNumbered (control_kept cmd e t) (running-IsNumbered e t f x)
running-IsNumbered e s f (emitted {s = t} evt x) =
    emit-IsNumbered e f evt t (running-IsNumbered e t f x)
running-IsNumbered e s f (synchronized {s = t} x) =
    IsUntouched-IsNumbered (policy-IsUntouched 0 e t) (running-IsNumbered e t f x)
