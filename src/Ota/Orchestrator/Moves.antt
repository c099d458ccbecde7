-- ===== src/Ota/Orchestrator/Moves.antt =====
-- The moves of the vehicle task state in one `step`, against the documented diagram.
use iov_vehicle_cgw_fota.Prelude.{
  ◌≡◌, refl, ◌≢◌, ◌⊎◌, inl, inr, Bool, true, false, not, ◌||◌, ◌∙◌, Option, none, some, ℕ, ◌-◌, ap,
  arith, Bool-cases, ◌∷◌,
}
use iov_vehicle_cgw_fota.Store.CloudState.{FotaEventOutboxMeta}
use iov_vehicle_cgw_fota.Ota.State.VehicleTask.{
  VehicleTaskState, no_task, discovered, consent_pending, download_pending, downloading, ready,
  waiting_window, permit_pending, executing, retry_pending, rollback_pending, paused, completed,
  ended, ◌is◌, is_terminal_vehicle_task_state, is_valid_vehicle_task_transition,
}
use iov_vehicle_cgw_fota.Ota.Ports.{History, prepare}
use iov_vehicle_cgw_fota.Ota.Orchestrator.System.{System, Env, StepOutcome}
use iov_vehicle_cgw_fota.Ota.Orchestrator.Persist.{persist_vehicle_task, persist_execution}
use iov_vehicle_cgw_fota.Ota.Orchestrator.Permit.{do_permit}
use iov_vehicle_cgw_fota.Ota.Orchestrator.Outbox.{Sending, all_sent, outbox_meta, send_pending}
use iov_vehicle_cgw_fota.Ota.Orchestrator.Execute.{
  is_unstarted, start_answered, prepare_answered, launch, advance_watermark, sent, report_events,
  launched, launch_if, do_execute,
}
use iov_vehicle_cgw_fota.Ota.Orchestrator.Step.{do_nothing, dispatch, step}
use iov_vehicle_cgw_fota.Ota.Orchestrator.Frames.{send_events-IsKept, start_executor-IsKept}
use iov_vehicle_cgw_fota.Ota.Orchestrator.Reporting.{FinalMove, finalize-move}
use iov_vehicle_cgw_fota.Ota.Orchestrator.Transitions.{
  check_moves, consent_moves, download_moves, permit_moves,
}

launch-vt : (e : Env) (s : System) → (launch e s).1.vt_state ≡ s.vt_state
unfolding launch prepare_answered start_answered persist_execution
launch-vt e s =
    let h : History = prepare s.frozen_task ∷ s.history in
    let k = start_executor-IsKept 0 e (record s { history = h }) in ground (arith, k.vt_kept)

launch_if-vt : (b : Bool) (e : Env) (s : System) → (launch_if b e s).1.vt_state ≡ s.vt_state
unfolding launch_if
launch_if-vt true e s = launch-vt e s
launch_if-vt false e s = refl

pending-vt : (next : ℕ) (e : Env) (s : System) → (send_pending next e s).1.vt_state ≡ s.vt_state
unfolding send_pending
pending-vt next e s = (send_events-IsKept 0 e (next - 1) 1 all_sent s).vt_kept

advance-vt :
    (meta : FotaEventOutboxMeta) (e : Env) (s : System)
    → (advance_watermark meta e s).1.vt_state ≡ s.vt_state
unfolding advance_watermark
advance-vt meta e s = ground arith

persist-vt : (e : Env) (s : System) → (persist_execution e s).1.vt_state ≡ s.vt_state
unfolding persist_execution
persist-vt e s = refl

sent-move : (sending : Sending) (e : Env) (s : System) → FinalMove s (sent sending e s).1
unfolding sent
sent-move sending e s = elim (Bool-cases sending.send_error) [
  | inl y ↦ simp y (inl refl)
  | inr n ↦ simp n (finalize-move e s)
]

FinalMove-after :
    {a b c : VehicleTaskState} → b ≡ a → (c ≡ b) ⊎ (c ≢ no_task) → (c ≡ a) ⊎ (c ≢ no_task)
FinalMove-after h (inl same) = inl (same ∙ h)
FinalMove-after h (inr other) = inr other

launched-move : (o : Option StepOutcome) (e : Env) (s : System) → FinalMove s (launched o e s).1
unfolding launched report_events
launched-move none e s =
    let t = (send_pending (outbox_meta s).next_sequence_no e s).1 in
    let u = (advance_watermark (outbox_meta s) e t).1 in
    FinalMove-after (persist-vt e u ∙ (advance-vt (outbox_meta s) e t ∙ pending-vt _ e s))
      (sent-move _ e _)
launched-move (some failure) e s = inl refl

execute-move : (e : Env) (s : System) → FinalMove s (do_execute e s).1
unfolding do_execute
execute-move e s =
    FinalMove-after (launch_if-vt (is_unstarted s.ex_state) e s) (launched-move _ e _)

-- Where `step` can take a vehicle task from each state; staying is written out too.
abbrev pub step_target : VehicleTaskState → VehicleTaskState → Bool
step_target no_task to = to is no_task || to is consent_pending || to is download_pending
step_target discovered to = to is discovered || to is consent_pending || to is download_pending
step_target consent_pending to = to is consent_pending || to is download_pending || to is ended
step_target download_pending to = to is download_pending || to is downloading || to is ready
step_target downloading to = to is downloading || to is ready
step_target ready to = to is waiting_window
step_target waiting_window to = to is waiting_window || to is executing
step_target permit_pending to = to is permit_pending || to is executing
step_target retry_pending to = to is permit_pending || to is executing
step_target executing to = not (to is no_task)
step_target rollback_pending to = not (to is no_task)
step_target from to = to is from

ready-target :
    (e : Env) (s : System) → s.vt_state ≡ ready → (do_permit e s).1.vt_state ≡ waiting_window
unfolding do_permit persist_vehicle_task
ready-target e s h = ground arith

rollback-target :
    {to : VehicleTaskState} → (to ≡ executing) ⊎ (to ≢ no_task) → not (to is no_task) ≡ true
rollback-target h = ground arith

dispatch-target :
    (vt : VehicleTaskState) (e : Env) (s : System)
    → s.vt_state ≡ vt
    → step_target vt (dispatch vt e s).1.vt_state ≡ true
unfolding dispatch do_nothing
dispatch-target no_task e s h = ground (arith, check_moves e s)
dispatch-target discovered e s h = ground (arith, check_moves e s)
dispatch-target consent_pending e s h = ground (arith, consent_moves e s)
dispatch-target download_pending e s h = ground (arith, download_moves e s)
dispatch-target downloading e s h = ground (arith, download_moves e s)
dispatch-target ready e s h = ap (λ v. v is waiting_window) (ready-target e s h)
dispatch-target waiting_window e s h = ground (arith, permit_moves e s)
dispatch-target permit_pending e s h = ground (arith, permit_moves e s)
dispatch-target executing e s h = ground (arith, execute-move e s)
dispatch-target retry_pending e s h =
    ground (arith, permit_moves e (record s { vt_state = permit_pending }))
dispatch-target rollback_pending e s h = rollback-target (execute-move e _)
dispatch-target paused e s h = ground arith
dispatch-target completed e s h = ground arith
dispatch-target ended e s h = ground arith

terminal-target :
    (vt : VehicleTaskState) → is_terminal_vehicle_task_state vt ≡ true → step_target vt vt ≡ true
unfolding is_terminal_vehicle_task_state
terminal-target vt h = ground arith

-- One step takes the vehicle task to a state of the table for its state, whatever the cloud, the
-- executor, the store and the clock answer.
pub step_moves : (e : Env) (s : System) → step_target s.vt_state (step e s).1.vt_state ≡ true
unfolding step
step_moves e s = elim (Bool-cases (is_terminal_vehicle_task_state s.vt_state)) [
  | inl y ↦ simp y (terminal-target s.vt_state y)
  | inr n ↦ simp n (dispatch-target s.vt_state e s refl)
]

-- The states whose moves in the code are all in the documented diagram.
abbrev pub follows_diagram : VehicleTaskState → Bool
follows_diagram no_task = false
follows_diagram download_pending = false
follows_diagram waiting_window = false
follows_diagram executing = false
follows_diagram retry_pending = false
follows_diagram rollback_pending = false
follows_diagram _ = true

target-IsValid :
    (from to : VehicleTaskState)
    → follows_diagram from ≡ true
    → step_target from to ≡ true
    → is_valid_vehicle_task_transition from to ≡ true
unfolding is_valid_vehicle_task_transition
target-IsValid from to h t = ground arith

-- From DISCOVERED, CONSENT_PENDING, DOWNLOADING, READY, PERMIT_PENDING, PAUSED, COMPLETED and ENDED,
-- one step makes a move that `isValidVehicleTaskTransition` allows.
pub step-IsValid :
    (e : Env) (s : System)
    → follows_diagram s.vt_state ≡ true
    → is_valid_vehicle_task_transition s.vt_state (step e s).1.vt_state ≡ true
step-IsValid e s h = target-IsValid s.vt_state _ h (step_moves e s)
