-- ===== src/Ota/State/VehicleTask/Runs.antt =====
-- Runs of the VehicleTask machine: sequences of states that `isValidVehicleTaskTransition` allows.
use iov_vehicle_cgw_fota.Prelude.{
  ◌≡◌, refl, ◌≢◌, ◌⊎◌, inl, inr, Bool, true, false, List, [], ◌∷◌, arith, All, Occurs,
}
use iov_vehicle_cgw_fota.Ota.State.VehicleTask.{
  VehicleTaskState, no_task, permit_pending, executing, retry_pending, rollback_pending, completed,
  download_pending, downloading, ready, waiting_window, discovered, consent_pending, paused, ended,
  is_terminal_vehicle_task_state, is_valid_vehicle_task_transition,
}

-- Each state of the list follows the one before it by a valid transition.
abbrev pub IsRun : VehicleTaskState → List VehicleTaskState → Type 0
IsRun s [] = Unit
IsRun s (t ∷ ts) = (is_valid_vehicle_task_transition s t ≡ true) × IsRun t ts

terminal_stays :
    (s t : VehicleTaskState)
    → is_terminal_vehicle_task_state s ≡ true
    → is_valid_vehicle_task_transition s t ≡ true
    → t ≡ s
unfolding is_valid_vehicle_task_transition
terminal_stays s t h v = ground arith

-- A run that starts in a terminal state repeats that state and nothing else.
pub terminal_absorbs :
    (s : VehicleTaskState) (ts : List VehicleTaskState)
    → is_terminal_vehicle_task_state s ≡ true
    → IsRun s ts
    → All (λ t. t ≡ s) ts
terminal_absorbs s [] h r = tt
terminal_absorbs s (t ∷ ts) h r =
    let same = terminal_stays s t h r.0 in (same, terminal_absorbs s ts h (rw same at r.1))

-- The states in which a task can be before its first permit is asked for.
abbrev pub is_early : VehicleTaskState → Bool
is_early permit_pending = false
is_early executing = false
is_early retry_pending = false
is_early rollback_pending = false
is_early completed = false
is_early _ = true

early_step :
    (s t : VehicleTaskState)
    → is_early s ≡ true
    → is_valid_vehicle_task_transition s t ≡ true
    → (t ≡ permit_pending) ⊎ (is_early t ≡ true)
unfolding is_valid_vehicle_task_transition
early_step s t h v = ground arith

-- A valid run that starts before the permit stage and executes has been in `permit_pending`.
pub executing_needs_permit :
    (s : VehicleTaskState) (ts : List VehicleTaskState)
    → is_early s ≡ true
    → IsRun s ts
    → Occurs executing ts
    → Occurs permit_pending ts
executing_needs_permit s [] h r m = m
executing_needs_permit s (t ∷ ts) h r m = elim (early_step s t h r.0) [
  | inl p ↦ inl p
  | inr e ↦ inr (executing_needs_permit t ts e r.1 (elim m [ inl q ↦ ground arith | inr q ↦ q ]))
]

-- The stages from the download on that lead to `completed`.
abbrev to_completed : List VehicleTaskState
to_completed = downloading ∷ ready ∷ waiting_window ∷ permit_pending ∷ executing ∷ completed ∷ []

-- A run from each state that reaches `completed`, if the state is not `ended`.
abbrev pub way_out : VehicleTaskState → List VehicleTaskState
way_out no_task = discovered ∷ download_pending ∷ to_completed
way_out discovered = download_pending ∷ to_completed
way_out consent_pending = download_pending ∷ to_completed
way_out download_pending = to_completed
way_out downloading = ready ∷ waiting_window ∷ permit_pending ∷ executing ∷ completed ∷ []
way_out ready = waiting_window ∷ permit_pending ∷ executing ∷ completed ∷ []
way_out waiting_window = permit_pending ∷ executing ∷ completed ∷ []
way_out permit_pending = executing ∷ completed ∷ []
way_out executing = completed ∷ []
way_out retry_pending = permit_pending ∷ executing ∷ completed ∷ []
way_out rollback_pending = executing ∷ completed ∷ []
way_out paused = discovered ∷ download_pending ∷ to_completed
way_out completed = completed ∷ []
way_out ended = []

-- From every state but `ended` a valid run reaches `completed`.
pub completed_reachable :
    (s : VehicleTaskState)
    → s ≢ ended
    → (ts : List VehicleTaskState) × IsRun s ts × Occurs completed ts
unfolding is_valid_vehicle_task_transition
completed_reachable ended h = absurd (h refl)
completed_reachable s h = (way_out s, ground arith, ground arith)
