-- ===== src/Ota/State/Execution/Runs.antt =====
-- Runs of the Execution machine: sequences of states that `isValidExecutionTransition` allows.
use iov_vehicle_cgw_fota.Prelude.{
  ℕ, suc, ◌+◌, ◌≤◌, ◌<◌, ◌≡◌, ◌≢◌, ◌⊎◌, inl, inr, Bool, true, false, List, [], ◌∷◌, arith, Occurs,
  if◌then◌else◌,
}
use iov_vehicle_cgw_fota.Ota.State.Execution.{
  ExecutionState, permit_persisted, ready, install_started, canceled, index, ◌is◌,
  is_terminal_execution_state, is_valid_execution_transition,
}

-- Each state of the list follows the one before it by a valid transition.
abbrev pub IsRun : ExecutionState → List ExecutionState → Type 0
IsRun s [] = Unit
IsRun s (t ∷ ts) = (is_valid_execution_transition s t ≡ true) × IsRun t ts

-- How often the state changes along a list.
pub changes : ExecutionState → List ExecutionState → ℕ
changes s [] = 0
changes s (t ∷ ts) = let rest = changes t ts in if s is t then rest else suc rest

transition_forward :
    (s t : ExecutionState)
    → is_valid_execution_transition s t ≡ true
    → (s is t ≡ true) × (index t ≡ index s) ⊎ (index s < index t)
unfolding is_valid_execution_transition
transition_forward s t v = ground arith

index_bound : (s : ExecutionState) → index s ≤ 11
index_bound s = ground arith

-- Along a valid run from `s` the execution state changes at most `11 - index s` times.
pub changes_bounded :
    (s : ExecutionState) (ts : List ExecutionState) → IsRun s ts → changes s ts + index s ≤ 11
unfolding changes
changes_bounded s [] r = omega (arith, index_bound s)
changes_bounded s (t ∷ ts) r = ground (arith, transition_forward s t r.0, changes_bounded t ts r.1)

-- The states before the installation has begun, and `canceled`, which every such state can reach.
abbrev is_uninstalled : ExecutionState → Bool
is_uninstalled permit_persisted = true
is_uninstalled ready = true
is_uninstalled canceled = true
is_uninstalled _ = false

uninstalled_step :
    (s t : ExecutionState)
    → is_uninstalled s ≡ true
    → is_valid_execution_transition s t ≡ true
    → (t ≡ install_started) ⊎ (is_uninstalled t ≡ true)
unfolding is_valid_execution_transition
uninstalled_step s t h v = ground arith

uninstalled_result :
    (t e : ExecutionState)
    → is_uninstalled t ≡ true
    → is_terminal_execution_state e ≡ true
    → (e is canceled) ≡ false
    → t ≢ e
unfolding is_terminal_execution_state
uninstalled_result t e u x c q = ground arith

-- A valid run from a state before the installation that ends an execution as succeeded, failed or
-- rolled back has been in `install_started`.
pub result_needs_start :
    (s e : ExecutionState) (ts : List ExecutionState)
    → is_uninstalled s ≡ true
    → is_terminal_execution_state e ≡ true
    → (e is canceled) ≡ false
    → IsRun s ts
    → Occurs e ts
    → Occurs install_started ts
result_needs_start s e [] h x c r m = m
result_needs_start s e (t ∷ ts) h x c r m = elim (uninstalled_step s t h r.0) [
  | inl p ↦ inl p
  | inr u ↦ inr (
      result_needs_start t e ts u x c r.1
        (elim m [ inl q ↦ absurd (uninstalled_result t e u x c q) | inr q ↦ q ]))
]
