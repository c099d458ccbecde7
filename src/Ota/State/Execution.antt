-- ===== src/Ota/State/Execution.antt =====
-- The Execution state machine (include/cgw/fota/ota/state/execution_state.hpp and
-- src/ota/state/execution_state.cpp).
pub mod Runs
pub mod Names
use iov_vehicle_cgw_fota.Prelude.{
  ℕ, String, Bool, true, false, ◌||◌, Option, none, some, List, [], ◌∷◌, ◌==◌, get_elem?, get_or,
  position, if◌then◌else◌,
}

-- `enum class ExecutionState`
pub data ExecutionState : Type 0 where
  permit_persisted ready install_started install reboot post_check rollback result_pending succeeded
        failed rolled_back canceled :
      ExecutionState

-- The value that the enumeration gives each enumerator.
abbrev pub index : ExecutionState → ℕ
index permit_persisted = 0
index ready = 1
index install_started = 2
index install = 3
index reboot = 4
index post_check = 5
index rollback = 6
index result_pending = 7
index succeeded = 8
index failed = 9
index rolled_back = 10
index canceled = 11

-- `==` of two enumerators
infix 50 ◌is◌
abbrev pub ◌is◌ : ExecutionState → ExecutionState → Bool
a is b = index a == index b

unfoldable pub is_terminal_execution_state : ExecutionState → Bool
is_terminal_execution_state s = s is succeeded || s is failed || s is rolled_back || s is canceled

-- the `switch (from)` of `isValidExecutionTransition`
unfoldable pub stage_transition : ExecutionState → ExecutionState → Bool
stage_transition permit_persisted to = to is ready
stage_transition ready to = to is install_started
stage_transition install_started to = to is install
stage_transition install to = to is reboot || to is rollback || to is result_pending
stage_transition reboot to = to is post_check
stage_transition post_check to = to is result_pending || to is rollback
stage_transition rollback to = to is result_pending
stage_transition result_pending to = to is succeeded || to is failed || to is rolled_back
stage_transition succeeded to = false
stage_transition failed to = false
stage_transition rolled_back to = false
stage_transition canceled to = false

unfoldable pub is_valid_execution_transition : ExecutionState → ExecutionState → Bool
unfolding stage_transition is_terminal_execution_state
is_valid_execution_transition from to =
    if from is to
    then true
    else if is_terminal_execution_state from
    then false
    else if to is canceled
    then true
    else stage_transition from to

unfoldable pub execution_state_to_string : ExecutionState → String
execution_state_to_string permit_persisted = "PERMIT_PERSISTED"
execution_state_to_string ready = "READY"
execution_state_to_string install_started = "INSTALL_STARTED"
execution_state_to_string install = "INSTALL"
execution_state_to_string reboot = "REBOOT"
execution_state_to_string post_check = "POST_CHECK"
execution_state_to_string rollback = "ROLLBACK"
execution_state_to_string result_pending = "RESULT_PENDING"
execution_state_to_string succeeded = "SUCCEEDED"
execution_state_to_string failed = "FAILED"
execution_state_to_string rolled_back = "ROLLED_BACK"
execution_state_to_string canceled = "CANCELED"

-- `kNames`
abbrev pub names : List String
names =
    "PERMIT_PERSISTED" ∷ "READY" ∷ "INSTALL_STARTED" ∷ "INSTALL" ∷ "REBOOT" ∷ "POST_CHECK"
    ∷ "ROLLBACK" ∷ "RESULT_PENDING" ∷ "SUCCEEDED" ∷ "FAILED" ∷ "ROLLED_BACK" ∷ "CANCELED" ∷ []

-- The enumerators in the order of the declaration.
abbrev pub states : List ExecutionState
states =
    permit_persisted ∷ ready ∷ install_started ∷ install ∷ reboot ∷ post_check ∷ rollback
    ∷ result_pending ∷ succeeded ∷ failed ∷ rolled_back ∷ canceled ∷ []

-- `static_cast<ExecutionState>(i)` for an index of `kNames`
unfoldable pub of_index : ℕ → ExecutionState
of_index i = get_or (get_elem? states i) permit_persisted

-- What the loop leaves in `out`, and its result.
unfoldable pub store_found : Option ℕ → ExecutionState → Bool × ExecutionState
unfolding of_index
store_found none out = (false, out)
store_found (some i) out = (true, of_index i)

-- A null `const char*` is `none`. The result is `false` with `out` untouched, or `true` with `out`.
unfoldable pub execution_state_from_string : Option String → ExecutionState → Bool × ExecutionState
unfolding store_found position
execution_state_from_string none out = (false, out)
execution_state_from_string (some s) out = store_found (position s 0 names) out
