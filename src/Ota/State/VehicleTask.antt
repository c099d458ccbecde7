-- ===== src/Ota/State/VehicleTask.antt =====
-- The VehicleTask state machine (include/cgw/fota/ota/state/vehicle_task_state.hpp and
-- src/ota/state/vehicle_task_state.cpp).
pub mod Runs
pub mod Names
use iov_vehicle_cgw_fota.Prelude.{
  ℕ, String, Bool, true, false, ◌||◌, Option, none, some, List, [], ◌∷◌, ◌==◌, get_elem?, get_or,
  position, if◌then◌else◌,
}

-- `enum class VehicleTaskState`
pub data VehicleTaskState : Type 0 where
  no_task discovered consent_pending download_pending downloading ready waiting_window
        permit_pending executing retry_pending rollback_pending paused completed ended :
      VehicleTaskState

-- The value that the enumeration gives each enumerator.
abbrev pub index : VehicleTaskState → ℕ
index no_task = 0
index discovered = 1
index consent_pending = 2
index download_pending = 3
index downloading = 4
index ready = 5
index waiting_window = 6
index permit_pending = 7
index executing = 8
index retry_pending = 9
index rollback_pending = 10
index paused = 11
index completed = 12
index ended = 13

-- `==` of two enumerators
infix 50 ◌is◌
abbrev pub ◌is◌ : VehicleTaskState → VehicleTaskState → Bool
a is b = index a == index b

unfoldable pub documented_transition : VehicleTaskState → VehicleTaskState → Bool
documented_transition no_task to = to is discovered
documented_transition discovered to =
    to is consent_pending || to is download_pending || to is paused
documented_transition consent_pending to = to is download_pending || to is ended
documented_transition download_pending to = to is downloading
documented_transition downloading to = to is ready
documented_transition ready to = to is waiting_window || to is paused
documented_transition waiting_window to = to is permit_pending
documented_transition permit_pending to = to is executing
documented_transition executing to =
    to is retry_pending || to is rollback_pending || to is completed || to is paused
documented_transition retry_pending to = to is permit_pending
documented_transition rollback_pending to = to is executing
documented_transition paused to = to is discovered || to is ended
documented_transition completed to = false
documented_transition ended to = false

unfoldable pub is_terminal_vehicle_task_state : VehicleTaskState → Bool
is_terminal_vehicle_task_state s = s is completed || s is ended

unfoldable pub is_valid_vehicle_task_transition : VehicleTaskState → VehicleTaskState → Bool
unfolding documented_transition is_terminal_vehicle_task_state
is_valid_vehicle_task_transition from to =
    if from is to
    then true
    else if is_terminal_vehicle_task_state from
    then false
    else if to is ended
    then true
    else documented_transition from to

unfoldable pub vehicle_task_state_to_string : VehicleTaskState → String
vehicle_task_state_to_string no_task = "NONE"
vehicle_task_state_to_string discovered = "DISCOVERED"
vehicle_task_state_to_string consent_pending = "CONSENT_PENDING"
vehicle_task_state_to_string download_pending = "DOWNLOAD_PENDING"
vehicle_task_state_to_string downloading = "DOWNLOADING"
vehicle_task_state_to_string ready = "READY"
vehicle_task_state_to_string waiting_window = "WAITING_WINDOW"
vehicle_task_state_to_string permit_pending = "PERMIT_PENDING"
vehicle_task_state_to_string executing = "EXECUTING"
vehicle_task_state_to_string retry_pending = "RETRY_PENDING"
vehicle_task_state_to_string rollback_pending = "ROLLBACK_PENDING"
vehicle_task_state_to_string paused = "PAUSED"
vehicle_task_state_to_string completed = "COMPLETED"
vehicle_task_state_to_string ended = "ENDED"

-- `kNames`
abbrev pub names : List String
names =
    "NONE" ∷ "DISCOVERED" ∷ "CONSENT_PENDING" ∷ "DOWNLOAD_PENDING" ∷ "DOWNLOADING" ∷ "READY"
    ∷ "WAITING_WINDOW" ∷ "PERMIT_PENDING" ∷ "EXECUTING" ∷ "RETRY_PENDING" ∷ "ROLLBACK_PENDING"
    ∷ "PAUSED" ∷ "COMPLETED" ∷ "ENDED" ∷ []

-- The enumerators in the order of the declaration.
abbrev pub states : List VehicleTaskState
states =
    no_task ∷ discovered ∷ consent_pending ∷ download_pending ∷ downloading ∷ ready ∷ waiting_window
    ∷ permit_pending ∷ executing ∷ retry_pending ∷ rollback_pending ∷ paused ∷ completed ∷ ended
    ∷ []

-- `static_cast<VehicleTaskState>(i)` for an index of `kNames`
unfoldable pub of_index : ℕ → VehicleTaskState
of_index i = get_or (get_elem? states i) no_task

-- What the loop leaves in `out`, and its result.
unfoldable pub store_found : Option ℕ → VehicleTaskState → Bool × VehicleTaskState
unfolding of_index
store_found none out = (false, out)
store_found (some i) out = (true, of_index i)

-- A null `const char*` is `none`. The result is `false` with `out` untouched, or `true` with `out`.
unfoldable pub vehicle_task_state_from_string :
    Option String → VehicleTaskState → Bool × VehicleTaskState
unfolding store_found position
vehicle_task_state_from_string none out = (false, out)
vehicle_task_state_from_string (some s) out = store_found (position s 0 names) out
