-- ===== src/Ota/State/VehicleTask/Names.antt =====
-- The stable names of the VehicleTaskStates, printed and read back.
use iov_vehicle_cgw_fota.Prelude.{
  ℕ, String, ◌≡◌, refl, true, false, Option, none, some, arith, get_elem?, get_elem?-map, position,
  position_sound, ap, ◌∙◌,
}
use iov_vehicle_cgw_fota.Ota.State.VehicleTask.{
  VehicleTaskState, vehicle_task_state_to_string, vehicle_task_state_from_string, no_task,
  store_found, of_index, states, names,
}

-- Reading the printed name of a state gives that state, whatever `out` held.
pub task_from_string-to_string :
    (s out : VehicleTaskState)
    → vehicle_task_state_from_string (some (vehicle_task_state_to_string s)) out ≡ (true, s)
unfolding vehicle_task_state_from_string vehicle_task_state_to_string
task_from_string-to_string no_task out = refl
task_from_string-to_string _ out = refl

-- The name in `kNames` at an index is the name of the enumerator with that value.
name_of_index :
    (i : ℕ) (t : String)
    → get_elem? names i ≡ some t
    → t ≡ vehicle_task_state_to_string (of_index i)
unfolding vehicle_task_state_to_string of_index
name_of_index i t h =
    let (s, p, q) = get_elem?-map vehicle_task_state_to_string states i t h in rw p q

name_of_found :
    (t : String) (out s : VehicleTaskState) (o : Option ℕ)
    → position t 0 names ≡ o
    → store_found o out ≡ (true, s)
    → t ≡ vehicle_task_state_to_string s
unfolding store_found
name_of_found t out s none e h = absurd (ground arith)
name_of_found t out s (some k) e h =
    let (j, p, q) = position_sound t 0 names k e in
    let same : of_index j ≡ s = ap of_index (omega arith) ∙ ap (λ x. x.1) h in
    name_of_index j t q ∙ ap vehicle_task_state_to_string same

-- A text is read as a state only if it is that state's printed name.
pub task_from_string_exact :
    (t : Option String) (out s : VehicleTaskState)
    → vehicle_task_state_from_string t out ≡ (true, s)
    → t ≡ some (vehicle_task_state_to_string s)
unfolding vehicle_task_state_from_string
task_from_string_exact none out s h = absurd (ground arith)
task_from_string_exact (some t) out s h =
    ap some (name_of_found t out s (position t 0 names) refl h)

unchanged :
    (o : Option ℕ) (out : VehicleTaskState)
    → (store_found o out).0 ≡ false
    → (store_found o out).1 ≡ out
unfolding store_found
unchanged none out h = refl
unchanged (some k) out h = absurd (cc)

-- A text that is no state's name leaves `out` as it was.
pub task_from_string_failed :
    (t : Option String) (out : VehicleTaskState)
    → (vehicle_task_state_from_string t out).0 ≡ false
    → (vehicle_task_state_from_string t out).1 ≡ out
unfolding vehicle_task_state_from_string
task_from_string_failed none out h = refl
task_from_string_failed (some t) out h = unchanged (position t 0 names) out h
