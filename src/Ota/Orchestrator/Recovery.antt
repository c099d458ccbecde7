-- ===== src/Ota/Orchestrator/Recovery.antt =====
-- A restart after the task and the execution have been saved: `persistVehicleTask`,
-- `persistExecution` and `loadFromStore`.
use iov_vehicle_cgw_fota.Prelude.{String, ◌≡◌, refl, ap, false, str_eq}
use iov_vehicle_cgw_fota.Store.CloudState.{CloudStore, empty_store}
use iov_vehicle_cgw_fota.Ota.State.VehicleTask.{no_task}
use iov_vehicle_cgw_fota.Ota.State.VehicleTask.Names.{task_from_string-to_string}
use iov_vehicle_cgw_fota.Ota.State.Execution.{permit_persisted}
use iov_vehicle_cgw_fota.Ota.State.Execution.Names.{execution_from_string-to_string}
use iov_vehicle_cgw_fota.Ota.Messages.{VehicleTaskSnapshot}
use iov_vehicle_cgw_fota.Ota.Ports.{Codec}
use iov_vehicle_cgw_fota.Ota.Orchestrator.System.{System, Env, create}
use iov_vehicle_cgw_fota.Ota.Orchestrator.Persist.{
  persist_vehicle_task, execution_record, persist_execution, restore_execution, restore_watermarks,
  restore_rest, restore, reconcile_on_start,
}

-- The serialization of protobuf messages gives a task that is not empty back.
abbrev pub ReadsTask : Codec → VehicleTaskSnapshot → Type 0
ReadsTask codec task =
    (codec.task_of_hex (codec.task_to_hex task) ≡ task)
    × (str_eq (codec.task_to_hex task) "" ≡ false)

-- A new orchestrator over the store, after `reconcileOnStart`.
abbrev pub recovered : Env → CloudStore → System
recovered e store = (reconcile_on_start e (create store)).1

-- What a restart gives back of the members of a system.
pub record IsResumed (s t : System) : Type 0 where
  pub vt_state : t.vt_state ≡ s.vt_state
  pub ex_state : t.ex_state ≡ s.ex_state
  pub task : t.frozen_task ≡ s.frozen_task
  pub id : t.execution_id ≡ s.execution_id
  pub attempt : t.attempt_no ≡ s.attempt_no
  pub next : t.next_seq ≡ s.next_seq
  pub accepted : t.accepted_seq ≡ s.accepted_seq

-- The saved system, and of its store the records that `loadFromStore` reads.
abbrev pub saved : String → Env → System → System
saved action e s = (persist_execution e (persist_vehicle_task action e s).1).1

abbrev pub read_at_start : CloudStore → CloudStore
read_at_start store = record empty_store {
  vehicle_task = store.vehicle_task;
  execution = store.execution;
  event_outbox_meta = store.event_outbox_meta;
}

-- The records that were saved bring the members back, if the codec gives the task back.
pub records_resume :
    (action : String) (e : Env) (s : System)
    → ReadsTask e.codec s.frozen_task
    → IsResumed s (recovered e (read_at_start (saved action e s).store))
unfolding persist_execution persist_vehicle_task execution_record reconcile_on_start restore
    restore_rest restore_execution restore_watermarks
records_resume action e s r = record {
  vt_state = simp (r.1) (ap (λ x. x.1) (task_from_string-to_string s.vt_state no_task));
  ex_state =
      simp (r.1) (ap (λ x. x.1) (execution_from_string-to_string s.ex_state permit_persisted));
  task = simp (r.1) (r.0);
  id = simp (r.1) refl;
  attempt = simp (r.1) refl;
  next = simp (r.1) refl;
  accepted = simp (r.1) refl;
}
