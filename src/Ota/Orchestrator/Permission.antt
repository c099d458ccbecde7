-- ===== src/Ota/Orchestrator/Permission.antt =====
-- What a permit needs before `doPermit` lets the task execute, and what is saved by then.
use iov_vehicle_cgw_fota.Prelude.{
  ◌≡◌, ◌≢◌, refl, inl, inr, Bool, true, false, Option, none, some, ◌∷◌, arith, Bool-cases,
}
use iov_vehicle_cgw_fota.Prelude.Text.{join}
use iov_vehicle_cgw_fota.Prelude.Int.{ℤ}
use iov_vehicle_cgw_fota.Store.CloudState.{FotaVehicleTaskRecord}
use iov_vehicle_cgw_fota.Ota.State.VehicleTask
use iov_vehicle_cgw_fota.Ota.State.VehicleTask.{
  VehicleTaskState, waiting_window, executing, ◌is◌, vehicle_task_state_to_string,
}
use iov_vehicle_cgw_fota.Ota.State.Execution.{permit_persisted}
use iov_vehicle_cgw_fota.Ota.Messages.{InstallPermitResponse}
use iov_vehicle_cgw_fota.Ota.Ports.{
  Codec, History, Reply, now_ms, evaluate_conditions, all_guards_passed, request_install,
}
use iov_vehicle_cgw_fota.Ota.Orchestrator.System.{System, Env, make_ctx}
use iov_vehicle_cgw_fota.Ota.Orchestrator.Persist.{
  persist_vehicle_task, execution_record, persist_execution,
}
use iov_vehicle_cgw_fota.Ota.Orchestrator.Permit.{
  window_open, permit_request, hold_permit, save_permit, permit_expired, guards_rechecked,
  expiry_rechecked, accept_permit, permit_allowed, permit_replied, guards_checked, window_checked,
  ask_permit, do_permit,
}

-- The vehicle task, the permit and the execution that the store holds are those in memory, and the
-- execution has been granted and not started.
pub record IsGranted (resp : InstallPermitResponse) (codec : Codec) (t : System) : Type 0 where
  pub held : t.permit ≡ resp
  pub granted : t.ex_state ≡ permit_persisted
  pub execution_saved : t.store.execution ≡ some (execution_record codec t)
  pub task_saved :
      (rec : FotaVehicleTaskRecord) × (t.store.vehicle_task ≡ some rec)
      × (rec.vehicle_task_state ≡ "EXECUTING")

-- The cloud has allowed an installation, and the outcome is saved.
pub record IsPermitted (codec : Codec) (reply : Reply InstallPermitResponse) (t : System)
    : Type 0 where
  pub resp : InstallPermitResponse
  pub answered : reply ≡ Reply.response resp
  pub allowed : resp.allowed ≡ true
  pub saved : IsGranted resp codec t

save-IsGranted :
    (resp : InstallPermitResponse) (e : Env) (s : System)
    → IsGranted resp e.codec (save_permit resp e s).1
unfolding save_permit hold_permit persist_vehicle_task persist_execution execution_record
    vehicle_task_state_to_string
save-IsGranted resp e s = record {
  held = refl;
  granted = refl;
  execution_saved = refl;
  task_saved = (_, refl, refl);
}

history-IsGranted :
    (resp : InstallPermitResponse) (codec : Codec) (h : History) (t : System)
    → IsGranted resp codec t
    → IsGranted resp codec (record t { history = h })
unfolding execution_record
history-IsGranted resp codec h t g = record {
  held = g.held;
  granted = g.granted;
  execution_saved = g.execution_saved;
  task_saved = g.task_saved;
}

rechecked-IsGranted :
    (resp : InstallPermitResponse) (expired : Bool) (e : Env) (s : System)
    → IsGranted resp e.codec s
    → IsGranted resp e.codec (expiry_rechecked expired e s).1
unfolding expiry_rechecked guards_rechecked
rechecked-IsGranted resp true e s g = g
rechecked-IsGranted resp false e s g =
    let h : History = all_guards_passed ∷ s.history in
    elim (Bool-cases (e.ports.guards h)) [
      | inl y ↦ simp y (history-IsGranted resp e.codec h s g)
      | inr n ↦ simp n (history-IsGranted resp e.codec h s g)
    ]

expired-IsGranted :
    (resp : InstallPermitResponse) (until : Option ℤ) (e : Env) (s : System)
    → IsGranted resp e.codec s
    → IsGranted resp e.codec (permit_expired until e s).1
unfolding permit_expired
expired-IsGranted resp none e s g = g
expired-IsGranted resp (some t) e s g = history-IsGranted resp e.codec (now_ms ∷ s.history) s g

accept-IsGranted :
    (resp : InstallPermitResponse) (e : Env) (s : System)
    → IsGranted resp e.codec (accept_permit resp e s).1
unfolding accept_permit
accept-IsGranted resp e s =
    rechecked-IsGranted resp _ e _
      (expired-IsGranted resp resp.valid_until_ms e _ (save-IsGranted resp e s))

allowed-IsGranted :
    (b : Bool) (resp : InstallPermitResponse) (e : Env) (s : System)
    → s.vt_state ≢ executing
    → (permit_allowed b resp e s).1.vt_state ≡ executing
    → (b ≡ true) × IsGranted resp e.codec (permit_allowed b resp e s).1
unfolding permit_allowed
allowed-IsGranted true resp e s n h = (refl, accept-IsGranted resp e s)
allowed-IsGranted false resp e s n h = absurd (n h)

replied-IsPermitted :
    (reply : Reply InstallPermitResponse) (e : Env) (s : System)
    → s.vt_state ≢ executing
    → (permit_replied reply e s).1.vt_state ≡ executing
    → IsPermitted e.codec reply (permit_replied reply e s).1
unfolding permit_replied
replied-IsPermitted (Reply.fault w) e s n h = absurd (n h)
replied-IsPermitted (Reply.response resp) e s n h =
    let (y, saved) = allowed-IsGranted resp.allowed resp e s n h in
    record { resp = resp; answered = refl; allowed = y; saved = saved }

-- The cloud's answer that `doPermit` gets in a state other than READY.
abbrev pub permit_answer : Env → System → Reply InstallPermitResponse
permit_answer e s =
    let h : History = evaluate_conditions ∷ all_guards_passed ∷ now_ms ∷ s.history in
    let req = permit_request (e.ports.conditions h) s in
    let ctx = (make_ctx (join "permit-" s.frozen_task.vehicle_task_id) e s).0 in
    e.ports.permit (request_install req ctx ∷ h)

guards-IsPermitted :
    (b : Bool) (e : Env) (s : System)
    → s.vt_state ≢ executing
    → let t = record s { history = all_guards_passed ∷ now_ms ∷ s.history } in
      (guards_checked b e t).1.vt_state ≡ executing
      → (b ≡ true) × IsPermitted e.codec (permit_answer e s) (guards_checked b e t).1
unfolding guards_checked permit_request
guards-IsPermitted false e s n h = absurd (n h)
guards-IsPermitted true e s n h = (refl, replied-IsPermitted _ e _ n h)

window-IsPermitted :
    (b : Bool) (e : Env) (s : System)
    → s.vt_state ≢ executing
    → let t = record s { history = now_ms ∷ s.history } in
      (window_checked b e t).1.vt_state ≡ executing
      → (b ≡ true)
        × (e.ports.guards (all_guards_passed ∷ now_ms ∷ s.history) ≡ true)
        × IsPermitted e.codec (permit_answer e s) (window_checked b e t).1
unfolding window_checked
window-IsPermitted false e s n h = absurd (n h)
window-IsPermitted true e s n h =
    let (g, p) =
      guards-IsPermitted (e.ports.guards (all_guards_passed ∷ now_ms ∷ s.history)) e s n h in
    (refl, g, p)

ask-IsPermitted :
    (e : Env) (s : System)
    → s.vt_state ≢ executing
    → (ask_permit e s).1.vt_state ≡ executing
    → (window_open s.frozen_task.start_time_ms s.frozen_task.end_time_ms
          (e.ports.clock (now_ms ∷ s.history))
        ≡ true)
      × (e.ports.guards (all_guards_passed ∷ now_ms ∷ s.history) ≡ true)
      × IsPermitted e.codec (permit_answer e s) (ask_permit e s).1
unfolding ask_permit
ask-IsPermitted e s n h = window-IsPermitted _ e s n h

-- When `doPermit` takes a task that does not execute to EXECUTING, the clock was in the task's
-- installation window, the local guards had passed, the cloud had allowed the installation, and the
-- permit, the granted execution and the state EXECUTING are in the store.
pub permission :
    (e : Env) (s : System)
    → s.vt_state ≢ executing
    → (do_permit e s).1.vt_state ≡ executing
    → (window_open s.frozen_task.start_time_ms s.frozen_task.end_time_ms
          (e.ports.clock (now_ms ∷ s.history))
        ≡ true)
      × (e.ports.guards (all_guards_passed ∷ now_ms ∷ s.history) ≡ true)
      × IsPermitted e.codec (permit_answer e s) (do_permit e s).1
unfolding do_permit persist_vehicle_task
permission e s n h = elim (Bool-cases (s.vt_state is VehicleTask.ready)) [
  | inl y ↦ absurd (ground arith)
  | inr m ↦ rw m (ask-IsPermitted e s n (rw m at h))
]
