-- ===== src/Ota/Orchestrator/Untouched/Installation.antt =====
-- Permit, final result, log upload and policy leave the events and the control commands alone.
use iov_vehicle_cgw_fota.Prelude.{
  ℕ, String, refl, Bool, true, false, Option, none, some, inl, inr, arith, Bool-cases,
}
use iov_vehicle_cgw_fota.Prelude.Int.{ℤ}
use iov_vehicle_cgw_fota.Store.CloudState.{FotaPolicyRecord}
use iov_vehicle_cgw_fota.Ota.State.VehicleTask
use iov_vehicle_cgw_fota.Ota.State.VehicleTask.{◌is◌, waiting_window}
use iov_vehicle_cgw_fota.Ota.Messages.{
  InstallPermitResponse, FinalResultReport, FinalResultResponse, PolicyResponse, Outcome,
  LogGrantRequest, LogGrantResponse,
}
use iov_vehicle_cgw_fota.Ota.Ports.{
  Reply, LogPackage, read_final_result, evaluate_conditions, now_ms, all_guards_passed,
}
use iov_vehicle_cgw_fota.Ota.Orchestrator.System.{System, Env}
use iov_vehicle_cgw_fota.Ota.Orchestrator.Persist.{persist_vehicle_task, persist_execution}
use iov_vehicle_cgw_fota.Ota.Orchestrator.Permit.{
  hold_permit, save_permit, permit_expired, guards_rechecked, expiry_rechecked, accept_permit,
  permit_allowed, permit_replied, guards_checked, window_checked, ask_permit, do_permit,
}
use iov_vehicle_cgw_fota.Ota.Orchestrator.Control.{policy_replied, synchronize_policy}
use iov_vehicle_cgw_fota.Ota.Orchestrator.Finalize.{
  log_reported, log_collected, log_granted, do_log_upload, close_execution, final_replied,
  do_finalize,
}
use iov_vehicle_cgw_fota.Ota.Orchestrator.Untouched.{
  IsUntouched, IsUntouched-trans, IsUntouched-refl, call-IsUntouched,
  persist_vehicle_task-IsUntouched,
}

module _ (r : ℕ) (e : Env) where
  recheck-IsUntouched : (b : Bool) (s : System) → IsUntouched r s (expiry_rechecked b e s).1
  unfolding expiry_rechecked guards_rechecked
  recheck-IsUntouched true s = IsUntouched-refl
  recheck-IsUntouched false s = ground arith

  save_permit-IsUntouched :
      (resp : InstallPermitResponse) (s : System) → IsUntouched r s (save_permit resp e s).1
  unfolding save_permit hold_permit persist_vehicle_task persist_execution
  save_permit-IsUntouched resp s = ground arith

  permit_expired-IsUntouched :
      (o : Option ℤ) (s : System) → IsUntouched r s (permit_expired o e s).1
  unfolding permit_expired
  permit_expired-IsUntouched none s = IsUntouched-refl
  permit_expired-IsUntouched (some t) s = call-IsUntouched now_ms refl

  accept-IsUntouched :
      (resp : InstallPermitResponse) (s : System) → IsUntouched r s (accept_permit resp e s).1
  unfolding accept_permit
  accept-IsUntouched resp s = IsUntouched-trans (save_permit-IsUntouched resp s) (
      IsUntouched-trans (permit_expired-IsUntouched resp.valid_until_ms _)
        (recheck-IsUntouched _ _))

  permit_replied-IsUntouched :
      (reply : Reply InstallPermitResponse) (s : System)
      → IsUntouched r s (permit_replied reply e s).1
  unfolding permit_replied
  permit_replied-IsUntouched (Reply.fault w) s = IsUntouched-refl
  permit_replied-IsUntouched (Reply.response x) s = allowed x.allowed
    where
      allowed : (b : Bool) → IsUntouched r s (permit_allowed b x e s).1
      allowed true = unfold permit_allowed in accept-IsUntouched x s
      allowed false = unfold permit_allowed in IsUntouched-refl

  guards-IsUntouched : (b : Bool) (s : System) → IsUntouched r s (guards_checked b e s).1
  unfolding guards_checked
  guards-IsUntouched false s = IsUntouched-refl
  guards-IsUntouched true s =
      IsUntouched-trans (call-IsUntouched evaluate_conditions refl)
        (IsUntouched-trans (call-IsUntouched _ refl) (permit_replied-IsUntouched _ _))

  window-IsUntouched : (b : Bool) (s : System) → IsUntouched r s (window_checked b e s).1
  unfolding window_checked
  window-IsUntouched false s = IsUntouched-refl
  window-IsUntouched true s =
      IsUntouched-trans (call-IsUntouched all_guards_passed refl) (guards-IsUntouched _ _)

  ask-IsUntouched : (s : System) → IsUntouched r s (ask_permit e s).1
  unfolding ask_permit
  ask-IsUntouched s = IsUntouched-trans (call-IsUntouched now_ms refl) (window-IsUntouched _ _)

  pub permit-IsUntouched : (s : System) → IsUntouched r s (do_permit e s).1
  unfolding do_permit
  permit-IsUntouched s = elim (Bool-cases (s.vt_state is VehicleTask.ready)) [
    | inl y ↦ simp y (
        IsUntouched-trans {t = record s { vt_state = waiting_window }} (ground arith)
          (persist_vehicle_task-IsUntouched r e "waitingWindow" _))
    | inr n ↦ simp n (ask-IsUntouched s)
  ]

  log_reported-IsUntouched :
      (id : String) (grant : LogGrantResponse) (pkg : LogPackage) (reply : Reply Unit) (s : System)
      → IsUntouched r s (log_reported id grant pkg reply e s).1
  unfolding log_reported
  log_reported-IsUntouched id grant pkg (Reply.fault w) s = IsUntouched-refl
  log_reported-IsUntouched id grant pkg (Reply.response u) s = ground arith

  log_collected-IsUntouched :
      (id : String) (grant : LogGrantResponse) (pkg : LogPackage) (s : System)
      → IsUntouched r s (log_collected id grant pkg e s).1
  unfolding log_collected
  log_collected-IsUntouched id grant pkg s = elim (Bool-cases pkg.generated) [
    | inl y ↦ simp y (
        IsUntouched-trans (call-IsUntouched now_ms refl)
          (IsUntouched-trans (call-IsUntouched _ refl) (log_reported-IsUntouched id grant pkg _ _)))
    | inr n ↦ simp n IsUntouched-refl
  ]

  log_granted-IsUntouched :
      (id : String) (req : LogGrantRequest) (reply : Reply LogGrantResponse) (s : System)
      → IsUntouched r s (log_granted id req reply e s).1
  unfolding log_granted
  log_granted-IsUntouched id req (Reply.fault w) s = IsUntouched-refl
  log_granted-IsUntouched id req (Reply.response grant) s =
      IsUntouched-trans (call-IsUntouched _ refl) (log_collected-IsUntouched id grant _ _)

  pub do_log_upload-IsUntouched : (s : System) → IsUntouched r s (do_log_upload e s).1
  unfolding do_log_upload
  do_log_upload-IsUntouched s = IsUntouched-trans (call-IsUntouched now_ms refl) (
      IsUntouched-trans (call-IsUntouched now_ms refl)
        (IsUntouched-trans (call-IsUntouched _ refl) (log_granted-IsUntouched _ _ _ _)))

  close-IsUntouched :
      (resp : FinalResultResponse) (o : Outcome) (s : System)
      → IsUntouched r s (close_execution resp o e s).1
  unfolding close_execution persist_vehicle_task persist_execution
  close-IsUntouched resp o s = ground arith

  final_replied-IsUntouched :
      (report : FinalResultReport) (reply : Reply FinalResultResponse) (s : System)
      → IsUntouched r s (final_replied report reply e s).1
  unfolding final_replied
  final_replied-IsUntouched report (Reply.fault w) s = IsUntouched-refl
  final_replied-IsUntouched report (Reply.response x) s = elim (Bool-cases x.result_accepted) [
    | inl y ↦
        simp y
          (IsUntouched-trans (do_log_upload-IsUntouched s) (close-IsUntouched x report.result _))
    | inr n ↦ simp n IsUntouched-refl
  ]

  pub finalize-IsUntouched : (s : System) → IsUntouched r s (do_finalize e s).1
  unfolding do_finalize
  finalize-IsUntouched s = IsUntouched-trans (call-IsUntouched read_final_result refl) (
      IsUntouched-trans (call-IsUntouched now_ms refl)
        (IsUntouched-trans (call-IsUntouched _ refl) (final_replied-IsUntouched _ _ _)))

  policy_replied-IsUntouched :
      (cur : FotaPolicyRecord) (reply : Reply PolicyResponse) (s : System)
      → IsUntouched r s (policy_replied cur reply e s).1
  unfolding policy_replied
  policy_replied-IsUntouched cur (Reply.fault w) s = IsUntouched-refl
  policy_replied-IsUntouched cur (Reply.response x) s = ground arith

  pub policy-IsUntouched : (s : System) → IsUntouched r s (synchronize_policy e s).1
  unfolding synchronize_policy
  policy-IsUntouched s =
      IsUntouched-trans (call-IsUntouched now_ms refl)
        (IsUntouched-trans (call-IsUntouched _ refl) (policy_replied-IsUntouched _ _ _))
