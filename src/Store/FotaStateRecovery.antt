-- ===== src/Store/FotaStateRecovery.antt =====
-- The recovery at a restart (`StateRecovery` of src/store/fota_state_recovery.cpp and
-- include/cgw/fota/store/fota_state_recovery.hpp). It runs before the services open.
pub mod Window
pub mod Decisions
use iov_vehicle_cgw_fota.Prelude.{
  ℕ, String, Bool, true, false, not, ◌&&◌, ◌||◌, List, [], ◌∷◌, ◌++◌, Option, none, some, is_some,
  length, ltb, ◌==◌, str_eq, if◌then◌else◌,
}
use iov_vehicle_cgw_fota.Prelude.Int.{ℤ, pos, ltb_ℤ, ◌+ℤ◌}
use iov_vehicle_cgw_fota.Store.FotaState.{
  SequenceState, LastSuccessState, DedupeEntry, DedupeState, ActiveJobState, JobPhase, accepted,
  collecting, assembled, submit_prepared, submit_unknown, retry_waiting, completed_pending_cleanup,
}
use iov_vehicle_cgw_fota.Store.FotaState.Names.{collection_status_to_string}
use iov_vehicle_cgw_fota.Store.FrameworkStore.{FrameworkStore}
use iov_vehicle_cgw_fota.Store.Serializer.Json.{JsonLib}
use iov_vehicle_cgw_fota.Store.FotaStateStore.{Action, pure, gets, ◌>>=◌, ◌>>◌}
use iov_vehicle_cgw_fota.Store.FotaStateStore.Sequence.{load_sequence}
use iov_vehicle_cgw_fota.Store.FotaStateStore.Records.{
  load_last_success, load_dedupe, save_dedupe, load_active_job, remove_active_job,
}

pub data RecoveryAction : Type 0 where
  no_action re_collect resubmit retry re_collect_fresh blocked : RecoveryAction

pub record RecoveryPlan : Type 0 where
  pub action : RecoveryAction
  pub job : Option ActiveJobState
  pub reason : String

unfoldable pub should_resume_job : RecoveryPlan → Bool
should_resume_job plan = elim plan.action [
  | re_collect ↦ true
  | resubmit ↦ true
  | retry ↦ true
  | _ ↦ false
]

-- `last_success.snapshotSeq > sequence.highestAllocated`
unfoldable pub rolled_back : Option SequenceState → Option LastSuccessState → Bool
rolled_back (some q) (some l) = ltb q.highest_allocated l.snapshot_seq
rolled_back _ _ = false

-- The loop that looks for the report among the entries.
unfoldable pub holds_report : List DedupeEntry → LastSuccessState → Bool
holds_report [] l = false
holds_report (e ∷ es) l =
    e.snapshot_seq == l.snapshot_seq && str_eq e.report_id l.report_id || holds_report es l

unfoldable pub entry_of : ActiveJobState → LastSuccessState → DedupeState → DedupeEntry
entry_of job l d = record {
  request_id = job.request_id;
  report_id = l.report_id;
  snapshot_seq = l.snapshot_seq;
  fingerprints = l.fingerprints;
  overall_result = collection_status_to_string l.overall_result;
  completed_at = l.completed_at;
  expires_at = if ltb_ℤ (pos 0) d.ttl_ms then l.completed_at +ℤ d.ttl_ms else pos 0;
}

-- `while (size() > maxEntries && maxEntries > 0) erase(begin())`
unfoldable pub evict : ℕ → List DedupeEntry → List DedupeEntry
evict max [] = []
evict max (e ∷ es) =
    let rest = evict max es in if ltb max (length (e ∷ es)) && ltb 0 max then rest else e ∷ es

unfoldable pub with_entry : ActiveJobState → LastSuccessState → DedupeState → DedupeState
unfolding evict entry_of
with_entry job l d = record d { entries = evict d.max_entries (d.entries ++ entry_of job l d ∷ []) }

-- `matches reportId and snapshotSeq`
unfoldable pub confirms : LastSuccessState → ActiveJobState → Bool
confirms l job = str_eq l.report_id job.report_id && l.snapshot_seq == job.snapshot_seq

abbrev pub plan_of : RecoveryAction → Option ActiveJobState → String → RecoveryPlan
plan_of action job reason = record { action = action; job = job; reason = reason }

-- The phases that need nothing from the store.
unfoldable pub plan_for : ActiveJobState → Option RecoveryPlan
plan_for job = elim job.phase [
  | accepted ↦ some (plan_of re_collect (some job) "re-collect with original reportId")
  | collecting ↦ some (plan_of re_collect (some job) "re-collect with original reportId")
  | assembled ↦ some submitted
  | submit_prepared ↦ some submitted
  | submit_unknown ↦ some retried
  | retry_waiting ↦ some retried
  | completed_pending_cleanup ↦ none
]
  where
    submitted : RecoveryPlan
    submitted =
        if job.snapshot_seq == 0
        then plan_of re_collect (some job) "assembled but seq unallocated, re-collect"
        else plan_of resubmit (some job) "resubmit with original idempotencyKey"

    retried : RecoveryPlan
    retried = plan_of retry (some job) "retry with original ids, result unknown"

module _ (fw : FrameworkStore) (lib : JsonLib) where
  -- Adds the report to the window unless it is there, then removes the job.
  unfoldable pub clean_up : ActiveJobState → LastSuccessState → Action fw Bool
  clean_up job l = do
    d ← load_dedupe fw lib
    if holds_report d.entries l then pure tt else save_dedupe fw lib (with_entry job l d)
    remove_active_job fw lib
    pure true

  unfoldable pub reconcile_completed : ActiveJobState → Action fw Bool
  unfolding clean_up
  reconcile_completed job = do
    last ← load_last_success fw lib
    elim last [ none ↦ pure false | some l ↦ if confirms l job then clean_up job l else pure false ]

  -- The end of `recover`, when a job was loaded or not.
  unfoldable pub recover_job : Option ActiveJobState → Action fw RecoveryPlan
  unfolding reconcile_completed
  recover_job none = do
    corrupted ← gets (λ s. s.active_job_corrupted)
    pure (
        if corrupted
        then plan_of re_collect_fresh none "active_job corrupted"
        else plan_of no_action none "no active job")
  recover_job (some job) = elim (plan_for job) [
    | some plan ↦ pure plan
    | none ↦ (do
      cleaned ← reconcile_completed job
      pure (
          if cleaned
          then plan_of no_action none "completed and cleaned up"
          else plan_of re_collect (some job) "last_success mismatch, re-collect"))
  ]

  -- From the comparison of the two numbers on.
  unfoldable pub recover_loaded :
      Option SequenceState → Option LastSuccessState → Action fw RecoveryPlan
  unfolding recover_job
  recover_loaded seq last =
      if rolled_back seq last
      then pure (plan_of blocked none "sequence rollback detected")
      else (load_active_job fw lib >>= recover_job)

  unfoldable pub recover_unblocked : Action fw RecoveryPlan
  unfolding recover_loaded
  recover_unblocked = do
    seq ← load_sequence fw lib
    last ← load_last_success fw lib
    recover_loaded seq last

  unfoldable pub recover : Action fw RecoveryPlan
  unfolding recover_unblocked
  recover = do
    stopped ← gets (λ s. s.sequence_blocked)
    if stopped then pure (plan_of blocked none "sequence blocked") else recover_unblocked
