-- ===== src/Store/FotaStateRecovery/Decisions.antt =====
-- When a restart may forget the job in flight, and what becomes of it otherwise.
use iov_vehicle_cgw_fota.Prelude.{
  ◌≡◌, ◌≢◌, refl, sym, ◌∙◌, ℕ, String, true, List, Option, none, some, arith, eq_iff,
}
use iov_vehicle_cgw_fota.Prelude.Result.{Result, ok, thrown}
use iov_vehicle_cgw_fota.Store.FotaState.{
  SequenceState, ActiveJobState, LastSuccessState, completed_pending_cleanup,
}
use iov_vehicle_cgw_fota.Store.FrameworkStore.{FrameworkStore}
use iov_vehicle_cgw_fota.Store.Serializer.Json.{JsonLib}
use iov_vehicle_cgw_fota.Store.Serializer.ActiveJob.{decode_active_job}
use iov_vehicle_cgw_fota.Store.Serializer.LastSuccess.{decode_last_success}
use iov_vehicle_cgw_fota.Store.FotaStateStore.{
  FotaStateStore, active_job_key, last_success_key, ◌>>=◌, after, after-returns, contents-after,
}
use iov_vehicle_cgw_fota.Store.FotaStateStore.Sequence.{load_sequence}
use iov_vehicle_cgw_fota.Store.FotaStateStore.Records.{load_last_success, load_active_job}
use iov_vehicle_cgw_fota.Store.FotaStateStore.Loads.{
  decoded, Loaded, load_active_job-Loaded, load_last_success-Loaded, load_active_job_missed,
  contents-load_active_job, contents-load_last_success, contents-load_sequence,
}
use iov_vehicle_cgw_fota.Store.FotaStateRecovery.{
  RecoveryPlan, no_action, plan_for, confirms, reconcile_completed, recover_job, recover_loaded,
  recover_unblocked, recover,
}

plan_for_acts :
    (job : ActiveJobState) (plan : RecoveryPlan)
    → plan_for job ≡ some plan
    → (plan.action ≢ no_action) × (plan.job ≡ some job)
unfolding plan_for
plan_for_acts job plan h = ground arith

plan_for-none : (job : ActiveJobState) → plan_for job ≡ none → job.phase ≡ completed_pending_cleanup
unfolding plan_for
plan_for-none job h = ground arith

-- The last success was loaded and is the one of the job.
abbrev pub Confirmed : ActiveJobState → Result (Option LastSuccessState) → Type 0
Confirmed job (ok (some l)) = confirms l job ≡ true
Confirmed job _ = ⊥

module _ (fw : FrameworkStore) (lib : JsonLib) where
  reconcile_completed-Confirmed :
      (job : ActiveJobState) (s : FotaStateStore fw)
      → (reconcile_completed fw lib job s).0 ≡ ok true
      → Confirmed job (load_last_success fw lib s).0
  unfolding reconcile_completed
  reconcile_completed-Confirmed job s h = ground arith

  recover_job_forgets :
      (job : ActiveJobState) (s : FotaStateStore fw) (plan : RecoveryPlan)
      → (recover_job fw lib (some job) s).0 ≡ ok plan
      → plan.action ≡ no_action
      → (job.phase ≡ completed_pending_cleanup) × Confirmed job (load_last_success fw lib s).0
  unfolding recover_job
  recover_job_forgets job s plan h e =
      ground (arith, reconcile_completed-Confirmed job s, plan_for-none job, plan_for_acts job plan)

  -- The stored job is completed, and the stored last success is the one of that job.
  abbrev pub IsConfirmed : Option ActiveJobState → Option LastSuccessState → Type 0
  IsConfirmed (some job) (some l) =
      (job.phase ≡ completed_pending_cleanup)
      × (l.report_id ≡ job.report_id)
      × (l.snapshot_seq ≡ job.snapshot_seq)
  IsConfirmed _ _ = ⊥

  not_blocked :
      (s : FotaStateStore fw) (plan : RecoveryPlan)
      → (recover fw lib s).0 ≡ ok plan
      → plan.action ≡ no_action
      → (recover_unblocked fw lib s).0 ≡ ok plan
  unfolding recover
  not_blocked s plan r e = ground arith

  not_rolled_back :
      (seq : Option SequenceState) (last : Option LastSuccessState) (s : FotaStateStore fw)
      (plan : RecoveryPlan)
      → (recover_loaded fw lib seq last s).0 ≡ ok plan
      → plan.action ≡ no_action
      → (after (load_active_job fw lib s) (recover_job fw lib)).0 ≡ ok plan
  unfolding recover_loaded
  not_rolled_back seq last s plan r e = ground arith

  -- A recovery that finds nothing to do has come to the job.
  reaches_job :
      (s : FotaStateStore fw) (plan : RecoveryPlan)
      → (recover fw lib s).0 ≡ ok plan
      → plan.action ≡ no_action
      → let s2 = (load_last_success fw lib (load_sequence fw lib s).1).1 in
        (o : Option ActiveJobState) × ((load_active_job fw lib s2).0 ≡ ok o)
        × ((recover_job fw lib o (load_active_job fw lib s2).1).0 ≡ ok plan)
  unfolding recover_unblocked
  reaches_job s plan r e =
      let s1 : FotaStateStore fw = (load_sequence fw lib s).1 in
      let s2 : FotaStateStore fw = (load_last_success fw lib s1).1 in
      let (seq, e1, r1, _) =
        after-returns (load_sequence fw lib s)
          (λ seq. load_last_success fw lib >>= λ last. recover_loaded fw lib seq last)
          (not_blocked s plan r e) in
      let (last, e2, r2, _) =
        after-returns (load_last_success fw lib s1) (recover_loaded fw lib seq) r1 in
      let (o, q, r3, _) =
        after-returns (load_active_job fw lib s2) (recover_job fw lib)
          (not_rolled_back seq last s2 plan r2 e) in
      (o, q, r3)

  last_agrees :
      (r : Result (Option LastSuccessState)) (job : ActiveJobState) (o : Option (List ℕ))
      → Confirmed job r
      → Loaded (decode_last_success lib) o r
      → job.phase ≡ completed_pending_cleanup
      → IsConfirmed (some job) (decoded (decode_last_success lib) o)
  unfolding confirms
  last_agrees (ok (some l)) job o c e p = rw e (ground (arith, eq_iff l.report_id job.report_id))
  last_agrees (ok none) job o c e p = absurd c
  last_agrees (thrown x) job o c e p = absurd c

  stored_last_matches :
      (job : ActiveJobState) (s : FotaStateStore fw)
      → Confirmed job (load_last_success fw lib s).0
      → job.phase ≡ completed_pending_cleanup
      → IsConfirmed
          (some job)
          (decoded (decode_last_success lib) (fw.contents s.store last_success_key))
  stored_last_matches job s c p =
      last_agrees (load_last_success fw lib s).0 job _ c (load_last_success-Loaded fw lib s) p

  decided :
      (o : Option ActiveJobState) (s : FotaStateStore fw) (bytes : List ℕ) (plan : RecoveryPlan)
      → fw.contents s.store active_job_key ≡ some bytes
      → (load_active_job fw lib s).0 ≡ ok o
      → (recover_job fw lib o (load_active_job fw lib s).1).0 ≡ ok plan
      → plan.action ≡ no_action
      → IsConfirmed
          (decoded (decode_active_job lib) (fw.contents s.store active_job_key))
          (decoded (decode_last_success lib) (fw.contents s.store last_success_key))
  unfolding recover_job
  decided none s bytes plan h q r e =
      absurd (ground (arith, load_active_job_missed fw lib s bytes h q))
  decided (some job) s bytes plan h q r e =
      let s' : FotaStateStore fw = (load_active_job fw lib s).1 in
      let (p, c) = recover_job_forgets job s' plan r e in
      let found : decoded (decode_active_job lib) (fw.contents s.store active_job_key) ≡ some job =
        ground (arith, load_active_job-Loaded fw lib s) in
      rw (found, sym (contents-load_active_job fw lib s last_success_key))
        (stored_last_matches job s' c p)

  -- While a text is stored for the job in flight, a recovery decides that nothing is to be done only if
  -- the stored job had completed and the stored last success has its report and its number.
  pub recover-IsConfirmed :
      (s : FotaStateStore fw) (bytes : List ℕ) (plan : RecoveryPlan)
      → fw.contents s.store active_job_key ≡ some bytes
      → (recover fw lib s).0 ≡ ok plan
      → plan.action ≡ no_action
      → IsConfirmed
          (decoded (decode_active_job lib) (fw.contents s.store active_job_key))
          (decoded (decode_last_success lib) (fw.contents s.store last_success_key))
  recover-IsConfirmed s bytes plan h r e =
      let s1 : FotaStateStore fw = (load_sequence fw lib s).1 in
      let s2 : FotaStateStore fw = (load_last_success fw lib s1).1 in
      let same : (k : String) → fw.contents s2.store k ≡ fw.contents s.store k =
        λ k. contents-load_last_success fw lib s1 k ∙ contents-load_sequence fw lib s k in
      let (o, q, r') = reaches_job s plan r e in
      rw (sym (same active_job_key), sym (same last_success_key))
        (decided o s2 bytes plan (same active_job_key ∙ h) q r' e)

  -- Whatever is loaded, the decision on a job that has not completed changes no stored value.
  decision_keeps :
      (job : ActiveJobState) (s : FotaStateStore fw)
      → job.phase ≢ completed_pending_cleanup
      → (recover_job fw lib (some job) s).1 ≡ s
  unfolding recover_job
  decision_keeps job s h = ground (arith, plan_for-none job)

  no_job_keeps : (s : FotaStateStore fw) → (recover_job fw lib none s).1 ≡ s
  unfolding recover_job
  no_job_keeps s = refl

  tail_keeps :
      (r : Result (Option ActiveJobState)) (job : ActiveJobState) (s : FotaStateStore fw)
      (k : String)
      → (load_active_job fw lib s).0 ≡ r
      → decoded (decode_active_job lib) (fw.contents s.store active_job_key) ≡ some job
      → job.phase ≢ completed_pending_cleanup
      → fw.contents (after (load_active_job fw lib s) (recover_job fw lib)).1.store k
        ≡ fw.contents s.store k
  tail_keeps (thrown x) job s k e d h = rw e (contents-load_active_job fw lib s k)
  tail_keeps (ok none) job s k e d h =
      rw (e, no_job_keeps (load_active_job fw lib s).1) (contents-load_active_job fw lib s k)
  tail_keeps (ok (some found)) job s k e d h =
      let other : found.phase ≢ completed_pending_cleanup =
        ground (arith, load_active_job-Loaded fw lib s) in
      rw (e, decision_keeps found (load_active_job fw lib s).1 other)
        (contents-load_active_job fw lib s k)

  loaded_keeps :
      (seq : Option SequenceState) (last : Option LastSuccessState) (job : ActiveJobState)
      (s : FotaStateStore fw) (k : String)
      → decoded (decode_active_job lib) (fw.contents s.store active_job_key) ≡ some job
      → job.phase ≢ completed_pending_cleanup
      → fw.contents (recover_loaded fw lib seq last s).1.store k ≡ fw.contents s.store k
  unfolding recover_loaded
  loaded_keeps seq last job s k d h =
      ground (arith, tail_keeps (load_active_job fw lib s).0 job s k refl d h)

  unblocked_keeps :
      (job : ActiveJobState) (s : FotaStateStore fw) (k : String)
      → decoded (decode_active_job lib) (fw.contents s.store active_job_key) ≡ some job
      → job.phase ≢ completed_pending_cleanup
      → fw.contents (recover_unblocked fw lib s).1.store k ≡ fw.contents s.store k
  unfolding recover_unblocked
  unblocked_keeps job s k d h =
      let s1 : FotaStateStore fw = (load_sequence fw lib s).1 in
      let s2 : FotaStateStore fw = (load_last_success fw lib s1).1 in
      let same : (k : String) → fw.contents s2.store k ≡ fw.contents s.store k =
        λ k. contents-load_last_success fw lib s1 k ∙ contents-load_sequence fw lib s k in
      contents-after (load_sequence fw lib s)
        (λ seq. load_last_success fw lib >>= λ last. recover_loaded fw lib seq last) k
        (λ seq.
          contents-after (load_last_success fw lib s1) (recover_loaded fw lib seq) k
            (λ last. loaded_keeps seq last job s2 k (rw (same active_job_key) d) h)
          ∙ contents-load_last_success fw lib s1 k)
      ∙ contents-load_sequence fw lib s k

  -- While the stored job decodes to one that has not completed, a recovery that returns decides that
  -- something is to be done, and every stored value is left as it was.
  pub unfinished_kept :
      (job : ActiveJobState) (s : FotaStateStore fw) (bytes : List ℕ) (plan : RecoveryPlan)
      → fw.contents s.store active_job_key ≡ some bytes
      → decode_active_job lib bytes ≡ ok job
      → job.phase ≢ completed_pending_cleanup
      → (recover fw lib s).0 ≡ ok plan
      → (plan.action ≢ no_action)
        × ((k : String) → fw.contents (recover fw lib s).1.store k ≡ fw.contents s.store k)
  unfolding recover
  unfinished_kept job s bytes plan h d u r =
      let found : decoded (decode_active_job lib) (fw.contents s.store active_job_key) ≡ some job =
        ground (arith, h, d) in
      (
        λ e. ground (arith, recover-IsConfirmed s bytes plan h r e),
        λ k. ground (arith, unblocked_keeps job s k found u),
      )
