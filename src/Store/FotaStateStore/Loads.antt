-- ===== src/Store/FotaStateStore/Loads.antt =====
-- What the loads say of the stored values. None of them changes a stored value.
use iov_vehicle_cgw_fota.Prelude.{◌≡◌, ℕ, String, true, List, Option, none, some, arith}
use iov_vehicle_cgw_fota.Prelude.Result.{Result, ok, thrown}
use iov_vehicle_cgw_fota.Store.FrameworkStore.{FrameworkStore}
use iov_vehicle_cgw_fota.Store.Serializer.Json.{JsonLib}
use iov_vehicle_cgw_fota.Store.Serializer.ActiveJob.{decode_active_job}
use iov_vehicle_cgw_fota.Store.Serializer.LastSuccess.{decode_last_success}
use iov_vehicle_cgw_fota.Store.FotaStateStore.{
  FotaStateStore, active_job_key, last_success_key, dedupe_key, sequence_key,
}
use iov_vehicle_cgw_fota.Store.FotaStateStore.Records.{
  load_last_success, load_dedupe, load_active_job,
}
use iov_vehicle_cgw_fota.Store.FotaStateStore.Sequence.{load_sequence}

-- The value that a text under a key stands for.
abbrev pub decoded : {A : Type 0} → (List ℕ → Result A) → Option (List ℕ) → Option A
decoded decode none = none
decoded decode (some bytes) = elim (decode bytes) [ ok a ↦ some a | thrown _ ↦ none ]

-- A load that finds something has decoded what is stored.
abbrev pub Loaded :
    {A : Type 0} → (List ℕ → Result A) → Option (List ℕ) → Result (Option A) → Type 0
Loaded decode o (ok (some a)) = decoded decode o ≡ some a
Loaded decode o _ = Unit

module _ (fw : FrameworkStore) (lib : JsonLib) (s : FotaStateStore fw) where
  pub load_active_job-Loaded :
      Loaded
        (decode_active_job lib)
        (fw.contents s.store active_job_key)
        (load_active_job fw lib s).0
  unfolding load_active_job
  load_active_job-Loaded = ground (
    arith,
    fw.has_answer active_job_key s.store,
    fw.load_answer active_job_key (fw.has active_job_key s.store).1,
    fw.contents-has active_job_key active_job_key s.store,
  )

  pub load_last_success-Loaded :
      Loaded
        (decode_last_success lib)
        (fw.contents s.store last_success_key)
        (load_last_success fw lib s).0
  unfolding load_last_success
  load_last_success-Loaded = ground (
    arith,
    fw.has_answer last_success_key s.store,
    fw.load_answer last_success_key (fw.has last_success_key s.store).1,
    fw.contents-has last_success_key last_success_key s.store,
  )

  -- A job that is stored and not found is marked as damaged.
  pub load_active_job_missed :
      (bytes : List ℕ)
      → fw.contents s.store active_job_key ≡ some bytes
      → (load_active_job fw lib s).0 ≡ ok none
      → (load_active_job fw lib s).1.active_job_corrupted ≡ true
  unfolding load_active_job
  load_active_job_missed bytes h e = ground (arith, fw.has_answer active_job_key s.store)

  pub contents-load_active_job :
      (k : String) → fw.contents (load_active_job fw lib s).1.store k ≡ fw.contents s.store k
  unfolding load_active_job
  contents-load_active_job k = ground (
    arith,
    fw.contents-has active_job_key k s.store,
    fw.contents-load active_job_key k (fw.has active_job_key s.store).1,
  )

  pub contents-load_last_success :
      (k : String) → fw.contents (load_last_success fw lib s).1.store k ≡ fw.contents s.store k
  unfolding load_last_success
  contents-load_last_success k = ground (
    arith,
    fw.contents-has last_success_key k s.store,
    fw.contents-load last_success_key k (fw.has last_success_key s.store).1,
  )

  pub contents-load_dedupe :
      (k : String) → fw.contents (load_dedupe fw lib s).1.store k ≡ fw.contents s.store k
  unfolding load_dedupe
  contents-load_dedupe k = ground (
    arith,
    fw.contents-has dedupe_key k s.store,
    fw.contents-load dedupe_key k (fw.has dedupe_key s.store).1,
  )

  pub contents-load_sequence :
      (k : String) → fw.contents (load_sequence fw lib s).1.store k ≡ fw.contents s.store k
  unfolding load_sequence
  contents-load_sequence k = ground (
    arith,
    fw.contents-has sequence_key k s.store,
    fw.contents-load sequence_key k (fw.has sequence_key s.store).1,
  )
