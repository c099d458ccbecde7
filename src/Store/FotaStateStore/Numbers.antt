-- ===== src/Store/FotaStateStore/Numbers.antt =====
-- The sequence numbers over a run of the program: any order of calls, any failures of the framework.
use iov_vehicle_cgw_fota.Prelude.{
  ◌≡◌, inl, inr, refl, ◌+◌, ◌≤◌, ◌<◌, ℕ, true, ◌∙◌, List, [], ◌∷◌, Option, none, some, arith,
}
use mathlib.Core.Path.{subst}
use iov_vehicle_cgw_fota.Prelude.Result.{Result, ok, thrown}
use iov_vehicle_cgw_fota.Store.FotaState.{LastSuccessState, DedupeState, ActiveJobState}
use iov_vehicle_cgw_fota.Store.FrameworkStore.{FrameworkStore}
use iov_vehicle_cgw_fota.Store.Serializer.Json.{JsonLib}
use iov_vehicle_cgw_fota.Store.FotaStateStore.{
  FotaStateStore, sequence_key, last_success_key, dedupe_key, active_job_key, ◌>>◌, modify,
  store_save, contents-after,
}
use iov_vehicle_cgw_fota.Store.Serializer.LastSuccess.{encode_last_success}
use iov_vehicle_cgw_fota.Store.Serializer.Dedupe.{encode_dedupe}
use iov_vehicle_cgw_fota.Store.Serializer.ActiveJob.{encode_active_job}
use iov_vehicle_cgw_fota.Store.FotaStateStore.Sequence.{allocate_snapshot_seq, load_sequence}
use iov_vehicle_cgw_fota.Store.FotaStateStore.Records.{
  load_last_success, save_last_success, load_dedupe, save_dedupe, load_active_job, save_active_job,
  remove_active_job,
}
use iov_vehicle_cgw_fota.Store.FotaStateStore.Loads.{
  contents-load_active_job, contents-load_last_success, contents-load_dedupe,
  contents-load_sequence,
}
use iov_vehicle_cgw_fota.Store.FotaStateStore.Allocation.{
  HasShortSequences, highest, stored_highest, Counts, allocate_snapshot_seq-Counts,
}

-- The calls that the program makes on an opened store.
pub data StoreCall : Type 0 where
  allocate read_number read_last read_window read_job drop_job : StoreCall
  write_last : LastSuccessState → StoreCall
  write_window : DedupeState → StoreCall
  write_job : ActiveJobState → StoreCall

-- Every number lies above the one before.
abbrev pub Above : Option ℕ → List ℕ → Type 0
Above (some m) (n ∷ ns) = (m < n) × Above (some n) ns
Above none (n ∷ ns) = ⊥
Above o [] = Unit

lower-Above : (m k : ℕ) (ns : List ℕ) → m ≤ k → Above (some k) ns → Above (some m) ns
lower-Above m k [] h a = tt
lower-Above m k (n ∷ ns) h a = (omega arith, a.1)

abbrev returned : Result ℕ → Option ℕ
returned (ok n) = some n
returned (thrown _) = none

abbrev noted : Option ℕ → List ℕ → List ℕ
noted none ns = ns
noted (some n) ns = n ∷ ns

nothing-Above : (o : Option ℕ) → Above o []
nothing-Above none = tt
nothing-Above (some m) = tt

module _ (fw : FrameworkStore) (lib : JsonLib) where
  -- The number that a call returns, if it is an allocation, and the store after the call.
  abbrev pub answer : Result ℕ × FotaStateStore fw → Option ℕ × FotaStateStore fw
  answer p = (returned p.0, p.1)

  abbrev pub make : StoreCall → FotaStateStore fw → Option ℕ × FotaStateStore fw
  make allocate s = answer (allocate_snapshot_seq fw lib s)
  make read_number s = (none, (load_sequence fw lib s).1)
  make read_last s = (none, (load_last_success fw lib s).1)
  make read_window s = (none, (load_dedupe fw lib s).1)
  make read_job s = (none, (load_active_job fw lib s).1)
  make drop_job s = (none, (remove_active_job fw lib s).1)
  make (write_last l) s = (none, (save_last_success fw lib l s).1)
  make (write_window d) s = (none, (save_dedupe fw lib d s).1)
  make (write_job j) s = (none, (save_active_job fw lib j s).1)

  -- The numbers that a run of calls is given.
  abbrev pub numbers : List StoreCall → FotaStateStore fw → List ℕ
  numbers [] s = []
  numbers (c ∷ cs) s = let (o, s') = make c s in noted o (numbers cs s')

  contents-remove_active_job :
      (s : FotaStateStore fw)
      → fw.contents (remove_active_job fw lib s).1.store sequence_key
        ≡ fw.contents s.store sequence_key
  unfolding remove_active_job
  contents-remove_active_job s = fw.contents-remove active_job_key sequence_key s.store refl

  contents-save_last_success :
      (l : LastSuccessState) (s : FotaStateStore fw)
      → fw.contents (save_last_success fw lib l s).1.store sequence_key
        ≡ fw.contents s.store sequence_key
  unfolding save_last_success
  contents-save_last_success l s =
      let w : fw.World = (fw.now_ms s.store).1 in
      contents-after (encode_last_success lib (fw.now_ms s.store).0 l, record s { store = w })
        (λ bytes.
          store_save fw last_success_key bytes
          >> modify (λ s. record s { last_success_available = true }))
        sequence_key
        (λ bytes. ground (arith, fw.contents-save last_success_key bytes sequence_key w refl))
      ∙ fw.contents-now_ms sequence_key s.store

  contents-save_dedupe :
      (d : DedupeState) (s : FotaStateStore fw)
      → fw.contents (save_dedupe fw lib d s).1.store sequence_key ≡ fw.contents s.store sequence_key
  unfolding save_dedupe
  contents-save_dedupe d s =
      let w : fw.World = (fw.now_ms s.store).1 in
      contents-after (encode_dedupe lib (fw.now_ms s.store).0 d, record s { store = w })
        (λ bytes.
          store_save fw dedupe_key bytes >> modify (λ s. record s { dedupe_available = true }))
        sequence_key
        (λ bytes. ground (arith, fw.contents-save dedupe_key bytes sequence_key w refl))
      ∙ fw.contents-now_ms sequence_key s.store

  contents-save_active_job :
      (j : ActiveJobState) (s : FotaStateStore fw)
      → fw.contents (save_active_job fw lib j s).1.store sequence_key
        ≡ fw.contents s.store sequence_key
  unfolding save_active_job
  contents-save_active_job j s =
      let w : fw.World = (fw.now_ms s.store).1 in
      contents-after (encode_active_job lib (fw.now_ms s.store).0 j, record s { store = w })
        (store_save fw active_job_key) sequence_key
        (λ bytes. ground (arith, fw.contents-save active_job_key bytes sequence_key w refl))
      ∙ fw.contents-now_ms sequence_key s.store

  keeps_number :
      (cs : List StoreCall) (s s' : FotaStateStore fw)
      → fw.contents s'.store sequence_key ≡ fw.contents s.store sequence_key
      → Above (stored_highest fw lib s') (numbers cs s')
      → Above (stored_highest fw lib s) (numbers cs s')
  keeps_number cs s s' e a = subst (λ o. Above (highest lib o) (numbers cs s')) e a

  after_allocation :
      (o : Option ℕ) (r : Result ℕ) (o' : Option ℕ) (ns : List ℕ)
      → Counts o r o'
      → Above o' ns
      → Above o (noted (returned r) ns)
  after_allocation none (ok n) o' ns c a = absurd c
  after_allocation none (thrown x) o' ns c a = subst (λ p. Above p ns) c a
  after_allocation (some m) (ok n) o' ns c a = (omega (arith, c.0), subst (λ p. Above p ns) c.2 a)
  after_allocation (some m) (thrown x) o' ns (inl e) a = subst (λ p. Above p ns) e a
  after_allocation (some m) (thrown x) o' ns (inr e) a =
      lower-Above m (m + 1) ns (omega arith) (subst (λ p. Above p ns) e a)

  -- Within a run of the program, with a JSON library whose texts for a sequence state are short, in any
  -- order of calls and whichever calls of the framework fail, the numbers that allocations return
  -- ascend strictly from above the stored number, and there are none while what is stored cannot be
  -- decoded.
  pub numbers-Above :
      (short : HasShortSequences lib) (cs : List StoreCall) (s : FotaStateStore fw)
      → Above (stored_highest fw lib s) (numbers cs s)
  numbers-Above short [] s = nothing-Above (stored_highest fw lib s)
  numbers-Above short (allocate ∷ cs) s =
      let (r, s') = allocate_snapshot_seq fw lib s in
      after_allocation (stored_highest fw lib s) r (stored_highest fw lib s') (numbers cs s')
        (allocate_snapshot_seq-Counts fw lib short s) (numbers-Above short cs s')
  numbers-Above short (read_number ∷ cs) s =
      keeps_number cs s _ (contents-load_sequence fw lib s sequence_key) (numbers-Above short cs _)
  numbers-Above short (read_last ∷ cs) s =
      keeps_number cs s _ (contents-load_last_success fw lib s sequence_key)
        (numbers-Above short cs _)
  numbers-Above short (read_window ∷ cs) s =
      keeps_number cs s _ (contents-load_dedupe fw lib s sequence_key) (numbers-Above short cs _)
  numbers-Above short (read_job ∷ cs) s =
      keeps_number cs s _ (contents-load_active_job fw lib s sequence_key)
        (numbers-Above short cs _)
  numbers-Above short (drop_job ∷ cs) s =
      keeps_number cs s _ (contents-remove_active_job s) (numbers-Above short cs _)
  numbers-Above short (write_last l ∷ cs) s =
      keeps_number cs s _ (contents-save_last_success l s) (numbers-Above short cs _)
  numbers-Above short (write_window d ∷ cs) s =
      keeps_number cs s _ (contents-save_dedupe d s) (numbers-Above short cs _)
  numbers-Above short (write_job j ∷ cs) s =
      keeps_number cs s _ (contents-save_active_job j s) (numbers-Above short cs _)
