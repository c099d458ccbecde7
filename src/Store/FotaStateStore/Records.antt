-- ===== src/Store/FotaStateStore/Records.antt =====
-- The last success, the deduplication window and the job in flight: their loads, saves and removal.
-- A save that throws passes the exception on.
use iov_vehicle_cgw_fota.Prelude.{true, false, not, [], Option, none, some, if◌then◌else◌}
use iov_vehicle_cgw_fota.Prelude.Result.{Exception, store_exception, state_decode_error}
use iov_vehicle_cgw_fota.Store.FotaState.{LastSuccessState, DedupeState, ActiveJobState}
use iov_vehicle_cgw_fota.Store.FrameworkStore.{FrameworkStore}
use iov_vehicle_cgw_fota.Store.Serializer.Json.{JsonLib}
use iov_vehicle_cgw_fota.Store.Serializer.LastSuccess.{encode_last_success, decode_last_success}
use iov_vehicle_cgw_fota.Store.Serializer.Dedupe.{encode_dedupe, decode_dedupe}
use iov_vehicle_cgw_fota.Store.Serializer.ActiveJob.{encode_active_job, decode_active_job}
use iov_vehicle_cgw_fota.Store.FotaStateStore.{
  FotaStateStore, Action, pure, lift, gets, modify, ◌>>=◌, ◌>>◌, catching, now_ms, store_has,
  store_load, store_save, store_remove, last_success_key, dedupe_key, active_job_key,
}

-- A damaged value and a failed read are handled in the same way: `mark`, then an answer.
abbrev pub on_damage {ℓ} :
    {fw : FrameworkStore} {A : Type ℓ}
    → (FotaStateStore fw → FotaStateStore fw)
    → A
    → Exception
    → Option (Action fw A)
on_damage mark a (store_exception _) = some (modify mark >> pure a)
on_damage mark a (state_decode_error _) = some (modify mark >> pure a)
on_damage mark a _ = none

module _ (fw : FrameworkStore) (lib : JsonLib) where
  unfoldable pub load_last_success : Action fw (Option LastSuccessState)
  load_last_success = do
    available ← gets (λ s. s.last_success_available)
    if not available
        then pure none
        else catching
            (do
              exists ← store_has fw last_success_key
              if exists
                  then (do
                    bytes ← store_load fw last_success_key
                    l ← lift (decode_last_success lib bytes)
                    pure (some l))
                  else pure none)
            (on_damage (λ s. record s { last_success_available = false }) none)

  unfoldable pub save_last_success : LastSuccessState → Action fw (Unit {0})
  save_last_success l = do
    now ← now_ms
    bytes ← lift (encode_last_success lib now l)
    store_save fw last_success_key bytes
    modify (λ s. record s { last_success_available = true })

  abbrev pub empty_window : FotaStateStore fw → DedupeState
  empty_window s = record {
    schema_version = 2;
    entries = [];
    max_entries = s.dedupe_max_entries;
    ttl_ms = s.dedupe_ttl_ms;
  }

  -- The bounds of the configuration hold, whatever was stored.
  abbrev pub bounded : FotaStateStore fw → DedupeState → DedupeState
  bounded s d = record d { max_entries = s.dedupe_max_entries; ttl_ms = s.dedupe_ttl_ms }

  unfoldable pub load_dedupe : Action fw DedupeState
  load_dedupe = do
    available ← gets (λ s. s.dedupe_available)
    empty ← gets empty_window
    if not available
        then pure empty
        else catching
            (do
              exists ← store_has fw dedupe_key
              if exists
                  then (do
                    bytes ← store_load fw dedupe_key
                    d ← lift (decode_dedupe lib bytes)
                    gets (λ s. bounded s d))
                  else pure empty)
            (on_damage (λ s. record s { dedupe_available = false }) empty)

  unfoldable pub save_dedupe : DedupeState → Action fw (Unit {0})
  save_dedupe d = do
    now ← now_ms
    bytes ← lift (encode_dedupe lib now d)
    store_save fw dedupe_key bytes
    modify (λ s. record s { dedupe_available = true })

  unfoldable pub load_active_job : Action fw (Option ActiveJobState)
  load_active_job =
      catching
        (do
          exists ← store_has fw active_job_key
          if exists
              then (do
                bytes ← store_load fw active_job_key
                j ← lift (decode_active_job lib bytes)
                pure (some j))
              else pure none)
        (on_damage (λ s. record s { active_job_corrupted = true }) none)

  unfoldable pub save_active_job : ActiveJobState → Action fw (Unit {0})
  save_active_job j = do
    now ← now_ms
    bytes ← lift (encode_active_job lib now j)
    store_save fw active_job_key bytes

  unfoldable pub remove_active_job : Action fw (Unit {0})
  remove_active_job = store_remove fw active_job_key
