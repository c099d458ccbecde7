-- ===== src/Store/FotaStateStore/Open.antt =====
-- Opening the store: `open` and `migrateAndValidate`. `Store::open` of the framework either throws,
-- and then there is no store, or gives the store that the model starts from.
use iov_vehicle_cgw_fota.Prelude.{
  ℕ, String, Bool, true, false, not, List, Option, none, some, ltb, ◌==◌, if◌then◌else◌,
}
use iov_vehicle_cgw_fota.Prelude.Int.{ℤ}
use iov_vehicle_cgw_fota.Prelude.Text.{join, to_string}
use iov_vehicle_cgw_fota.Prelude.Result.{Exception, Result, store_exception, state_decode_error}
use iov_vehicle_cgw_fota.Store.FotaState.{
  sequence_version, last_success_version, dedupe_version, active_job_version,
}
use iov_vehicle_cgw_fota.Store.FrameworkStore.{FrameworkStore}
use iov_vehicle_cgw_fota.Store.Serializer.Json.{JsonLib}
use iov_vehicle_cgw_fota.Store.Serializer.Envelope.{parse_envelope_header}
use iov_vehicle_cgw_fota.Store.Serializer.Sequence.{encode_sequence, decode_sequence}
use iov_vehicle_cgw_fota.Store.Serializer.LastSuccess.{encode_last_success, decode_last_success}
use iov_vehicle_cgw_fota.Store.Serializer.Dedupe.{encode_dedupe, decode_dedupe}
use iov_vehicle_cgw_fota.Store.Serializer.ActiveJob.{encode_active_job, decode_active_job}
use iov_vehicle_cgw_fota.Store.FotaStateStore.{
  FotaStateStore, Action, pure, lift, modify, ◌>>=◌, ◌>>◌, catching, now_ms, store_has, store_load,
  store_save, sequence_key, last_success_key, dedupe_key, active_job_key,
}

-- `corruptionFlag = true; return;` on the exceptions that a `catch` names
abbrev pub flag_store : {fw : FrameworkStore} → Exception → Option (Action fw Bool)
flag_store (store_exception _) = some (pure true)
flag_store _ = none

abbrev pub flag_decode : {fw : FrameworkStore} → Exception → Option (Action fw Bool)
flag_decode (state_decode_error _) = some (pure true)
flag_decode _ = none

abbrev pub flag_both : {fw : FrameworkStore} → Exception → Option (Action fw Bool)
flag_both (store_exception _) = some (pure true)
flag_both (state_decode_error _) = some (pure true)
flag_both _ = none

abbrev pub flag_all : {fw : FrameworkStore} → Exception → Option (Action fw Bool)
flag_all _ = some (pure true)

-- `std::string("migration.backup.") + key + ".v" + std::to_string(version)`
unfoldable pub backup_key : String → ℕ → String
backup_key key version = join "migration.backup." (join key (join ".v" (to_string version)))

-- Carries on unless the flag is set.
abbrev pub unless_flagged : {fw : FrameworkStore} → Action fw Bool → Action fw Bool → Action fw Bool
unless_flagged m k = m >>= λ flagged. if flagged then pure true else k

module _ (fw : FrameworkStore) {State : Type 0} (key : String) (current : ℕ) where
  -- `decodeFn(env)`, kept only for what it throws.
  abbrev pub decodes : (List ℕ → Result State) → List ℕ → Action fw Bool
  decodes decode env = lift (decode env) >>= λ _. pure false

  -- From an old version: the backup, the new format in its place, and the check of what was written.
  unfoldable pub migrate_key :
      (List ℕ → Result State) → (ℤ → State → Result (List ℕ)) → List ℕ → ℕ → Action fw Bool
  migrate_key decode encode env version =
      unless_flagged
        (catching (store_save fw (backup_key key version) env >> pure false) flag_store)
        (unless_flagged
          (catching
            (do
              st ← lift (decode env)
              now ← now_ms
              bytes ← lift (encode now st)
              store_save fw key bytes
              pure false)
            flag_both)
          (catching (store_load fw key >>= decodes decode) flag_all))

  -- The value of `corruptionFlag`.
  unfoldable pub migrate_and_validate :
      (List ℕ → Result State) → (ℤ → State → Result (List ℕ)) → Action fw Bool
  unfolding migrate_key
  migrate_and_validate decode encode = do
    let absent_or_flagged : Action fw (Option Bool) =
        catching (store_has fw key >>= λ exists. pure (if exists then none else some false))
          (λ e. elim e [ store_exception _ ↦ some (pure (some true)) | _ ↦ none ])
    found ← absent_or_flagged
    elim found [
      | some flag ↦ pure flag
      | none ↦ (do
        env ←
            catching (store_load fw key >>= λ env. pure (some env))
              (λ e. elim e [ store_exception _ ↦ some (pure none) | _ ↦ none ])
        elim env [
          | none ↦ pure true
          | some bytes ↦ (do
            header ←
                catching (lift (parse_envelope_header bytes) >>= λ h. pure (some h.schema_version))
                  (λ e. elim e [ state_decode_error _ ↦ some (pure none) | _ ↦ none ])
            elim header [
              | none ↦ pure true
              | some version ↦
                  if ltb current version
                  then pure true
                  else if version == current
                  then catching (decodes decode bytes) flag_decode
                  else migrate_key decode encode bytes version
            ])
        ])
    ]

module _ (fw : FrameworkStore) (lib : JsonLib) where
  -- `FotaStateStore::open` over the framework's opened store
  unfoldable pub open_store : Action fw (Unit {0})
  unfolding migrate_and_validate
  open_store = do
    seq ←
        migrate_and_validate fw sequence_key sequence_version (decode_sequence lib)
          (encode_sequence lib)
    last ←
        migrate_and_validate fw last_success_key last_success_version (decode_last_success lib)
          (encode_last_success lib)
    dedupe ←
        migrate_and_validate fw dedupe_key dedupe_version (decode_dedupe lib) (encode_dedupe lib)
    job ←
        migrate_and_validate fw active_job_key active_job_version (decode_active_job lib)
          (encode_active_job lib)
    modify (λ s. record s {
      sequence_blocked = seq;
      last_success_available = not last;
      dedupe_available = not dedupe;
      active_job_corrupted = job;
    })

  -- A store just constructed, with the bounds of the configuration.
  abbrev pub constructed : fw.World → ℕ → ℤ → FotaStateStore fw
  constructed w max_entries ttl = record {
    store = w;
    dedupe_max_entries = max_entries;
    dedupe_ttl_ms = ttl;
    sequence_blocked = false;
    last_success_available = true;
    dedupe_available = true;
    active_job_corrupted = false;
  }
