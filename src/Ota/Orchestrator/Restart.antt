-- ===== src/Ota/Orchestrator/Restart.antt =====
-- A restart from the bytes that the framework's store keeps: the loads of `loadFromStore` with the
-- decoding of the records (src/store/fota_cloud_state_store.cpp,
-- src/store/fota_cloud_state_serializer.cpp).
pub mod Resumes
use iov_vehicle_cgw_fota.Prelude.{
  ℕ, ◌≡◌, ◌≢◌, ◌<◌, refl, sym, ap, ◌∙◌, String, Bool, true, false, List, [], ◌∷◌, Option, none,
  some, length, str_eq, if◌then◌else◌, Bool-cases, inl, inr,
}
use iov_vehicle_cgw_fota.Prelude.Int.{ℤ}
use iov_vehicle_cgw_fota.Prelude.Result.{Result, ok, ◌>>=◌, ◌>>◌}
use iov_vehicle_cgw_fota.Store.CloudState.{
  CloudStore, empty_store, FotaVehicleTaskRecord, FotaExecutionRecord, FotaEventOutboxMeta,
}
use iov_vehicle_cgw_fota.Store.Serializer.Json.{JsonLib}
use iov_vehicle_cgw_fota.Store.CloudSerializer.Hex.{
  HexLib, HexReply, proto_binary_to_hex, hex_to_proto_binary,
}
use iov_vehicle_cgw_fota.Store.CloudSerializer.Tasks.{encode_vehicle_task, decode_vehicle_task}
use iov_vehicle_cgw_fota.Store.CloudSerializer.Installation.{
  encode_execution, decode_execution, encode_event_outbox_meta, decode_event_outbox_meta,
  encode_event_outbox, decode_event_outbox, encode_control, decode_control,
}
use iov_vehicle_cgw_fota.Store.CloudSerializer.RoundTrip.Tasks.{
  FitsVehicleTask, decode-encode_vehicle_task,
}
use iov_vehicle_cgw_fota.Store.CloudSerializer.RoundTrip.Installation.{
  FitsExecution, FitsEventOutboxMeta, FitsEventOutbox, FitsControl, decode-encode_execution,
  decode-encode_event_outbox_meta, decode-encode_event_outbox, decode-encode_control,
}
use iov_vehicle_cgw_fota.Ota.Messages.{VehicleTaskSnapshot, OfflinePolicy, TimeoutPolicy}
use iov_vehicle_cgw_fota.Ota.Ports.{Codec}
use iov_vehicle_cgw_fota.Ota.Orchestrator.System.{System, Env}
use iov_vehicle_cgw_fota.Ota.Orchestrator.Persist.{
  persist_vehicle_task, execution_record, persist_execution, hex_of,
}
use iov_vehicle_cgw_fota.Ota.Orchestrator.Recovery.{
  ReadsTask, recovered, IsResumed, saved, read_at_start, records_resume,
}

-- The bytes under the keys of the vehicle-cloud state.
pub record Medium : Type 0 where
  pub vehicle_task : Option (List ℕ)
  pub execution : Option (List ℕ)
  pub event_outbox_meta : Option (List ℕ)
  pub events : ℕ → Option (List ℕ)
  pub controls : ℕ → Option (List ℕ)

-- `if (!store_.has(key)) return std::nullopt; return decode(store_.load(key));`
abbrev pub load : {A : Type 0} → (List ℕ → Result A) → Option (List ℕ) → Result (Option A)
load decode none = ok none
load decode (some bytes) = decode bytes >>= λ r. ok (some r)

-- The text of a message is decoded where it is not empty.
abbrev pub check_hex : HexLib → String → Result (Unit {0})
check_hex hex text =
    let decoded = hex_to_proto_binary hex text >>= λ b. ok tt in
    if str_eq text "" then ok tt else decoded

abbrev pub task_hex : Option FotaVehicleTaskRecord → String
task_hex none = ""
task_hex (some r) = r.task_snapshot_pb_hex

abbrev pub has_no_snapshot : Option FotaVehicleTaskRecord → Bool
has_no_snapshot none = false
has_no_snapshot (some r) = str_eq r.task_snapshot_pb_hex ""

abbrev pub check_policies : HexLib → Option FotaExecutionRecord → Result (Unit {0})
check_policies hex none = ok tt
check_policies hex (some r) =
    check_hex hex r.offline_policy_pb_hex >> check_hex hex r.timeout_policy_pb_hex

-- `loadFromStore` of a new orchestrator: without a snapshot it ends after the vehicle task.
unfoldable pub restarted : JsonLib → HexLib → Env → Medium → Result System
restarted lib hex e m = load (decode_vehicle_task lib) m.vehicle_task >>= λ vt.
    check_hex hex (task_hex vt)
    >> (let bare = ok (recovered e (record empty_store { vehicle_task = vt })) in
        let whole = load (decode_execution lib) m.execution >>= λ ex.
        check_policies hex ex
        >> (load (decode_event_outbox_meta lib) m.event_outbox_meta >>= λ meta. ok (
            recovered e (record empty_store {
              vehicle_task = vt;
              execution = ex;
              event_outbox_meta = meta;
            }))) in
        if has_no_snapshot vt then bare else whole)

-- A record with numbers that fit was encoded, at some time, into less than 4 GiB.
abbrev pub Written :
    {A : Type 0} → (ℤ → A → Result (List ℕ)) → (A → Type 0) → Option A → Option (List ℕ) → Type 0
Written encode Fits none none = Unit
Written encode Fits none (some bytes) = ⊥
Written encode Fits (some r) none = ⊥
Written encode Fits (some r) (some bytes) =
    Fits r × ((now : ℤ) × (encode now r ≡ ok bytes)) × (length bytes < 4294967296)

-- The medium holds what the saves of the store have written.
pub record IsWritten (lib : JsonLib) (store : CloudStore) (m : Medium) : Type 0 where
  pub vehicle_task :
      Written (encode_vehicle_task lib) FitsVehicleTask store.vehicle_task m.vehicle_task
  pub execution : Written (encode_execution lib) FitsExecution store.execution m.execution
  pub event_outbox_meta :
      Written
        (encode_event_outbox_meta lib)
        FitsEventOutboxMeta
        store.event_outbox_meta
        m.event_outbox_meta
  pub events :
      (j : ℕ) → Written (encode_event_outbox lib) FitsEventOutbox (store.events j) (m.events j)
  pub controls :
      (j : ℕ) → Written (encode_control lib) FitsControl (store.controls j) (m.controls j)

-- `SerializeToString` and `ParseFromString` of the generated classes.
pub record ProtoMessages : Type 0 where
  pub serialize_task : VehicleTaskSnapshot → List ℕ
  pub parse_task : List ℕ → VehicleTaskSnapshot
  pub serialize_offline : OfflinePolicy → List ℕ
  pub serialize_timeout : TimeoutPolicy → List ℕ

-- The codec is the messages' serialization inside the hexadecimal form.
pub record IsHexCodec (hex : HexLib) (proto : ProtoMessages) (codec : Codec) : Type 0 where
  pub task_written :
      (t : VehicleTaskSnapshot)
      → codec.task_to_hex t ≡ proto_binary_to_hex hex (proto.serialize_task t)
  pub task_read :
      (text : String) (binary : List ℕ)
      → hex_to_proto_binary hex text ≡ ok binary
      → codec.task_of_hex text ≡ proto.parse_task binary
  pub offline_written :
      (p : OfflinePolicy)
      → codec.offline_to_hex p ≡ proto_binary_to_hex hex (proto.serialize_offline p)
  pub timeout_written :
      (p : TimeoutPolicy)
      → codec.timeout_to_hex p ≡ proto_binary_to_hex hex (proto.serialize_timeout p)

-- The serialization gives this task back, from at least one byte.
abbrev pub IsReadable : ProtoMessages → VehicleTaskSnapshot → Type 0
IsReadable proto task =
    (proto.parse_task (proto.serialize_task task) ≡ task) × (proto.serialize_task task ≢ [])
