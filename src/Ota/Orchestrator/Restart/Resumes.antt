-- ===== src/Ota/Orchestrator/Restart/Resumes.antt =====
-- A restart resumes: the proof over the bytes that the saves have written.
use iov_vehicle_cgw_fota.Prelude.{
  ℕ, ◌≡◌, ◌≢◌, ◌<◌, refl, ap, ◌∙◌, String, false, List, [], ◌∷◌, Option, none, some, length, str_eq,
  Bool-cases, inl, inr,
}
use iov_vehicle_cgw_fota.Prelude.Int.{ℤ}
use iov_vehicle_cgw_fota.Prelude.Result.{Result, ok, ◌>>=◌, ◌>>◌}
use iov_vehicle_cgw_fota.Store.CloudState.{CloudStore}
use iov_vehicle_cgw_fota.Store.Serializer.Json.{JsonLib}
use iov_vehicle_cgw_fota.Store.CloudSerializer.Hex.{
  HexLib, proto_binary_to_hex, hex_to_proto_binary,
}
use iov_vehicle_cgw_fota.Store.CloudSerializer.Tasks.{encode_vehicle_task, decode_vehicle_task}
use iov_vehicle_cgw_fota.Store.CloudSerializer.Installation.{
  encode_execution, decode_execution, encode_event_outbox_meta, decode_event_outbox_meta,
  encode_event_outbox, decode_event_outbox, encode_control, decode_control,
}
use iov_vehicle_cgw_fota.Store.CloudSerializer.RoundTrip.Tasks.{
  FitsVehicleTask, decode-encode_vehicle_task,
}
use iov_vehicle_cgw_fota.Store.CloudSerializer.RoundTrip.Installation.{
  FitsExecution, FitsEventOutboxMeta, FitsEventOutbox, FitsControl, decode-encode_execution,
  decode-encode_event_outbox_meta, decode-encode_event_outbox, decode-encode_control,
}
use iov_vehicle_cgw_fota.Ota.Orchestrator.System.{System, Env}
use iov_vehicle_cgw_fota.Ota.Orchestrator.Persist.{
  persist_vehicle_task, execution_record, persist_execution, hex_of,
}
use iov_vehicle_cgw_fota.Ota.Orchestrator.Recovery.{
  recovered, IsResumed, saved, read_at_start, records_resume,
}
use iov_vehicle_cgw_fota.Ota.Orchestrator.Restart.{
  Medium, load, check_hex, task_hex, has_no_snapshot, check_policies, restarted, Written, IsWritten,
  ProtoMessages, IsHexCodec, IsReadable,
}

load-Written :
    {A : Type 0} (encode : ℤ → A → Result (List ℕ)) (decode : List ℕ → Result A) (Fits : A → Type 0)
    → ((now : ℤ) (r : A) (bytes : List ℕ)
        → Fits r
        → encode now r ≡ ok bytes
        → length bytes < 4294967296
        → decode bytes ≡ ok r)
    → (o : Option A) (b : Option (List ℕ)) → Written encode Fits o b
    → load decode b ≡ ok o
load-Written encode decode Fits back none none w = refl
load-Written encode decode Fits back none (some bytes) w = absurd w
load-Written encode decode Fits back (some r) none w = absurd w
load-Written encode decode Fits back (some r) (some bytes) (f, (now, h), l) =
    ap (λ x. x >>= λ r. ok (some r)) (back now r bytes f h l)

module _ (hex : HexLib) where
  hex_decoded : (b : List ℕ) → hex_to_proto_binary hex (proto_binary_to_hex hex b) ≡ ok b
  hex_decoded b = rw (hex.hex_to_bytes-bytes_to_hex b, hex_to_proto_binary) refl

  hex_checked : (b : List ℕ) → check_hex hex (proto_binary_to_hex hex b) ≡ ok tt
  hex_checked b = elim (Bool-cases (str_eq (hex.bytes_to_hex b) "")) [
    | inl y ↦ simp y refl
    | inr n ↦ simp (n, hex_decoded b) refl
  ]

  policy_checked :
      {A : Type 0} (to_hex : A → String) (serialize : A → List ℕ)
      → ((a : A) → to_hex a ≡ proto_binary_to_hex hex (serialize a))
      → (o : Option A) → check_hex hex (hex_of to_hex o) ≡ ok tt
  unfolding hex_of
  policy_checked to_hex serialize h none = refl
  policy_checked to_hex serialize h (some a) = ap (check_hex hex) (h a) ∙ hex_checked (serialize a)

  not_empty : (b : List ℕ) → b ≢ [] → str_eq (proto_binary_to_hex hex b) "" ≡ false
  not_empty [] n = absurd (n refl)
  not_empty (x ∷ xs) n = hex.bytes_to_hex-cons x xs

  run_of :
      (lib : JsonLib) (e : Env) (m : Medium) (store : CloudStore)
      → load (decode_vehicle_task lib) m.vehicle_task ≡ ok store.vehicle_task
      → check_hex hex (task_hex store.vehicle_task) ≡ ok tt
      → has_no_snapshot store.vehicle_task ≡ false
      → load (decode_execution lib) m.execution ≡ ok store.execution
      → check_policies hex store.execution ≡ ok tt
      → load (decode_event_outbox_meta lib) m.event_outbox_meta ≡ ok store.event_outbox_meta
      → restarted lib hex e m ≡ ok (recovered e (read_at_start store))
  unfolding restarted
  run_of lib e m store vt checked full ex policies meta =
      rw (vt, checked, full, ex, policies, meta) refl

  module _ (lib : JsonLib) (proto : ProtoMessages) (action : String) (e : Env) (s : System) where
    -- After the task and the execution have been saved, a restart from the bytes that the saves have
    -- written does not fail. It finds the states, the task, the execution's id and attempt and the
    -- sequence numbers as they were, and every event and command is read as it was. The numbers of the
    -- records fit their types and each record takes less than 4 GiB; the JSON library and the
    -- framework's hexadecimal form behave as documented, and the message serialization gives the task
    -- back, from at least one byte.
    pub restart_resumes :
        (m : Medium)
        → IsHexCodec hex proto e.codec
        → IsReadable proto s.frozen_task
        → IsWritten lib (saved action e s).store m
        → ((t : System) × (restarted lib hex e m ≡ ok t) × IsResumed s t)
          × ((j : ℕ) → load (decode_event_outbox lib) (m.events j) ≡ ok (s.store.events j))
          × ((j : ℕ) → load (decode_control lib) (m.controls j) ≡ ok (s.store.controls j))
    unfolding restarted persist_execution persist_vehicle_task execution_record
    restart_resumes m c readable w =
        let store = (saved action e s).store in
        let binary = proto.serialize_task s.frozen_task in
        let full : str_eq (e.codec.task_to_hex s.frozen_task) "" ≡ false =
          ap (λ x. str_eq x "") (c.task_written s.frozen_task) ∙ not_empty binary readable.1 in
        let back : e.codec.task_of_hex (e.codec.task_to_hex s.frozen_task) ≡ s.frozen_task =
          ap e.codec.task_of_hex (c.task_written s.frozen_task)
          ∙ (c.task_read (proto_binary_to_hex hex binary) binary (hex_decoded binary)
              ∙ readable.0) in
        let vt =
          load-Written (encode_vehicle_task lib) (decode_vehicle_task lib) FitsVehicleTask
            (λ now r b f. decode-encode_vehicle_task lib now r b f) store.vehicle_task
            m.vehicle_task w.vehicle_task in
        let ex =
          load-Written (encode_execution lib) (decode_execution lib) FitsExecution
            (λ now r b f. decode-encode_execution lib now r b f) store.execution m.execution
            w.execution in
        let meta =
          load-Written (encode_event_outbox_meta lib) (decode_event_outbox_meta lib)
            FitsEventOutboxMeta (λ now r b f. decode-encode_event_outbox_meta lib now r b f)
            store.event_outbox_meta m.event_outbox_meta w.event_outbox_meta in
        let task = ap (check_hex hex) (c.task_written s.frozen_task) ∙ hex_checked binary in
        let offline =
          policy_checked e.codec.offline_to_hex proto.serialize_offline c.offline_written
            s.permit.offline_policy in
        let timeout =
          policy_checked e.codec.timeout_to_hex proto.serialize_timeout c.timeout_written
            s.permit.timeout_policy in
        (
          (
            recovered e (read_at_start store),
            run_of lib e m store vt task full ex
                (ap
                    (λ x.
                      x >> check_hex hex (hex_of e.codec.timeout_to_hex s.permit.timeout_policy))
                    offline
                  ∙ timeout)
                meta,
            records_resume action e s (back, full),
          ),
          (λ j.
              load-Written (encode_event_outbox lib) (decode_event_outbox lib) FitsEventOutbox
                (λ now r b f. decode-encode_event_outbox lib now r b f) (store.events j)
                (m.events j) (w.events j)),
          λ j.
              load-Written (encode_control lib) (decode_control lib) FitsControl
                (λ now r b f. decode-encode_control lib now r b f) (store.controls j) (m.controls j)
                (w.controls j),
        )
