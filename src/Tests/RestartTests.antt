-- ===== src/Tests/RestartTests.antt =====
-- A restart of an installation with one event, over a hexadecimal form in which a byte is as many `1`
-- as it says and a `0`.
use Prim.Native.Char.{Char, code}
use Prim.Native.String.{[] as empty, ◌∷◌ as then_char}
use iov_vehicle_cgw_fota.Prelude.{
  ◌≡◌, refl, ap, ◌∙◌, ℕ, zero, suc, ◌+◌, String, Bool, true, false, List, [], ◌∷◌, Option, none,
  some, ◌==◌, str_eq, eq_iff, position, arith, Bool-cases, inl, inr, if◌then◌else◌,
}
use iov_vehicle_cgw_fota.Prelude.Int.{pos}
use iov_vehicle_cgw_fota.Prelude.Result.{Result, ok}
use iov_vehicle_cgw_fota.Store.CloudState.{FotaEventOutboxRecord, empty_store}
use iov_vehicle_cgw_fota.Store.CloudSerializer.Hex.{HexLib, bytes}
use iov_vehicle_cgw_fota.Store.CloudSerializer.Tasks.{encode_vehicle_task, vehicle_task_json}
use iov_vehicle_cgw_fota.Store.CloudSerializer.Installation.{
  execution_json, event_outbox_meta_json, event_outbox_json, encode_execution,
  encode_event_outbox_meta, encode_event_outbox, decode_event_outbox, decode_control,
}
use iov_vehicle_cgw_fota.Store.Serializer.Envelope.{encode_envelope}
use iov_vehicle_cgw_fota.Ota.State.VehicleTask.{vehicle_task_state_to_string}
use iov_vehicle_cgw_fota.Ota.State.Execution.{execution_state_to_string}
use iov_vehicle_cgw_fota.Ota.Orchestrator.System.{System, Env}
use iov_vehicle_cgw_fota.Ota.Orchestrator.Persist.{
  persist_vehicle_task, execution_record, persist_execution,
}
use iov_vehicle_cgw_fota.Ota.Orchestrator.Recovery.{IsResumed, saved}
use iov_vehicle_cgw_fota.Ota.Orchestrator.Restart.{
  Medium, load, restarted, IsWritten, ProtoMessages, IsHexCodec,
}
use iov_vehicle_cgw_fota.Ota.Orchestrator.Restart.Resumes.{restart_resumes}
use iov_vehicle_cgw_fota.Tests.Fixtures.{codec, env, installing, small_task}
use iov_vehicle_cgw_fota.Tests.Libraries.{json_lib}
use iov_vehicle_cgw_fota.Tests.StateFixtures.{bytes_of}

abbrev ones : ℕ → String → String
ones zero s = s
ones (suc n) s = then_char "1" (ones n s)

abbrev unary : List ℕ → String
unary [] = empty
unary (x ∷ xs) = ones x (then_char "0" (unary xs))

abbrev read_unary : ℕ → String → List ℕ
read_unary n empty = []
read_unary n (then_char c s) =
    let more = read_unary (suc n) s in
    let next = n ∷ read_unary 0 s in if code c == 49 then more else next

read-ones :
    (k n : ℕ) (s : String) → read_unary k (ones n (then_char "0" s)) ≡ (n + k) ∷ read_unary 0 s
read-ones k zero s = ap (λ m. m ∷ read_unary 0 s) (omega arith)
read-ones k (suc n) s = read-ones (suc k) n s ∙ ap (λ m. m ∷ read_unary 0 s) (omega arith)

read-unary : (b : List ℕ) → read_unary 0 (unary b) ≡ b
read-unary [] = refl
read-unary (x ∷ xs) =
    read-ones 0 x (unary xs)
    ∙ (ap (λ m. m ∷ read_unary 0 (unary xs)) (omega arith) ∙ ap (λ l. x ∷ l) (read-unary xs))

abbrev is_filled : String → Bool
is_filled empty = false
is_filled (then_char c s) = true

filled : (c : Char) (s : String) → str_eq (then_char c s) "" ≡ false
filled c s = elim (Bool-cases (str_eq (then_char c s) "")) [
  | inl y ↦
      let p : is_filled (then_char c s) ≡ is_filled empty =
        ap is_filled ((eq_iff (then_char c s) "").0 y) in
      absurd (cc)
  | inr n ↦ n
]

ones-filled : (n : ℕ) (s : String) → str_eq (ones n (then_char "0" s)) "" ≡ false
ones-filled zero s = filled "0" s
ones-filled (suc n) s = filled "1" (ones n (then_char "0" s))

abbrev hex_lib : HexLib
hex_lib = record {
  bytes_to_hex = unary;
  hex_to_bytes = λ s. bytes (read_unary 0 s);
  hex_to_bytes-bytes_to_hex = λ b. ap bytes (read-unary b);
  bytes_to_hex-cons = λ x xs. ones-filled x (unary xs);
}

abbrev messages : ProtoMessages
messages = record {
  serialize_task = λ t. 0 ∷ [];
  parse_task = λ b. small_task;
  serialize_offline = λ p. 0 ∷ [];
  serialize_timeout = λ p. 0 ∷ [];
}

abbrev hex_env : Env
hex_env = record env {
  codec = record codec {
    task_to_hex = λ t. "0";
    offline_to_hex = λ p. "0";
    timeout_to_hex = λ p. "0";
  };
}

abbrev first_event : FotaEventOutboxRecord
first_event = record {
  sequence_no = 1;
  event_id = "r1";
  event_digest_hex = "";
  stage = "phase";
  event_status = "OK";
  progress = 10;
  occurred_at_ms = pos 7;
  payload_summary = "phase";
  send_status = "Accepted";
  event_pb_hex = "0";
}

abbrev reporting : System
reporting = record installing {
  next_seq = 2;
  store = record empty_store { events = λ k. if k == 1 then some first_event else none };
}

abbrev encoded : {A : Type 0} → (A → Result (List ℕ)) → Option A → Option (List ℕ)
encoded encode none = none
encoded encode (some r) = some (bytes_of (encode r))

abbrev medium : Medium
medium =
    let store = (saved "permit" hex_env reporting).store in
    record {
      vehicle_task = encoded (encode_vehicle_task json_lib (pos 5)) store.vehicle_task;
      execution = encoded (encode_execution json_lib (pos 5)) store.execution;
      event_outbox_meta =
          encoded (encode_event_outbox_meta json_lib (pos 5)) store.event_outbox_meta;
      events = λ k. encoded (encode_event_outbox json_lib (pos 5)) (store.events k);
      controls = λ k. none;
    }

medium-IsWritten : IsWritten json_lib (saved "permit" hex_env reporting).store medium
unfolding persist_vehicle_task persist_execution execution_record encode_vehicle_task
    encode_execution encode_event_outbox_meta encode_event_outbox vehicle_task_json position
    vehicle_task_state_to_string encode_envelope execution_json execution_state_to_string
    event_outbox_meta_json event_outbox_json
medium-IsWritten = record {
  vehicle_task = (record { task_revision_fits = omega arith }, (pos 5, refl), omega arith);
  execution = (
    record { attempt_no_fits = omega arith; control_revision_fits = omega arith },
    (pos 5, refl),
    omega arith,
  );
  event_outbox_meta = (
    record { next_sequence_no_fits = omega arith; accepted_sequence_no_fits = omega arith },
    (pos 5, refl),
    omega arith,
  );
  events = λ j. elim (Bool-cases (j == 1)) [
    | inl y ↦ simp y (
      record { sequence_no_fits = omega arith; progress_fits = omega arith },
      (pos 5, refl),
      omega arith,
    )
    | inr n ↦ simp n tt
  ];
  controls = λ j. tt;
}

hex_env-IsHexCodec : IsHexCodec hex_lib messages hex_env.codec
hex_env-IsHexCodec = record {
  task_written = λ t. refl;
  task_read = λ text binary h. refl;
  offline_written = λ p. refl;
  timeout_written = λ p. refl;
}

resumes_example :
    ((t : System) × (restarted json_lib hex_lib hex_env medium ≡ ok t) × IsResumed reporting t)
    × ((j : ℕ)
        → load (decode_event_outbox json_lib) (medium.events j) ≡ ok (reporting.store.events j))
    × ((j : ℕ)
        → load (decode_control json_lib) (medium.controls j) ≡ ok (reporting.store.controls j))
resumes_example =
    restart_resumes hex_lib json_lib messages "permit" hex_env reporting medium hex_env-IsHexCodec
      (refl, λ h. cc) medium-IsWritten
