-- ===== src/Store/CloudSerializer/Installation.antt =====
-- The JSON of the vehicle-cloud records execution, event_outbox_meta, event_outbox, control
-- (src/store/fota_cloud_state_serializer.cpp).
use iov_vehicle_cgw_fota.Prelude.{ℕ, List, [], ◌∷◌}
use iov_vehicle_cgw_fota.Prelude.Int.{ℤ, pos}
use iov_vehicle_cgw_fota.Prelude.Result.{Result, ok, ◌>>=◌}
use iov_vehicle_cgw_fota.Store.CloudState.{
  FotaExecutionRecord, FotaEventOutboxMeta, FotaEventOutboxRecord, FotaControlRecord,
}
use iov_vehicle_cgw_fota.Store.Serializer.Json.{JsonLib}
use iov_vehicle_cgw_fota.Store.Serializer.Values.{value_of}
use iov_vehicle_cgw_fota.Store.Serializer.Coding.{enveloped}
use iov_vehicle_cgw_fota.Store.CloudSerializer.{decode_envelope_json}

module _ (lib : JsonLib) where
  open lib use {
    Json, string, unsigned, signed, boolean, object, member, get_string, get_u32, get_u64, get_i64,
    get_bool,
  }

  unfoldable pub execution_json : FotaExecutionRecord → Json
  execution_json r = object (
      ("schemaVersion", unsigned 1)
      ∷ ("vehicleTaskId", string r.vehicle_task_id)
      ∷ ("executionId", string r.execution_id)
      ∷ ("attemptNo", unsigned r.attempt_no)
      ∷ ("permitId", string r.permit_id)
      ∷ ("permitToken", string r.permit_token)
      ∷ ("controlRevision", unsigned r.control_revision)
      ∷ ("validUntilMs", signed r.valid_until_ms)
      ∷ ("executionState", string r.execution_state)
      ∷ ("installPlanVersion", string r.install_plan_version)
      ∷ ("checkpointPbHex", string "")
      ∷ ("offlinePolicyPbHex", string r.offline_policy_pb_hex)
      ∷ ("timeoutPolicyPbHex", string r.timeout_policy_pb_hex)
      ∷ [])

  unfoldable pub encode_execution : ℤ → FotaExecutionRecord → Result (List ℕ)
  encode_execution now r = enveloped lib now 1 (execution_json r)

  unfoldable pub execution_of_json : Json → Result FotaExecutionRecord
  execution_of_json j = do
    schema_version ← value_of lib get_u32 j "schemaVersion" 1
    vehicle_task_id ← member j "vehicleTaskId" >>= get_string
    execution_id ← member j "executionId" >>= get_string
    attempt_no ← member j "attemptNo" >>= get_u32
    permit_id ← member j "permitId" >>= get_string
    permit_token ← member j "permitToken" >>= get_string
    control_revision ← member j "controlRevision" >>= get_u64
    valid_until_ms ← member j "validUntilMs" >>= get_i64
    execution_state ← member j "executionState" >>= get_string
    install_plan_version ← value_of lib get_string j "installPlanVersion" ""
    checkpoint_pb_hex ← value_of lib get_string j "checkpointPbHex" ""
    offline_policy_pb_hex ← value_of lib get_string j "offlinePolicyPbHex" ""
    timeout_policy_pb_hex ← value_of lib get_string j "timeoutPolicyPbHex" ""
    ok (record {
      vehicle_task_id = vehicle_task_id;
      execution_id = execution_id;
      attempt_no = attempt_no;
      permit_id = permit_id;
      permit_token = permit_token;
      control_revision = control_revision;
      valid_until_ms = valid_until_ms;
      execution_state = execution_state;
      install_plan_version = install_plan_version;
      offline_policy_pb_hex = offline_policy_pb_hex;
      timeout_policy_pb_hex = timeout_policy_pb_hex;
    })

  unfoldable pub decode_execution : List ℕ → Result FotaExecutionRecord
  decode_execution bytes = decode_envelope_json lib bytes 1 "execution" >>= execution_of_json

  unfoldable pub event_outbox_meta_json : FotaEventOutboxMeta → Json
  event_outbox_meta_json r = object (
      ("schemaVersion", unsigned 1)
      ∷ ("nextSequenceNo", unsigned r.next_sequence_no)
      ∷ ("acceptedSequenceNo", unsigned r.accepted_sequence_no)
      ∷ [])

  unfoldable pub encode_event_outbox_meta : ℤ → FotaEventOutboxMeta → Result (List ℕ)
  encode_event_outbox_meta now r = enveloped lib now 1 (event_outbox_meta_json r)

  unfoldable pub event_outbox_meta_of_json : Json → Result FotaEventOutboxMeta
  event_outbox_meta_of_json j = do
    schema_version ← value_of lib get_u32 j "schemaVersion" 1
    next_sequence_no ← member j "nextSequenceNo" >>= get_u64
    accepted_sequence_no ← member j "acceptedSequenceNo" >>= get_u64
    ok (record { next_sequence_no = next_sequence_no; accepted_sequence_no = accepted_sequence_no })

  unfoldable pub decode_event_outbox_meta : List ℕ → Result FotaEventOutboxMeta
  decode_event_outbox_meta bytes =
      decode_envelope_json lib bytes 1 "event_outbox_meta" >>= event_outbox_meta_of_json

  unfoldable pub event_outbox_json : FotaEventOutboxRecord → Json
  event_outbox_json r = object (
      ("schemaVersion", unsigned 1)
      ∷ ("sequenceNo", unsigned r.sequence_no)
      ∷ ("eventId", string r.event_id)
      ∷ ("eventDigestHex", string r.event_digest_hex)
      ∷ ("stage", string r.stage)
      ∷ ("eventStatus", string r.event_status)
      ∷ ("progress", unsigned r.progress)
      ∷ ("occurredAtMs", signed r.occurred_at_ms)
      ∷ ("payloadSummary", string r.payload_summary)
      ∷ ("sendStatus", string r.send_status)
      ∷ ("eventPbHex", string r.event_pb_hex)
      ∷ [])

  unfoldable pub encode_event_outbox : ℤ → FotaEventOutboxRecord → Result (List ℕ)
  encode_event_outbox now r = enveloped lib now 1 (event_outbox_json r)

  unfoldable pub event_outbox_of_json : Json → Result FotaEventOutboxRecord
  event_outbox_of_json j = do
    schema_version ← value_of lib get_u32 j "schemaVersion" 1
    sequence_no ← member j "sequenceNo" >>= get_u64
    event_id ← member j "eventId" >>= get_string
    event_digest_hex ← value_of lib get_string j "eventDigestHex" ""
    stage ← value_of lib get_string j "stage" ""
    event_status ← value_of lib get_string j "eventStatus" ""
    progress ← value_of lib get_u32 j "progress" 0
    occurred_at_ms ← value_of lib get_i64 j "occurredAtMs" (pos 0)
    payload_summary ← value_of lib get_string j "payloadSummary" ""
    send_status ← member j "sendStatus" >>= get_string
    event_pb_hex ← value_of lib get_string j "eventPbHex" ""
    ok (record {
      sequence_no = sequence_no;
      event_id = event_id;
      event_digest_hex = event_digest_hex;
      stage = stage;
      event_status = event_status;
      progress = progress;
      occurred_at_ms = occurred_at_ms;
      payload_summary = payload_summary;
      send_status = send_status;
      event_pb_hex = event_pb_hex;
    })

  unfoldable pub decode_event_outbox : List ℕ → Result FotaEventOutboxRecord
  decode_event_outbox bytes =
      decode_envelope_json lib bytes 1 "event_outbox" >>= event_outbox_of_json

  unfoldable pub control_json : FotaControlRecord → Json
  control_json r = object (
      ("schemaVersion", unsigned 1)
      ∷ ("controlId", string r.control_id)
      ∷ ("controlRevision", unsigned r.control_revision)
      ∷ ("action", string r.action)
      ∷ ("scope", string r.scope)
      ∷ ("applyMode", string r.apply_mode)
      ∷ ("issuedAtMs", signed r.issued_at_ms)
      ∷ ("expiresAtMs", signed r.expires_at_ms)
      ∷ ("reason", string r.reason)
      ∷ ("ackStatus", string r.ack_status)
      ∷ ("ackSequenceNo", unsigned r.ack_sequence_no)
      ∷ ("appliedAtMs", signed r.applied_at_ms)
      ∷ [])

  unfoldable pub encode_control : ℤ → FotaControlRecord → Result (List ℕ)
  encode_control now r = enveloped lib now 1 (control_json r)

  unfoldable pub control_of_json : Json → Result FotaControlRecord
  control_of_json j = do
    schema_version ← value_of lib get_u32 j "schemaVersion" 1
    control_id ← value_of lib get_string j "controlId" ""
    control_revision ← member j "controlRevision" >>= get_u64
    action ← value_of lib get_string j "action" ""
    scope ← value_of lib get_string j "scope" ""
    apply_mode ← value_of lib get_string j "applyMode" ""
    issued_at_ms ← value_of lib get_i64 j "issuedAtMs" (pos 0)
    expires_at_ms ← value_of lib get_i64 j "expiresAtMs" (pos 0)
    reason ← value_of lib get_string j "reason" ""
    ack_status ← value_of lib get_string j "ackStatus" ""
    ack_sequence_no ← value_of lib get_u64 j "ackSequenceNo" 0
    applied_at_ms ← value_of lib get_i64 j "appliedAtMs" (pos 0)
    ok (record {
      control_id = control_id;
      control_revision = control_revision;
      action = action;
      scope = scope;
      apply_mode = apply_mode;
      issued_at_ms = issued_at_ms;
      expires_at_ms = expires_at_ms;
      reason = reason;
      ack_status = ack_status;
      ack_sequence_no = ack_sequence_no;
      applied_at_ms = applied_at_ms;
    })

  unfoldable pub decode_control : List ℕ → Result FotaControlRecord
  decode_control bytes = decode_envelope_json lib bytes 1 "control" >>= control_of_json
