-- ===== src/Ota/Orchestrator/Outbox.antt =====
-- The event outbox: `emit`, the executor's start with the sink at hand, and the sending loop of
-- `doExecute`.
use iov_vehicle_cgw_fota.Prelude.{
  ℕ, zero, suc, ◌+◌, ◌-◌, String, Bool, true, false, Option, none, some, ltb, leb, u64, get_or,
  str_eq, if◌then◌else◌,
}
use iov_vehicle_cgw_fota.Prelude.Text.{join, repeat_text, to_string}
use iov_vehicle_cgw_fota.Store.CloudState.{
  FotaEventOutboxMeta, FotaEventOutboxRecord, default_event_outbox_meta, save_event,
  save_event_outbox_meta,
}
use iov_vehicle_cgw_fota.Ota.Messages.{ExecutionEvent, EventDisposition, event_accepted}
use iov_vehicle_cgw_fota.Ota.Ports.{
  Codec, Reply, response, fault, StartResult, StartRun, returns, emits, start, report_event,
}
use iov_vehicle_cgw_fota.Ota.Orchestrator.System.{
  System, M, ◌>>=◌, ◌>>◌, pure, gets, asks, modify, update_store, call, make_ctx,
}

-- `loadEventOutboxMeta().value_or(FotaEventOutboxMeta{})`
abbrev pub outbox_meta : System → FotaEventOutboxMeta
outbox_meta s = get_or s.store.event_outbox_meta default_event_outbox_meta

-- The record of an event under the next sequence number.
unfoldable pub event_record : Codec → ℕ → ExecutionEvent → FotaEventOutboxRecord
event_record codec seq evt = record {
  sequence_no = seq;
  event_id = if str_eq evt.event_id "" then join "EVT-" (to_string seq) else evt.event_id;
  event_digest_hex =
      if str_eq evt.event_digest.value_hex ""
      then repeat_text 64 "f"
      else evt.event_digest.value_hex;
  stage = evt.stage;
  event_status = evt.event_status;
  progress = evt.progress;
  occurred_at_ms = evt.occurred_at_ms;
  payload_summary = evt.stage;
  send_status = "PENDING";
  event_pb_hex = codec.event_to_hex evt;
}

-- `meta.nextSequenceNo - 1 >= cfg_.eventOutboxMax`, in uint64_t
abbrev pub outbox_full : ℕ → ℕ → Bool
outbox_full max next = leb max (u64 (next + 18446744073709551615))

unfoldable pub emit : ExecutionEvent → M Bool
emit evt = do
  meta ← gets outbox_meta
  max ← asks (λ e. e.cfg.event_outbox_max)
  codec ← asks (λ e. e.codec)
  if outbox_full max meta.next_sequence_no then pure false else do
    update_store (save_event (event_record codec meta.next_sequence_no evt))
    let next = u64 (meta.next_sequence_no + 1)
    update_store (save_event_outbox_meta (record meta { next_sequence_no = next }))
    modify (λ s. record s { next_seq = next })
    pure true

-- The executor's run: each event goes through `emit`.
unfoldable pub run_start : StartRun → M StartResult
run_start (returns result) e s = (result, s)
run_start (emits evt rest) e s = let (accepted, s') = emit evt e s in run_start (rest accepted) e s'

-- `exec_.start(permit_, *this)`
unfoldable pub start_executor : M StartResult
start_executor = do
  permit ← gets (λ s. s.permit)
  run ← call (start permit) (λ p. p.started)
  run_start run

-- The local variables of the sending loop: `sendError`, `o.error` and `o.transportFailed`.
pub record Sending : Type 0 where
  pub send_error : Bool
  pub error : String
  pub transport_failed : Bool

abbrev pub all_sent : Sending
all_sent = record { send_error = false; error = ""; transport_failed = false }

-- Only ACCEPTED acknowledges an event.
abbrev pub acknowledges : EventDisposition → Bool
acknowledges event_accepted = true
acknowledges _ = false

-- The answer to one event, and the save that ends the loop's body.
unfoldable pub event_replied : FotaEventOutboxRecord → Reply EventDisposition → Sending → M Sending
event_replied rec (fault what) sending = do
  update_store (save_event rec)
  pure (record { send_error = true; error = what; transport_failed = true })
event_replied rec (response disposition) sending =
    if acknowledges disposition
    then (do
      modify (λ s. record s {
        accepted_seq =
            if ltb s.accepted_seq rec.sequence_no then rec.sequence_no else s.accepted_seq;
      })
      update_store (save_event (record rec { send_status = "ACKED" }))
      pure sending)
    else (do update_store (save_event rec); pure (record sending { send_error = true }))

unfoldable pub send_payload : FotaEventOutboxRecord → Sending → M Sending
send_payload rec sending = do
  codec ← asks (λ e. e.codec)
  let evt = codec.event_of_hex rec.event_pb_hex
  ctx ← make_ctx (join "evt-" (to_string rec.sequence_no))
  reply ← call (report_event (record evt { sequence_no = rec.sequence_no }) ctx) (λ p. p.event)
  event_replied rec reply sending

-- The body of the loop for a sequence number.
unfoldable pub send_event : Option FotaEventOutboxRecord → Sending → M Sending
send_event none sending = pure sending
send_event (some rec) sending =
    if str_eq rec.send_status "ACKED"
    then pure sending
    else if str_eq rec.event_pb_hex ""
    then (do update_store (save_event (record rec { send_status = "SENT" })); pure sending)
    else send_payload rec sending

-- The loop from `seq` on, with the number of rounds left.
unfoldable pub send_events : ℕ → ℕ → Sending → M Sending
send_events zero seq sending e s = (sending, s)
send_events (suc rounds) seq sending e s =
    let (sending', s') = send_event (s.store.events seq) sending e s in
    send_events rounds (suc seq) sending' e s'

-- `for (seq = 1; seq < meta.nextSequenceNo; ++seq)`
unfoldable pub send_pending : ℕ → M Sending
send_pending next = send_events (next - 1) 1 all_sent
