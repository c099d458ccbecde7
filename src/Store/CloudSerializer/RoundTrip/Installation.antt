-- ===== src/Store/CloudSerializer/RoundTrip/Installation.antt =====
-- What the encoders of execution, event_outbox_meta, event_outbox, control write, the decoders read
-- back (src/store/fota_cloud_state_serializer.cpp).
use iov_vehicle_cgw_fota.Prelude.{ℕ, ◌≡◌, ◌<◌, ap, ◌∙◌, List, length, arith}
use iov_vehicle_cgw_fota.Prelude.Int.{ℤ}
use iov_vehicle_cgw_fota.Prelude.Result.{ok, ◌>>=◌}
use iov_vehicle_cgw_fota.Store.CloudState.{
  FotaExecutionRecord, FotaEventOutboxMeta, FotaEventOutboxRecord, FotaControlRecord,
}
use iov_vehicle_cgw_fota.Store.Serializer.Json.{JsonLib}
use iov_vehicle_cgw_fota.Store.CloudSerializer.Installation.{
  execution_json, encode_execution, execution_of_json, decode_execution, event_outbox_meta_json,
  encode_event_outbox_meta, event_outbox_meta_of_json, decode_event_outbox_meta, event_outbox_json,
  encode_event_outbox, event_outbox_of_json, decode_event_outbox, control_json, encode_control,
  control_of_json, decode_control,
}
use iov_vehicle_cgw_fota.Store.CloudSerializer.RoundTrip.{read_enveloped}

-- The numbers of the record are those of its unsigned members.
pub record FitsExecution (r : FotaExecutionRecord) : Type 0 where
  pub attempt_no_fits : r.attempt_no < 4294967296
  pub control_revision_fits : r.control_revision < 18446744073709551616

pub decode-encode_execution :
    (lib : JsonLib) (now : ℤ) (r : FotaExecutionRecord) (bytes : List ℕ)
    → FitsExecution r
    → encode_execution lib now r ≡ ok bytes
    → length bytes < 4294967296
    → decode_execution lib bytes ≡ ok r
unfolding encode_execution decode_execution execution_json execution_of_json
decode-encode_execution lib now r bytes fits he hl =
    ap (λ j. j >>= execution_of_json lib)
      (read_enveloped lib "execution" 1 now _ bytes (omega arith) he hl)
    ∙ simp (
      lib.find_value-object,
      lib.member-object,
      lib.get_string-string,
      lib.get_i64-signed,
      lib.get_u32-unsigned 1 (omega arith),
      lib.get_u32-unsigned r.attempt_no fits.attempt_no_fits,
      lib.get_u64-unsigned r.control_revision fits.control_revision_fits,
    )

-- The numbers of the record are those of its unsigned members.
pub record FitsEventOutboxMeta (r : FotaEventOutboxMeta) : Type 0 where
  pub next_sequence_no_fits : r.next_sequence_no < 18446744073709551616
  pub accepted_sequence_no_fits : r.accepted_sequence_no < 18446744073709551616

pub decode-encode_event_outbox_meta :
    (lib : JsonLib) (now : ℤ) (r : FotaEventOutboxMeta) (bytes : List ℕ)
    → FitsEventOutboxMeta r
    → encode_event_outbox_meta lib now r ≡ ok bytes
    → length bytes < 4294967296
    → decode_event_outbox_meta lib bytes ≡ ok r
unfolding encode_event_outbox_meta decode_event_outbox_meta event_outbox_meta_json
    event_outbox_meta_of_json
decode-encode_event_outbox_meta lib now r bytes fits he hl =
    ap (λ j. j >>= event_outbox_meta_of_json lib)
      (read_enveloped lib "event_outbox_meta" 1 now _ bytes (omega arith) he hl)
    ∙ simp (
      lib.find_value-object,
      lib.member-object,
      lib.get_u32-unsigned 1 (omega arith),
      lib.get_u64-unsigned r.next_sequence_no fits.next_sequence_no_fits,
      lib.get_u64-unsigned r.accepted_sequence_no fits.accepted_sequence_no_fits,
    )

-- The numbers of the record are those of its unsigned members.
pub record FitsEventOutbox (r : FotaEventOutboxRecord) : Type 0 where
  pub sequence_no_fits : r.sequence_no < 18446744073709551616
  pub progress_fits : r.progress < 4294967296

pub decode-encode_event_outbox :
    (lib : JsonLib) (now : ℤ) (r : FotaEventOutboxRecord) (bytes : List ℕ)
    → FitsEventOutbox r
    → encode_event_outbox lib now r ≡ ok bytes
    → length bytes < 4294967296
    → decode_event_outbox lib bytes ≡ ok r
unfolding encode_event_outbox decode_event_outbox event_outbox_json event_outbox_of_json
decode-encode_event_outbox lib now r bytes fits he hl =
    ap (λ j. j >>= event_outbox_of_json lib)
      (read_enveloped lib "event_outbox" 1 now _ bytes (omega arith) he hl)
    ∙ simp (
      lib.find_value-object,
      lib.member-object,
      lib.get_string-string,
      lib.get_i64-signed,
      lib.get_u32-unsigned 1 (omega arith),
      lib.get_u64-unsigned r.sequence_no fits.sequence_no_fits,
      lib.get_u32-unsigned r.progress fits.progress_fits,
    )

-- The numbers of the record are those of its unsigned members.
pub record FitsControl (r : FotaControlRecord) : Type 0 where
  pub control_revision_fits : r.control_revision < 18446744073709551616
  pub ack_sequence_no_fits : r.ack_sequence_no < 18446744073709551616

pub decode-encode_control :
    (lib : JsonLib) (now : ℤ) (r : FotaControlRecord) (bytes : List ℕ)
    → FitsControl r
    → encode_control lib now r ≡ ok bytes
    → length bytes < 4294967296
    → decode_control lib bytes ≡ ok r
unfolding encode_control decode_control control_json control_of_json
decode-encode_control lib now r bytes fits he hl =
    ap (λ j. j >>= control_of_json lib)
      (read_enveloped lib "control" 1 now _ bytes (omega arith) he hl)
    ∙ simp (
      lib.find_value-object,
      lib.member-object,
      lib.get_string-string,
      lib.get_i64-signed,
      lib.get_u32-unsigned 1 (omega arith),
      lib.get_u64-unsigned r.control_revision fits.control_revision_fits,
      lib.get_u64-unsigned r.ack_sequence_no fits.ack_sequence_no_fits,
    )
