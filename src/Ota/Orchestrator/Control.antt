-- ===== src/Ota/Orchestrator/Control.antt =====
-- Control commands and the synchronization of the policy: `applyControl`, `syncPolicy`.
use iov_vehicle_cgw_fota.Prelude.{
  ◌+◌, String, Bool, true, false, not, Option, none, some, List, [], ◌∷◌, ◌++◌, u64, get_or,
  is_some, str_eq, if◌then◌else◌,
}
use iov_vehicle_cgw_fota.Prelude.Int.{pos}
use iov_vehicle_cgw_fota.Prelude.Text.{join, to_string}
use iov_vehicle_cgw_fota.Store.CloudState.{
  FotaControlRecord, FotaPolicyRecord, default_policy, save_control, save_policy,
}
use iov_vehicle_cgw_fota.Ota.Messages.{
  ControlAckStatus, ack_received, ack_applied, ControlCommand, PolicyResponse,
}
use iov_vehicle_cgw_fota.Ota.Ports.{
  Reply, response, fault, ControlApplyOutcome, apply_control, acknowledge_control, sync_policy,
}
use iov_vehicle_cgw_fota.Ota.Orchestrator.System.{
  M, ◌>>=◌, ◌>>◌, pure, gets, asks, modify, update_store, call, read_clock, make_ctx,
}

-- `ControlOutcome` has the members of `ControlApplyOutcome`.
abbrev pub ControlOutcome : Type 0
ControlOutcome = ControlApplyOutcome

abbrev pub applied : ControlAckStatus → Bool
applied ack_applied = true
applied _ = false

-- The record of a command that has been received.
unfoldable pub control_record : ControlCommand → FotaControlRecord
control_record cmd = record {
  control_id = cmd.control_id;
  control_revision = cmd.control_revision;
  action = cmd.action;
  scope = cmd.scope;
  apply_mode = cmd.apply_mode;
  issued_at_ms = cmd.issued_at_ms;
  expires_at_ms = cmd.expires_at_ms;
  reason = get_or cmd.reason_code "";
  ack_status = "";
  ack_sequence_no = 0;
  applied_at_ms = pos 0;
}

-- `erase(remove(ids, id))`
unfoldable pub without : String → List String → List String
without id [] = []
without id (x ∷ xs) = let rest = without id xs in if str_eq x id then rest else x ∷ rest

-- The command has been applied: it is saved again, and acknowledged to the cloud.
unfoldable pub control_applied : ControlCommand → ControlApplyOutcome → M Unit
control_applied cmd app = do
  ack_seq ← gets (λ s. s.ack_seq)
  modify (λ s. record s { ack_seq = u64 (s.ack_seq + 1) })
  applied_at ← read_clock
  update_store (
      save_control (record (control_record cmd) {
        ack_status = "CONTROL_ACK_STATUS_APPLIED";
        ack_sequence_no = ack_seq;
        applied_at_ms = applied_at;
      }))
  modify (λ s. record s {
    last_applied_control_rev = cmd.control_revision;
    pending_control_ids = without cmd.control_id s.pending_control_ids;
  })
  processed_at ← read_clock
  ctx ← make_ctx (join "ctrlack-" (to_string cmd.control_revision))
  reply ←
      call
        (acknowledge_control
          (record {
            control_ack_id = join "CA-" (to_string cmd.control_revision);
            ack_sequence_no = ack_seq;
            control_id = cmd.control_id;
            control_revision = cmd.control_revision;
            status = app.status;
            processed_at_ms = processed_at;
            reason_code = if str_eq app.reason "" then none else some app.reason;
          })
          ctx)
        (λ p. p.control_ack)
  pure tt

-- A command of a revision that the store does not have.
unfoldable pub new_control : ControlCommand → M ControlOutcome
new_control cmd = do
  update_store (save_control (control_record cmd))
  modify (λ s. record s {
    last_received_control_rev = cmd.control_revision;
    pending_control_ids = s.pending_control_ids ++ cmd.control_id ∷ [];
  })
  app ← call (apply_control cmd) (λ p. p.control)
  if applied app.status then (do control_applied cmd app; pure app) else pure app

unfoldable pub on_control : ControlCommand → M ControlOutcome
on_control cmd = do
  known ← gets (λ s. s.store.controls cmd.control_revision)
  if is_some known
      then pure (record { status = ack_received; reason = "duplicate controlRevision" })
      else new_control cmd

-- `has_preference_accepted() && preference_accepted()`
abbrev pub preference_ok : Option Bool → Bool
preference_ok none = false
preference_ok (some b) = b

unfoldable pub policy_replied : FotaPolicyRecord → Reply PolicyResponse → M Bool
policy_replied cur (fault what) = pure false
policy_replied cur (response resp) = do
  codec ← asks (λ e. e.codec)
  update_store (
      save_policy (record {
        local_policy_version = resp.policy_version;
        base_preference_version = cur.preference_version;
        preference_version = resp.policy_version;
        effective_policy_pb_hex = codec.policy_to_hex resp.effective_policy;
        conflict = not (preference_ok resp.preference_accepted);
        effective_at_ms = resp.effective_at_ms;
      }))
  pure (preference_ok resp.preference_accepted)

unfoldable pub synchronize_policy : M Bool
synchronize_policy = do
  stored ← gets (λ s. s.store.policy)
  let cur = get_or stored default_policy
  now ← read_clock
  ctx ← make_ctx "policy-sync"
  reply ←
      call
        (sync_policy
          (record {
            local_policy_version = cur.preference_version;
            base_preference_version =
                if str_eq cur.base_preference_version ""
                then none
                else some cur.base_preference_version;
            updated_at_ms = now;
          })
          ctx)
        (λ p. p.policy)
  policy_replied cur reply
