-- ===== src/Ota/Orchestrator/Check.antt =====
-- Task detection and consent: `doCheckTask`, `doConsent`.
use iov_vehicle_cgw_fota.Prelude.{
  String, Bool, true, false, not, Option, none, some, get_or, str_eq, if◌then◌else◌,
}
use iov_vehicle_cgw_fota.Prelude.Int.{pos}
use iov_vehicle_cgw_fota.Prelude.Text.{join, repeat_text}
use iov_vehicle_cgw_fota.Store.CloudState.{save_inventory, save_consent}
use iov_vehicle_cgw_fota.Ota.State.VehicleTask.{
  discovered, consent_pending, download_pending, ended,
}
use iov_vehicle_cgw_fota.Ota.State.StateProto.{vehicle_task_to_proto}
use iov_vehicle_cgw_fota.Ota.Messages.{
  mode_full, InventoryDisposition, unspecified, accepted, full_required, revision_conflict,
  digest_mismatch, algorithm_unsupported, disposition_unrecognized, TaskCheckRequest,
  TaskCheckResponse, VehicleTaskSnapshot, ConsentStatus, consent_unspecified, consent_none,
  consent_accepted, consent_rejected, consent_revoked, consent_unrecognized, ConsentResponse,
}
use iov_vehicle_cgw_fota.Ota.Ports.{
  Reply, response, fault, CollectedInventory, ConsentTermsId, collect_inventory, check_task,
  request_consent, report_consent,
}
use iov_vehicle_cgw_fota.Ota.Orchestrator.System.{
  System, M, StepOutcome, outcome, ◌>>=◌, ◌>>◌, pure, gets, asks, modify, update_store, call,
  read_clock, make_ctx,
}
use iov_vehicle_cgw_fota.Ota.Orchestrator.Persist.{persist_vehicle_task}

-- `InventoryDisposition_Name`, which is empty for a value without a name
abbrev pub disposition_name : InventoryDisposition → String
disposition_name unspecified = "INVENTORY_DISPOSITION_UNSPECIFIED"
disposition_name accepted = "INVENTORY_DISPOSITION_ACCEPTED"
disposition_name full_required = "INVENTORY_DISPOSITION_FULL_REQUIRED"
disposition_name revision_conflict = "INVENTORY_DISPOSITION_REVISION_CONFLICT"
disposition_name digest_mismatch = "INVENTORY_DISPOSITION_DIGEST_MISMATCH"
disposition_name algorithm_unsupported = "INVENTORY_DISPOSITION_ALGORITHM_UNSUPPORTED"
disposition_name (disposition_unrecognized n) = ""

-- `ConsentStatus_Name`
abbrev pub consent_status_name : ConsentStatus → String
consent_status_name consent_unspecified = "CONSENT_STATUS_UNSPECIFIED"
consent_status_name consent_none = "CONSENT_STATUS_NONE"
consent_status_name consent_accepted = "CONSENT_STATUS_ACCEPTED"
consent_status_name consent_rejected = "CONSENT_STATUS_REJECTED"
consent_status_name consent_revoked = "CONSENT_STATUS_REVOKED"
consent_status_name (consent_unrecognized n) = ""

unfoldable pub task_check_request : CollectedInventory → System → TaskCheckRequest
task_check_request inv s =
    let known = not (str_eq s.frozen_task.vehicle_task_id "") in
    record {
      baseline_code = inv.baseline_code;
      fota_master_version = inv.fota_master_version;
      local_vehicle_task_id = if known then some s.frozen_task.vehicle_task_id else none;
      local_task_revision = if known then some s.frozen_task.task_revision else none;
      local_vehicle_task_status = if known then some (vehicle_task_to_proto s.vt_state) else none;
      inventory_mode = mode_full;
      inventory_revision = inv.inventory_revision;
      ecu_list_digest = inv.ecu_list_digest;
      ecu_list = inv.ecu_list;
    }

-- The branch of an inventory that the cloud does not accept.
unfoldable pub inventory_refused :
    CollectedInventory → TaskCheckRequest → InventoryDisposition → M StepOutcome
inventory_refused inv req disposition = do
  collected_at ← read_clock
  codec ← asks (λ e. e.codec)
  update_store (
      save_inventory (record {
        mode = "FULL";
        inventory_revision = inv.inventory_revision;
        algorithm = inv.ecu_list_digest.algorithm;
        ecu_list_digest_hex = inv.ecu_list_digest.value_hex;
        baseline_code = inv.baseline_code;
        fota_master_version = inv.fota_master_version;
        collected_at_ms = collected_at;
        request_pb_hex = codec.request_to_hex req;
        full_required = true;
      }))
  pure (record (outcome "checkTask") {
    error = join "inventory not accepted: " (disposition_name disposition);
  })

-- The branch of an accepted inventory: the task is frozen, and the consent decides what is next.
unfoldable pub freeze_task : Option VehicleTaskSnapshot → M StepOutcome
freeze_task none =
    pure (record (outcome "checkTask") { error = "task missing while inventory accepted" })
freeze_task (some task) = do
  modify (λ s. record s { frozen_task = task; vt_state = discovered })
  persist_vehicle_task "checkTask"
  modify (λ s. record s {
    vt_state = if task.consent_required then consent_pending else download_pending;
  })
  persist_vehicle_task "consentRequired"
  vt ← gets (λ s. s.vt_state)
  pure (record (outcome "checkTask") { vehicle_task_state = vt })

unfoldable pub check_task_answered :
    CollectedInventory → TaskCheckRequest → InventoryDisposition → TaskCheckResponse → M StepOutcome
check_task_answered inv req accepted resp = freeze_task resp.task
check_task_answered inv req disposition resp = inventory_refused inv req disposition

unfoldable pub check_task_replied :
    CollectedInventory → TaskCheckRequest → Reply TaskCheckResponse → M StepOutcome
check_task_replied inv req (fault what) =
    pure (record (outcome "checkTask") { error = what; transport_failed = true })
check_task_replied inv req (response resp) =
    check_task_answered inv req resp.inventory_disposition resp

unfoldable pub do_check_task : M StepOutcome
do_check_task = do
  inv ← call (collect_inventory mode_full) (λ p. p.inventory)
  req ← gets (task_check_request inv)
  id ← gets (λ s. s.frozen_task.vehicle_task_id)
  ctx ← make_ctx (join "checkTask-" id)
  reply ← call (check_task req ctx) (λ p. p.task_check)
  check_task_replied inv req reply

-- The identity of the terms that the user is asked about.
unfoldable pub terms_of : VehicleTaskSnapshot → ConsentTermsId
terms_of task = record {
  terms_version = get_or task.terms_version "v1";
  terms_id = "T-1";
  terms_digest_hex = repeat_text 64 "a";
  algorithm = "sha-256";
}

-- Only the effective status decides.
abbrev pub is_accepted : ConsentStatus → Bool
is_accepted consent_accepted = true
is_accepted _ = false

unfoldable pub consent_replied : ConsentTermsId → Reply ConsentResponse → M StepOutcome
consent_replied terms (fault what) =
    pure (record (outcome "consent") { error = what; transport_failed = true })
consent_replied terms (response resp) = do
  id ← gets (λ s. s.frozen_task.vehicle_task_id)
  consent_time ← read_clock
  update_store (
      save_consent (record {
        vehicle_task_id = id;
        effective_status = consent_status_name resp.effective_consent_status;
        receipt_id = get_or resp.consent_receipt_id "";
        receipt_expires_at_ms = get_or resp.receipt_expires_at_ms (pos 0);
        terms_id = terms.terms_id;
        terms_version = terms.terms_version;
        terms_digest_hex = terms.terms_digest_hex;
        terms_algorithm = terms.algorithm;
        consent_time_ms = consent_time;
        channel = "vehicle";
      }))
  modify (λ s. record s {
    vt_state = if is_accepted resp.effective_consent_status then download_pending else ended;
  })
  persist_vehicle_task "consent"
  vt ← gets (λ s. s.vt_state)
  pure (record (outcome "consent") { vehicle_task_state = vt })

unfoldable pub do_consent : M StepOutcome
do_consent = do
  task ← gets (λ s. s.frozen_task)
  let terms = terms_of task
  choice ← call (request_consent task.vehicle_task_id terms) (λ p. p.user_choice)
  reported_at ← read_clock
  ctx ← make_ctx (join "consent-" task.vehicle_task_id)
  reply ←
      call
        (report_consent
          (record {
            consent_status = choice;
            terms_version = terms.terms_version;
            terms_id = terms.terms_id;
            terms_digest = record {
              algorithm = terms.algorithm;
              value_hex = terms.terms_digest_hex;
            };
            consent_time_ms = reported_at;
            channel = "vehicle";
          })
          ctx)
        (λ p. p.consent)
  consent_replied terms reply
