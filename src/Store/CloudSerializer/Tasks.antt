-- ===== src/Store/CloudSerializer/Tasks.antt =====
-- The JSON of the vehicle-cloud records vehicle_task, inventory, consent, download
-- (src/store/fota_cloud_state_serializer.cpp).
use iov_vehicle_cgw_fota.Prelude.{ℕ, false, List, [], ◌∷◌}
use iov_vehicle_cgw_fota.Prelude.Int.{ℤ, pos}
use iov_vehicle_cgw_fota.Prelude.Result.{Result, ok, ◌>>=◌}
use iov_vehicle_cgw_fota.Store.CloudState.{
  FotaVehicleTaskRecord, FotaInventoryRecord, FotaConsentRecord, FotaDownloadRecord,
}
use iov_vehicle_cgw_fota.Store.Serializer.Json.{JsonLib}
use iov_vehicle_cgw_fota.Store.Serializer.Values.{value_of}
use iov_vehicle_cgw_fota.Store.Serializer.Coding.{enveloped}
use iov_vehicle_cgw_fota.Store.CloudSerializer.{decode_envelope_json}

module _ (lib : JsonLib) where
  open lib use {
    Json, string, unsigned, signed, boolean, object, member, get_string, get_u32, get_u64, get_i64,
    get_bool,
  }

  unfoldable pub vehicle_task_json : FotaVehicleTaskRecord → Json
  vehicle_task_json r = object (
      ("schemaVersion", unsigned 1)
      ∷ ("vehicleTaskId", string r.vehicle_task_id)
      ∷ ("taskRevision", unsigned r.task_revision)
      ∷ ("targetBaselineCode", string r.target_baseline_code)
      ∷ ("vehicleTaskState", string r.vehicle_task_state)
      ∷ ("frozenAtMs", signed r.frozen_at_ms)
      ∷ ("taskSnapshotPbHex", string r.task_snapshot_pb_hex)
      ∷ ("localDispositionResult", string r.local_disposition_result)
      ∷ ("superseded", boolean r.superseded)
      ∷ [])

  unfoldable pub encode_vehicle_task : ℤ → FotaVehicleTaskRecord → Result (List ℕ)
  encode_vehicle_task now r = enveloped lib now 1 (vehicle_task_json r)

  unfoldable pub vehicle_task_of_json : Json → Result FotaVehicleTaskRecord
  vehicle_task_of_json j = do
    schema_version ← value_of lib get_u32 j "schemaVersion" 1
    vehicle_task_id ← member j "vehicleTaskId" >>= get_string
    task_revision ← member j "taskRevision" >>= get_u64
    target_baseline_code ← member j "targetBaselineCode" >>= get_string
    vehicle_task_state ← member j "vehicleTaskState" >>= get_string
    frozen_at_ms ← member j "frozenAtMs" >>= get_i64
    task_snapshot_pb_hex ← value_of lib get_string j "taskSnapshotPbHex" ""
    local_disposition_result ← value_of lib get_string j "localDispositionResult" ""
    superseded ← value_of lib get_bool j "superseded" false
    ok (record {
      vehicle_task_id = vehicle_task_id;
      task_revision = task_revision;
      target_baseline_code = target_baseline_code;
      vehicle_task_state = vehicle_task_state;
      frozen_at_ms = frozen_at_ms;
      task_snapshot_pb_hex = task_snapshot_pb_hex;
      local_disposition_result = local_disposition_result;
      superseded = superseded;
    })

  unfoldable pub decode_vehicle_task : List ℕ → Result FotaVehicleTaskRecord
  decode_vehicle_task bytes =
      decode_envelope_json lib bytes 1 "vehicle_task" >>= vehicle_task_of_json

  unfoldable pub inventory_json : FotaInventoryRecord → Json
  inventory_json r = object (
      ("schemaVersion", unsigned 1)
      ∷ ("mode", string r.mode)
      ∷ ("inventoryRevision", unsigned r.inventory_revision)
      ∷ ("algorithm", string r.algorithm)
      ∷ ("ecuListDigestHex", string r.ecu_list_digest_hex)
      ∷ ("baselineCode", string r.baseline_code)
      ∷ ("fotaMasterVersion", string r.fota_master_version)
      ∷ ("collectedAtMs", signed r.collected_at_ms)
      ∷ ("requestPbHex", string r.request_pb_hex)
      ∷ ("fullRequired", boolean r.full_required)
      ∷ [])

  unfoldable pub encode_inventory : ℤ → FotaInventoryRecord → Result (List ℕ)
  encode_inventory now r = enveloped lib now 1 (inventory_json r)

  unfoldable pub inventory_of_json : Json → Result FotaInventoryRecord
  inventory_of_json j = do
    schema_version ← value_of lib get_u32 j "schemaVersion" 1
    mode ← member j "mode" >>= get_string
    inventory_revision ← member j "inventoryRevision" >>= get_u64
    algorithm ← member j "algorithm" >>= get_string
    ecu_list_digest_hex ← member j "ecuListDigestHex" >>= get_string
    baseline_code ← value_of lib get_string j "baselineCode" ""
    fota_master_version ← value_of lib get_string j "fotaMasterVersion" ""
    collected_at_ms ← member j "collectedAtMs" >>= get_i64
    request_pb_hex ← value_of lib get_string j "requestPbHex" ""
    full_required ← value_of lib get_bool j "fullRequired" false
    ok (record {
      mode = mode;
      inventory_revision = inventory_revision;
      algorithm = algorithm;
      ecu_list_digest_hex = ecu_list_digest_hex;
      baseline_code = baseline_code;
      fota_master_version = fota_master_version;
      collected_at_ms = collected_at_ms;
      request_pb_hex = request_pb_hex;
      full_required = full_required;
    })

  unfoldable pub decode_inventory : List ℕ → Result FotaInventoryRecord
  decode_inventory bytes = decode_envelope_json lib bytes 1 "inventory" >>= inventory_of_json

  unfoldable pub consent_json : FotaConsentRecord → Json
  consent_json r = object (
      ("schemaVersion", unsigned 1)
      ∷ ("vehicleTaskId", string r.vehicle_task_id)
      ∷ ("effectiveStatus", string r.effective_status)
      ∷ ("receiptId", string r.receipt_id)
      ∷ ("receiptExpiresAtMs", signed r.receipt_expires_at_ms)
      ∷ ("termsId", string r.terms_id)
      ∷ ("termsVersion", string r.terms_version)
      ∷ ("termsDigestHex", string r.terms_digest_hex)
      ∷ ("termsAlgorithm", string r.terms_algorithm)
      ∷ ("consentTimeMs", signed r.consent_time_ms)
      ∷ ("channel", string r.channel)
      ∷ [])

  unfoldable pub encode_consent : ℤ → FotaConsentRecord → Result (List ℕ)
  encode_consent now r = enveloped lib now 1 (consent_json r)

  unfoldable pub consent_of_json : Json → Result FotaConsentRecord
  consent_of_json j = do
    schema_version ← value_of lib get_u32 j "schemaVersion" 1
    vehicle_task_id ← member j "vehicleTaskId" >>= get_string
    effective_status ← member j "effectiveStatus" >>= get_string
    receipt_id ← member j "receiptId" >>= get_string
    receipt_expires_at_ms ← member j "receiptExpiresAtMs" >>= get_i64
    terms_id ← value_of lib get_string j "termsId" ""
    terms_version ← value_of lib get_string j "termsVersion" ""
    terms_digest_hex ← value_of lib get_string j "termsDigestHex" ""
    terms_algorithm ← value_of lib get_string j "termsAlgorithm" ""
    consent_time_ms ← value_of lib get_i64 j "consentTimeMs" (pos 0)
    channel ← value_of lib get_string j "channel" ""
    ok (record {
      vehicle_task_id = vehicle_task_id;
      effective_status = effective_status;
      receipt_id = receipt_id;
      receipt_expires_at_ms = receipt_expires_at_ms;
      terms_id = terms_id;
      terms_version = terms_version;
      terms_digest_hex = terms_digest_hex;
      terms_algorithm = terms_algorithm;
      consent_time_ms = consent_time_ms;
      channel = channel;
    })

  unfoldable pub decode_consent : List ℕ → Result FotaConsentRecord
  decode_consent bytes = decode_envelope_json lib bytes 1 "consent" >>= consent_of_json

  unfoldable pub download_json : FotaDownloadRecord → Json
  download_json r = object (
      ("schemaVersion", unsigned 1)
      ∷ ("packageId", string r.package_id)
      ∷ ("packageRevision", string r.package_revision)
      ∷ ("etag", string r.etag)
      ∷ ("currentOffsetBytes", unsigned r.current_offset_bytes)
      ∷ ("offsetScope", string r.offset_scope)
      ∷ ("credentialExpiresAtMs", signed (pos 0))
      ∷ ("verifyStatus", string r.verify_status)
      ∷ ("stageResultId", string r.stage_result_id)
      ∷ ("stageResultDigestHex", string r.stage_result_digest_hex)
      ∷ ("ready", boolean r.ready)
      ∷ [])

  unfoldable pub encode_download : ℤ → FotaDownloadRecord → Result (List ℕ)
  encode_download now r = enveloped lib now 1 (download_json r)

  unfoldable pub download_of_json : Json → Result FotaDownloadRecord
  download_of_json j = do
    schema_version ← value_of lib get_u32 j "schemaVersion" 1
    package_id ← member j "packageId" >>= get_string
    package_revision ← member j "packageRevision" >>= get_string
    etag ← member j "etag" >>= get_string
    current_offset_bytes ← member j "currentOffsetBytes" >>= get_u64
    offset_scope ← value_of lib get_string j "offsetScope" ""
    credential_expires_at_ms ← value_of lib get_i64 j "credentialExpiresAtMs" (pos 0)
    verify_status ← member j "verifyStatus" >>= get_string
    stage_result_id ← value_of lib get_string j "stageResultId" ""
    stage_result_digest_hex ← value_of lib get_string j "stageResultDigestHex" ""
    ready ← value_of lib get_bool j "ready" false
    ok (record {
      package_id = package_id;
      package_revision = package_revision;
      etag = etag;
      current_offset_bytes = current_offset_bytes;
      offset_scope = offset_scope;
      verify_status = verify_status;
      stage_result_id = stage_result_id;
      stage_result_digest_hex = stage_result_digest_hex;
      ready = ready;
    })

  unfoldable pub decode_download : List ℕ → Result FotaDownloadRecord
  decode_download bytes = decode_envelope_json lib bytes 1 "download" >>= download_of_json
