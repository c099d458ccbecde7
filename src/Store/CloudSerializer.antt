-- ===== src/Store/CloudSerializer.antt =====
-- The serializer of the vehicle-cloud records (src/store/fota_cloud_state_serializer.cpp). The members
-- that the records of the model leave out are written with their defaults, and read.
pub mod Tasks
pub mod Installation
pub mod Reports
pub mod RoundTrip
pub mod Hex
use iov_vehicle_cgw_fota.Prelude.{ℕ, String, List, ltb}
use iov_vehicle_cgw_fota.Prelude.Text.{join, to_string}
use iov_vehicle_cgw_fota.Prelude.Result.{Result, ◌>>=◌, ◌>>◌}
use iov_vehicle_cgw_fota.Store.Serializer.Json.{JsonLib}
use iov_vehicle_cgw_fota.Store.Serializer.Envelope.{parse_envelope_header, extract_payload}
use iov_vehicle_cgw_fota.Store.Serializer.Values.{refuse_if}
use iov_vehicle_cgw_fota.Store.Serializer.Coding.{as_decode_error}

module _ (lib : JsonLib) where
  open lib use {Json, parse}

  unfoldable pub decode_envelope_json : List ℕ → ℕ → String → Result Json
  decode_envelope_json bytes expected tag = do
    h ← parse_envelope_header bytes
    refuse_if (ltb expected h.schema_version)
        (join (join tag " unknown newer schemaVersion: ") (to_string h.schema_version))
    refuse_if (ltb h.schema_version expected)
        (join (join tag " unsupported older schemaVersion: ") (to_string h.schema_version))
    as_decode_error (join tag " json parse failed: ") (parse (extract_payload bytes h))
