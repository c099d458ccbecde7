-- ===== src/Lib.antt =====
-- The vehicle side of FOTA: the orchestrator of the central gateway, its states, its store, and the
-- data formats around it.
--
-- The program's core is `FotaOrchestrator` (src/ota/fota_orchestrator.cpp): `step` looks at the state
-- of the vehicle task and runs one stage (check, consent, download, permit, execute, finalize),
-- which calls the cloud and the ports of the vehicle and saves what it has done in
-- `FotaCloudStateStore`. The executor hands events back through `emit`, the cloud hands control
-- commands in through `applyControl`, and `reconcileOnStart` loads the store after a restart.
--
-- Files:
--   Ota/State/VehicleTask, Ota/State/Execution: the two state machines, their names in the store and
--     their transition tables (src/ota/state/vehicle_task_state.cpp, execution_state.cpp); Runs and
--     Names below them hold the theorems. Ota/State/StateProto: the wire images (state_proto.cpp).
--   Ota/Messages: the messages of proto/vehicle/fota/v1, as far as the orchestrator uses them.
--   Ota/Ports: the results of the ports (include/cgw/fota/ota/ports) and the parameters of the model.
--   Store/CloudState, Store/Access: the records and operations of the store
--     (include/cgw/fota/store/fota_cloud_state.hpp, src/store/fota_cloud_state_store.cpp).
--   Ota/Orchestrator/System: the members of the orchestrator as a record, and the state-passing monad.
--   Ota/Orchestrator/Persist, Check, Download, Permit, Outbox, Execute, Finalize, Control, Step: one
--     function per method (persistVehicleTask, persistExecution, loadFromStore; doCheckTask,
--     doConsent; doDownload; doPermit; emit and the sending loop; doExecute; doFinalize, doLogUpload;
--     applyControl as `on_control`, syncPolicy as `synchronize_policy`; step).
--   Ota/Orchestrator/Frames, Untouched, Sending, Sequence, Numbering, Reporting, Transitions, Moves,
--     Permission, Consent, Failures, Commands, Recovery, Running: the proofs about these methods.
--   Ota/Orchestrator/Restart: a restart from the stored bytes; Resumes holds the theorem.
--   Ota/ProductionPorts: the placeholder ports of production (src/ota/production_ports.cpp).
--   Config/FotaConfig, Config/Checks, Config/From: the configuration that is accepted
--     (src/config/fota_config.cpp); Bounds and Ids hold the theorems.
--   Someip/GenericTransport: the address of the generic message service
--     (src/someip/tbox_generic_transport_contract.cpp).
--   Someip/ErrorMapper: the business errors for the framework's (src/someip/error_mapper.cpp,
--     src/error_codes.cpp); Numbers holds the theorem.
--   Fingerprint/CanonicalEncoder: the canonical encoder (src/fingerprint/canonical_encoder.cpp).
--   Fingerprint/Inventory: the digests of an inventory (src/fingerprint/inventory_fingerprint.cpp),
--     with the order of the ECUs in Order; Versions holds the theorem.
--   Store/CloudSerializer: the JSON of the vehicle-cloud records in Tasks, Installation and Reports, and
--     the hexadecimal form in Hex (src/store/fota_cloud_state_serializer.cpp); RoundTrip holds the
--     theorems.
--   Store/FotaState: the report states (include/cgw/fota/store/fota_state.hpp, include/data_models.h)
--     and their names (src/store/fota_state.cpp).
--   Store/Serializer: their envelope, JSON conversions and migrations
--     (src/store/fota_state_serializer.cpp); RoundTrip below it holds the theorems.
--   Store/FrameworkStore, Store/Serializer/Json: the framework's store and the JSON library, as
--     parameters with what is documented of them.
--   Store/FotaStateStore: the store of the report states (src/store/fota_state_store.cpp); Open,
--     Sequence and Records hold its calls, Loads, Allocation and Numbers the theorems.
--   Store/FotaStateRecovery: the recovery at a restart (src/store/fota_state_recovery.cpp); Decisions
--     and Window hold the theorems.
--   Tests: concrete runs, and concrete libraries that behave as the parameters promise.
--
-- A call of the cloud, of a port or of the clock is recorded in a history, and the answer is a
-- function of that history, so that a theorem holds for all answers, failures included. The protobuf
-- classes' serialization is a parameter (`Codec`). The only exceptions that the orchestrator catches,
-- those of the cloud, are values (`Reply`); the store is taken not to fail. `InstallExecutor::start`
-- is a run that may call `emit` any finite number of times before it returns. The sending loop is
-- recursion on the number of rounds that its bounds give, so no fuel is involved. Sequence numbers
-- wrap at 2^64 as in the code.
--
-- A call of the report states' store returns or throws (`Result`), and what it changed stays changed
-- when it throws; which calls of the framework fail is decided by the parameter's `World`.
--
-- In the orchestrator's own steps the vehicle-cloud records are kept decoded and the codec is total, so
-- a text that is no hexadecimal form and a failing store do not occur there; Ota/Orchestrator/Restart
-- has the decoding with its exceptions. Sums of int64_t times are not wrapped, since their overflow is
-- undefined in the source.
--
-- Not modelled: the daemon, logging, the configurations handed to the framework's libraries, the
-- migration into the vehicle-cloud records, the SOME/IP transport and the assembly of a snapshot.
pub mod Prelude
pub mod Config
pub mod Store
pub mod Fingerprint
pub mod Someip
pub mod Ota
pub mod Tests
