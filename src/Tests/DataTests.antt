-- ===== src/Tests/DataTests.antt =====
-- The theorems about the states and the data formats at concrete inputs.
use iov_vehicle_cgw_fota.Prelude.{
  ◌≤◌, ◌+◌, ◌≡◌, refl, inl, inr, true, some, List, [], ◌∷◌, arith, All, Occurs,
}
use iov_vehicle_cgw_fota.Ota.State.VehicleTask
use iov_vehicle_cgw_fota.Ota.State.VehicleTask.{
  VehicleTaskState, is_valid_vehicle_task_transition, vehicle_task_state_to_string,
  vehicle_task_state_from_string,
}
use iov_vehicle_cgw_fota.Ota.State.VehicleTask.Runs as TaskRuns
use iov_vehicle_cgw_fota.Ota.State.VehicleTask.Runs.{
  terminal_absorbs, executing_needs_permit, completed_reachable,
}
use iov_vehicle_cgw_fota.Ota.State.VehicleTask.Names.{
  task_from_string-to_string, task_from_string_exact,
}
use iov_vehicle_cgw_fota.Ota.State.Execution
use iov_vehicle_cgw_fota.Ota.State.Execution.{
  ExecutionState, is_valid_execution_transition, is_terminal_execution_state,
  execution_state_to_string, execution_state_from_string,
}
use iov_vehicle_cgw_fota.Ota.State.Execution.Runs as ExecutionRuns
use iov_vehicle_cgw_fota.Ota.State.Execution.Runs.{changes, changes_bounded, result_needs_start}
use iov_vehicle_cgw_fota.Ota.State.Execution.Names.{
  execution_from_string-to_string, execution_from_string_exact,
}
use iov_vehicle_cgw_fota.Ota.State.StateProto.{
  vehicle_task_to_proto, from_proto_vehicle_task, execution_to_proto, from_proto_execution,
  from_proto-to_proto, to_proto-from_proto, VehicleTaskStatus, ExecutionStatus,
}
use iov_vehicle_cgw_fota.Someip.GenericTransport.{
  GenericTransportSpec, IsAllocated, address_of, default_address, any_declared,
  resolve_tbox_generic_transport, returned, resolve-IsAllocated, allocated_resolved,
  unresolved_undeclared,
}
use iov_vehicle_cgw_fota.Fingerprint.CanonicalEncoder.{create, finalize}
use iov_vehicle_cgw_fota.Fingerprint.CanonicalEncoder.Layout.{
  Field, string_field, enum_field, list_field, write_all, layout, finalize-write_all,
}

-- A task that runs through its installation.
abbrev task_run : List VehicleTaskState
task_run = VehicleTask.permit_pending ∷ VehicleTask.executing ∷ VehicleTask.completed ∷ []

task_run-IsRun : TaskRuns.IsRun VehicleTask.waiting_window task_run
unfolding is_valid_vehicle_task_transition
task_run-IsRun = (refl, (refl, (refl, tt)))

ended-IsRun : TaskRuns.IsRun VehicleTask.ended (VehicleTask.ended ∷ [])
unfolding is_valid_vehicle_task_transition
ended-IsRun = (refl, tt)

absorbs_example : All (λ t. t ≡ VehicleTask.ended) (VehicleTask.ended ∷ [])
unfolding VehicleTask.is_terminal_vehicle_task_state
absorbs_example = terminal_absorbs VehicleTask.ended (VehicleTask.ended ∷ []) refl ended-IsRun

needs_permit_example : Occurs VehicleTask.permit_pending task_run
needs_permit_example =
    executing_needs_permit VehicleTask.waiting_window task_run refl task_run-IsRun (inr (inl refl))

reachable_example :
    (ts : List VehicleTaskState) × TaskRuns.IsRun VehicleTask.paused ts
    × Occurs VehicleTask.completed ts
reachable_example = completed_reachable VehicleTask.paused (ground arith)

task_text_example :
    vehicle_task_state_from_string
      (some (vehicle_task_state_to_string VehicleTask.ready))
      VehicleTask.no_task
    ≡ (true, VehicleTask.ready)
task_text_example = task_from_string-to_string VehicleTask.ready VehicleTask.no_task

task_exact_example : some "READY" ≡ some (vehicle_task_state_to_string VehicleTask.ready)
unfolding vehicle_task_state_from_string vehicle_task_state_to_string
task_exact_example =
    task_from_string_exact (some "READY") VehicleTask.no_task VehicleTask.ready
      (task_from_string-to_string VehicleTask.ready VehicleTask.no_task)

-- An execution that succeeds without a reboot.
abbrev execution_run : List ExecutionState
execution_run =
    Execution.ready ∷ Execution.install_started ∷ Execution.install ∷ Execution.result_pending
    ∷ Execution.succeeded ∷ []

execution_run-IsRun : ExecutionRuns.IsRun Execution.permit_persisted execution_run
unfolding is_valid_execution_transition
execution_run-IsRun = (refl, (refl, (refl, (refl, (refl, tt)))))

changes_example : changes Execution.permit_persisted execution_run + 0 ≤ 11
changes_example = changes_bounded Execution.permit_persisted execution_run execution_run-IsRun

needs_start_example : Occurs Execution.install_started execution_run
unfolding is_terminal_execution_state
needs_start_example =
    result_needs_start Execution.permit_persisted Execution.succeeded execution_run refl refl refl
      execution_run-IsRun (inr (inr (inr (inr (inl refl)))))

execution_text_example :
    execution_state_from_string (some (execution_state_to_string Execution.reboot)) Execution.ready
    ≡ (true, Execution.reboot)
execution_text_example = execution_from_string-to_string Execution.reboot Execution.ready

execution_exact_example : some "REBOOT" ≡ some (execution_state_to_string Execution.reboot)
unfolding execution_state_from_string execution_state_to_string
execution_exact_example =
    execution_from_string_exact (some "REBOOT") Execution.ready Execution.reboot
      (execution_from_string-to_string Execution.reboot Execution.ready)

wire_example :
    (from_proto_vehicle_task (vehicle_task_to_proto VehicleTask.paused) ≡ VehicleTask.paused)
    × (from_proto_execution (execution_to_proto Execution.install) ≡ Execution.install)
wire_example = from_proto-to_proto VehicleTask.paused Execution.install

status_example :
    (vehicle_task_to_proto (from_proto_vehicle_task VehicleTaskStatus.ready)
      ≡ VehicleTaskStatus.ready)
    × (execution_to_proto (from_proto_execution ExecutionStatus.failed) ≡ ExecutionStatus.failed)
status_example =
    to_proto-from_proto VehicleTaskStatus.ready ExecutionStatus.failed (λ n p. cc) (λ n p. cc)
      (λ p. cc) (λ p. cc)

-- A configuration with allocated ids.
abbrev allocated : GenericTransportSpec
allocated = record { method_id = 2; event_id = 32769; eventgroup_id = 1; interface_major = 1 }

allocated-IsAllocated : IsAllocated allocated
allocated-IsAllocated = record {
  method_above = omega arith;
  method_below = omega arith;
  event_above = omega arith;
  event_below = omega arith;
  eventgroup_above = omega arith;
  eventgroup_below = omega arith;
  major = refl;
}

allocated_example : resolve_tbox_generic_transport allocated ≡ returned true (address_of allocated)
allocated_example = allocated_resolved allocated allocated-IsAllocated

resolved_example :
    IsAllocated allocated
    × ((address_of allocated).method ≡ 2)
    × ((address_of allocated).event ≡ 32769)
    × ((address_of allocated).eventgroup ≡ 1)
    × ((address_of allocated).interface_version ≡ (1, 0))
resolved_example =
    resolve-IsAllocated allocated (address_of allocated) (omega arith, omega arith, omega arith)
      (allocated_resolved allocated allocated-IsAllocated)

-- A configuration that declares nothing.
abbrev undeclared : GenericTransportSpec
undeclared = record { method_id = 0; event_id = 0; eventgroup_id = 0; interface_major = 1 }

unresolved_example :
    (undeclared.method_id ≡ 0)
    × (undeclared.event_id ≡ 0)
    × (undeclared.eventgroup_id ≡ 0)
    × (default_address ≡ default_address)
unfolding resolve_tbox_generic_transport any_declared
unresolved_example = unresolved_undeclared undeclared default_address refl

-- Three fields of different kinds.
abbrev fields : List Field
fields = string_field 1 (65 ∷ []) ∷ enum_field 2 3 ∷ list_field 7 ((1 ∷ 2 ∷ []) ∷ []) ∷ []

layout_example : finalize (write_all fields (create (68 ∷ []))) ≡ layout (68 ∷ []) fields
layout_example = finalize-write_all (68 ∷ []) fields
