-- ===== src/BleLifecycle/Completions.antt =====
-- What the stack reports, each for the generation in which it was asked.
use s3_hidbot.Common.{ℕ, ℤ, Bool, true, false, not, ◌&&◌, ◌||◌, ◌==◌, if◌then◌else◌}
use s3_hidbot.BleLifecycle.Types.{
  hidden, enabling, idle, advertising, connected, disabling, fault, Operation, runtime, Snapshot,
  no_connection, is, is_hidden, is_exposed,
}
use s3_hidbot.BleLifecycle.Members.{StateMachine, publish, advance_generation, set_error, snapshot}

unfoldable pub complete_hidden_sync : StateMachine → ℕ → StateMachine × Bool
complete_hidden_sync m generation =
    let current : Snapshot = snapshot m in
    if not (current.generation == generation)
      || current.recovery_required
      || not (is_hidden current.desired)
      || (not (is current.observed enabling)
          && not (is current.observed idle && m.reset_recovery_used))
    then (m, false)
    else (publish m hidden idle true false false false, true)

unfoldable pub complete_sync : StateMachine → ℕ → StateMachine × Bool
complete_sync m generation =
    let current : Snapshot = snapshot m in
    if not (generation == current.generation)
      || not (is_exposed current.desired)
      || not (is current.observed enabling)
    then (m, false)
    else (publish m current.desired current.observed true false false false, true)

unfoldable pub complete_advertising : StateMachine → ℕ → StateMachine × Bool
complete_advertising m generation =
    let current : Snapshot = snapshot m in
    if not (generation == current.generation)
      || not (is_exposed current.desired)
      || (not (is current.observed enabling) && not (is current.observed advertising))
    then (m, false)
    else (publish m current.desired advertising true true false false, true)

unfoldable pub observe_connect : StateMachine → ℕ → ℕ → StateMachine × Bool
observe_connect m generation connection_handle =
    let current : Snapshot = snapshot m in
    if not (generation == current.generation)
      || not (is_exposed current.desired)
      || not (is current.observed advertising)
    then (m, false)
    else (
      publish (record m { connection_handle = connection_handle }) current.desired connected true
          false true false,
      true,
    )

-- The handle is given up before the state is looked at.
unfoldable pub observe_disconnect : StateMachine → ℕ → ℕ → Bool → StateMachine × Bool
observe_disconnect m generation connection_handle expected =
    let current : Snapshot = snapshot m in
    let after : StateMachine = record m { connection_handle = no_connection } in
    if not (generation == current.generation) || not (m.connection_handle == connection_handle)
    then (m, false)
    else if expected && is_hidden current.desired && is current.observed disabling
    then (after, true)
    else if not (is_exposed current.desired) || not (is current.observed connected)
    then (after, false)
    else (publish (advance_generation after) current.desired enabling true false false false, true)

unfoldable pub complete_disable : StateMachine → ℕ → StateMachine × Bool
complete_disable m generation =
    let current : Snapshot = snapshot m in
    if not (generation == current.generation)
      || not (is_hidden current.desired)
      || not (is current.observed disabling)
    then (m, false)
    else (
      publish (record m { connection_handle = no_connection }) current.desired idle
          current.stack_ready false false false,
      true,
    )

unfoldable pub begin_reset_recovery : StateMachine → ℕ → ℤ → StateMachine × Bool
begin_reset_recovery m generation reason =
    let current : Snapshot = snapshot m in
    let next : StateMachine =
      set_error (record (advance_generation m) { connection_handle = no_connection }) runtime
        reason in
    if not (generation == current.generation)
      || current.recovery_required
      || is current.observed fault
    then (m, false)
    else if not m.reset_recovery_used
    then (
      publish (record next { reset_recovery_used = true }) current.desired
          (if is_exposed current.desired then enabling else idle) false false false false,
      true,
    )
    else (publish next current.desired fault false false false true, false)

unfoldable pub complete_fault : StateMachine → ℕ → Operation → ℤ → StateMachine
complete_fault m generation operation error_code =
    let current : Snapshot = snapshot m in
    if not (generation == current.generation)
    then m
    else publish (record (set_error m operation error_code) { connection_handle = no_connection })
        current.desired fault current.stack_ready false false true
