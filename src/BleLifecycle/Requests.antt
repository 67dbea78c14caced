-- ===== src/BleLifecycle/Requests.antt =====
-- What the executor asks for: to enable or disable the stack, to restart it hidden.
use s3_hidbot.Common.{ℕ, Bool, true, false, not, ◌&&◌, ◌||◌, ◌==◌, some, none, if◌then◌else◌}
use s3_hidbot.BleLifecycle.Types.{
  hidden, exposed, uninitialized, enabling, idle, advertising, connected, disabling, fault,
  accepted, no_op, busy, Snapshot, TransitionOutcome, is, is_hidden, is_exposed,
}
use s3_hidbot.BleLifecycle.Members.{
  StateMachine, publish, advance_generation, clear_error, snapshot,
}

-- `return {}`.
abbrev pub refused : TransitionOutcome
refused = record { action_result = busy; snapshot = none }

abbrev pub already : Snapshot → TransitionOutcome
already current = record { action_result = no_op; snapshot = some current }

abbrev pub accepted_as : StateMachine → StateMachine × TransitionOutcome
accepted_as m = (m, record { action_result = accepted; snapshot = some (snapshot m) })

-- The first test of both requests.
abbrev pub is_unavailable : Snapshot → Bool
is_unavailable current =
    current.recovery_required
    || is current.observed fault
    || is current.observed enabling
    || is current.observed disabling

unfoldable pub begin_enable : StateMachine → StateMachine × TransitionOutcome
begin_enable m =
    let current : Snapshot = snapshot m in
    if is_unavailable current
    then (m, refused)
    else if is_exposed current.desired
        && (is current.observed advertising || is current.observed connected)
    then (m, already current)
    else if not (is_hidden current.desired)
        || (not (is current.observed uninitialized) && not (is current.observed idle))
    then (m, refused)
    else accepted_as (
        publish (record (clear_error (advance_generation m)) { reset_recovery_used = false })
          exposed enabling current.stack_ready false false false)

unfoldable pub begin_disable : StateMachine → StateMachine × TransitionOutcome
begin_disable m =
    let current : Snapshot = snapshot m in
    if is_unavailable current
    then (m, refused)
    else if is_hidden current.desired
        && (is current.observed uninitialized || is current.observed idle)
    then (m, already current)
    else if not (is_exposed current.desired)
    then (m, refused)
    else accepted_as (
        publish (clear_error (advance_generation m)) hidden disabling current.stack_ready
          current.is_advertising current.is_connected false)

unfoldable pub begin_hidden_restart : StateMachine → StateMachine × Bool
begin_hidden_restart m =
    let current : Snapshot = snapshot m in
    if not (is_hidden current.desired)
      || not (is current.observed idle)
      || not current.stack_ready
      || current.is_connected
      || current.is_advertising
      || current.recovery_required
      || current.generation == 4294967295
    then (m, false)
    else (
      publish (clear_error (advance_generation m)) hidden disabling false false false false,
      true,
    )

unfoldable pub begin_hidden_initialization : StateMachine → ℕ → StateMachine × Bool
begin_hidden_initialization m generation =
    let current : Snapshot = snapshot m in
    if not (current.generation == generation)
      || current.recovery_required
      || not (is_hidden current.desired)
      || not (is current.observed disabling)
    then (m, false)
    else (
      publish (record m { reset_recovery_used = false }) hidden enabling false false false false,
      true,
    )
