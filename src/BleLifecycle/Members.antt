-- ===== src/BleLifecycle/Members.antt =====
-- ble_lifecycle::StateMachine: its members, what publishes them, and the snapshot. The five flags and
-- the observed state are disjoint bits of the byte: `|=` of a flag adds it, and a flag is read by
-- division. Mutation is serialized by the caller, so a method is one step.
use s3_hidbot.Common.{ℕ, ℤ, pos, ◌+◌, ◌*◌, ◌/◌, ◌^◌, ◌%◌, Bool, true, false, ◌==◌, if◌then◌else◌}
use s3_hidbot.BleLifecycle.Types.{
  DesiredExposure, hidden, exposed, ObservedState, uninitialized, enabling, idle, advertising,
  connected, disabling, fault, unnamed, Operation, enable, runtime, Snapshot, no_connection, code,
  is_exposed,
}

pub record StateMachine : Type 0 where
  pub generation : ℕ
  pub connection_handle : ℕ
  pub error_code : ℤ
  pub error_operation : Operation
  pub error_present : Bool
  pub state : ℕ
  pub reset_recovery_used : Bool

-- A flag of the byte: `set ? kBit : 0`, with the bit's number.
abbrev pub flag : Bool → ℕ → ℕ
flag set number = if set then 2 ^ number else 0

unfoldable pub publish :
    StateMachine → DesiredExposure → ObservedState → Bool → Bool → Bool → Bool → StateMachine
publish m desired observed stack_ready is_advertising is_connected recovery_required = record m {
  state =
      code observed * 2 ^ 5
      + flag (is_exposed desired) 0
      + flag stack_ready 1
      + flag is_advertising 2
      + flag is_connected 3
      + flag recovery_required 4;
}

-- `fetch_add(1)` on a `std::uint32_t`.
unfoldable pub advance_generation : StateMachine → StateMachine
advance_generation m = record m { generation = (m.generation + 1) % 2 ^ 32 }

unfoldable pub clear_error : StateMachine → StateMachine
clear_error m = record m { error_code = pos 0; error_operation = runtime; error_present = false }

unfoldable pub set_error : StateMachine → Operation → ℤ → StateMachine
set_error m operation code = record m {
  error_code = code;
  error_operation = operation;
  error_present = true;
}

-- The constructor, after the members' initializers.
unfoldable pub initial : StateMachine
initial =
    publish
      (record {
        generation = 0;
        connection_handle = no_connection;
        error_code = pos 0;
        error_operation = enable;
        error_present = false;
        state = 0;
        reset_recovery_used = false;
      })
      hidden uninitialized false false false false

-- `(state & kBit) != 0`.
abbrev pub has : ℕ → ℕ → Bool
has state number = state / 2 ^ number % 2 == 1

-- `static_cast<ObservedState>` of three bits.
abbrev pub to_observed : ℕ → ObservedState
to_observed n =
    if n == 0
    then uninitialized
    else if n == 1
    then enabling
    else if n == 2
    then idle
    else if n == 3
    then advertising
    else if n == 4
    then connected
    else if n == 5
    then disabling
    else if n == 6
    then fault
    else unnamed

unfoldable pub snapshot : StateMachine → Snapshot
snapshot m = record {
  desired = if has m.state 0 then exposed else hidden;
  observed = to_observed (m.state / 2 ^ 5);
  generation = m.generation;
  stack_ready = has m.state 1;
  is_advertising = has m.state 2;
  is_connected = has m.state 3;
  recovery_required = has m.state 4;
  last_error = record {
    present = m.error_present;
    operation = m.error_operation;
    code = m.error_code;
  };
}
