-- ===== src/UsbLifecycle/Members.antt =====
-- usb_lifecycle::StateMachine: its members and its private methods. A method is one step: it is not
-- interleaved with another, so a compare-and-swap loop ends at its first successful exchange.
use s3_hidbot.Common.{ℕ, ℤ, pos, ◌+◌, ◌^◌, ◌%◌, Bool, true, false, if◌then◌else◌}
use s3_hidbot.UsbLifecycle.Types.{
  DesiredExposure, hidden, exposed, ObservedState, driver_not_installed, LifecycleOperation,
  Snapshot,
}
use s3_hidbot.UsbLifecycle.Bits.{
  encode, has, observed_of, with_observed, set_bits, clear_bits, desired_bit, safety_pending_bit,
  uncertain_bit, recovery_required_bit,
}

pub record Machine : Type 0 where
  pub generation : ℕ
  pub uncertainty_generation : ℕ
  pub last_error_code : ℤ
  pub last_error_operation : LifecycleOperation
  pub last_error_present : Bool
  pub teardown_boundary_started : Bool
  pub runtime_fault_pending : Bool
  pub state : ℕ

-- Increments of a `std::uint32_t` wrap.
abbrev pub next_generation : ℕ → ℕ
next_generation g = (g + 1) % 2 ^ 32

unfoldable pub advance_generation : Machine → Machine
advance_generation m = record m { generation = next_generation m.generation }

abbrev pub exposure : Bool → DesiredExposure
exposure b = if b then exposed else hidden

unfoldable pub desired : Machine → DesiredExposure
desired m = exposure (has m.state desired_bit)

unfoldable pub observed : Machine → ObservedState
observed m = observed_of m.state

unfoldable pub set_observed : Machine → ObservedState → Machine
set_observed m o = record m { state = with_observed m.state o }

unfoldable pub set_recovery_required : Machine → Bool → Machine
set_recovery_required m required = record m {
  state =
      if required
      then set_bits m.state recovery_required_bit
      else clear_bits m.state recovery_required_bit;
}

unfoldable pub clear_last_error : Machine → Machine
clear_last_error m = record m {
  last_error_code = pos 0;
  last_error_operation = LifecycleOperation.install;
  last_error_present = false;
}

unfoldable pub record_error : Machine → LifecycleOperation → ℤ → Machine
record_error m operation code = record m {
  last_error_code = code;
  last_error_operation = operation;
  last_error_present = true;
}

-- Whatever the members were, a cold boot sets each of them.
unfoldable pub initialize_hidden_boot_policy : Machine → Machine
unfolding clear_last_error
initialize_hidden_boot_policy m = record (clear_last_error m) {
  generation = 0;
  uncertainty_generation = 0;
  teardown_boundary_started = false;
  runtime_fault_pending = false;
  state = encode driver_not_installed;
}

unfoldable pub snapshot : Machine → Snapshot
snapshot m = record {
  desired = exposure (has m.state desired_bit);
  observed = observed_of m.state;
  generation = m.generation;
  uncertainty_generation = m.uncertainty_generation;
  safety_pending = has m.state safety_pending_bit;
  host_release_uncertain = has m.state uncertain_bit;
  recovery_required = has m.state recovery_required_bit;
  last_error = record {
    present = m.last_error_present;
    operation = m.last_error_operation;
    code = m.last_error_code;
  };
}
