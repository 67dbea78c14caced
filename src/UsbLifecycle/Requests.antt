-- ===== src/UsbLifecycle/Requests.antt =====
-- `request_attach` and `request_detach`. The executor's `schedule` is a parameter: it says whether
-- the bounded queue of the caller takes an action with a snapshot.
use s3_hidbot.Common.{
  ℕ, negsuc, Bool, true, false, not, ◌&&◌, ◌||◌, ◌==◌, Option, none, some, if◌then◌else◌,
}
use s3_hidbot.UsbLifecycle.Types.{
  ObservedState, driver_not_installed, attaching, detaching, ExecutorAction, accepted, no_op, busy,
  LifecycleOperation, Snapshot, TransitionOutcome,
}
use s3_hidbot.UsbLifecycle.Bits.{
  code, byte, has, observed_of, with_observed, set_bits, clear_bits, desired_bit,
  safety_pending_bit, recovery_required_bit,
}
use s3_hidbot.UsbLifecycle.Members.{
  Machine, advance_generation, set_recovery_required, clear_last_error, record_error, snapshot,
}

abbrev pub Schedule : Type 0
Schedule = ExecutorAction → Snapshot → Bool

-- The new members, the outcome, and the call of the executor that was made.
pub record Response : Type 0 where
  pub machine : Machine
  pub outcome : TransitionOutcome
  pub scheduled : Option (ExecutorAction × Snapshot)

abbrev pub same : ObservedState → ObservedState → Bool
same a b = code a == code b

-- `return {}`.
abbrev pub rejected : TransitionOutcome
rejected = record { action_result = busy; snapshot = none }

unfoldable pub no_op_response : Machine → Response
unfolding snapshot
no_op_response m = record {
  machine = m;
  outcome = record { action_result = no_op; snapshot = some (snapshot m) };
  scheduled = none;
}

-- The accepted transition is handed to the executor; a full queue is a visible fault.
unfoldable pub hand_over : Schedule → ExecutorAction → LifecycleOperation → Machine → Response
unfolding snapshot record_error set_recovery_required
hand_over schedule action operation m =
    if schedule action (snapshot m)
    then record {
      machine = m;
      outcome = record { action_result = accepted; snapshot = some (snapshot m) };
      scheduled = some (action, snapshot m);
    }
    else record {
      machine = set_recovery_required (record_error m operation (negsuc 0)) true;
      outcome = rejected;
      scheduled = some (action, snapshot m);
    }

unfoldable pub begin_attach : Machine → Machine
unfolding clear_last_error advance_generation
begin_attach m =
    advance_generation (record (clear_last_error (record m { state = attaching_byte })) {
      teardown_boundary_started = false;
    })
  where
    attaching_byte : ℕ
    attaching_byte =
        with_observed (byte (clear_bits (set_bits m.state desired_bit) recovery_required_bit))
          attaching

unfoldable pub request_attach : Schedule → Machine → Response
request_attach schedule m =
    if same previous detaching || recovery_required
    then record { machine = m; outcome = rejected; scheduled = none }
    else if exposed && not (same previous driver_not_installed)
    then no_op_response m
    else if not exposed && not (same previous driver_not_installed)
    then record { machine = m; outcome = rejected; scheduled = none }
    else hand_over schedule ExecutorAction.install LifecycleOperation.install (begin_attach m)
  where
    previous : ObservedState
    previous = observed_of m.state

    exposed : Bool
    exposed = has m.state desired_bit

    recovery_required : Bool
    recovery_required = has m.state recovery_required_bit

-- The generation is kept for the safety work of the old one.
unfoldable pub begin_detach : Machine → Machine
unfolding clear_last_error
begin_detach m = clear_last_error (record m {
  state =
      with_observed (byte (set_bits (clear_bits m.state desired_bit) safety_pending_bit)) detaching;
})

unfoldable pub request_detach : Schedule → Machine → Response
request_detach schedule m =
    if same previous attaching
    then record { machine = m; outcome = rejected; scheduled = none }
    else if not exposed && (same previous driver_not_installed || same previous detaching)
    then no_op_response m
    else if not exposed || same previous driver_not_installed || has m.state recovery_required_bit
    then record { machine = m; outcome = rejected; scheduled = none }
    else hand_over schedule ExecutorAction.uninstall LifecycleOperation.uninstall (begin_detach m)
  where
    previous : ObservedState
    previous = observed_of m.state

    exposed : Bool
    exposed = has m.state desired_bit
