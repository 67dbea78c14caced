-- ===== src/BleSpec/Recovery.antt =====
-- One reset is recovered from at a time, and reports of another generation are ignored.
use s3_hidbot.Common.{ℤ, ◌≡◌, Bool, true, false, List, [], ◌∷◌, arith, not, ◌||◌, ◌==◌}
use s3_hidbot.BleLifecycle.{
  StateMachine, fault, runtime, publish, snapshot, advance_generation, set_error, Method, enables,
  initializes_hidden, syncs_hidden, syncs, advertises, disabled, connects, disconnects, resets,
  faults, apply, begin_hidden_initialization, complete_hidden_sync, complete_sync,
  complete_advertising, observe_connect, observe_disconnect, complete_disable, begin_reset_recovery,
  complete_fault, no_connection,
}

-- The generation for which a report is made, against the current one.
unfoldable pub is_stale : StateMachine → Method → Bool
is_stale m (syncs_hidden g) = not (m.generation == g)
is_stale m (syncs g) = not (m.generation == g)
is_stale m (advertises g) = not (m.generation == g)
is_stale m (disabled g) = not (m.generation == g)
is_stale m (initializes_hidden g) = not (m.generation == g)
is_stale m (connects g handle) = not (m.generation == g)
is_stale m (disconnects g handle expected) = not (m.generation == g)
is_stale m (resets g reason) = not (m.generation == g)
is_stale m (faults g operation error_code) = not (m.generation == g)
is_stale m _ = false

-- A report for another generation than the current one changes nothing.
pub apply-stale : (m : StateMachine) (x : Method) → is_stale m x ≡ true → apply m x ≡ m
unfolding apply is_stale snapshot complete_hidden_sync complete_sync complete_advertising
    complete_disable begin_hidden_initialization observe_connect observe_disconnect
    begin_reset_recovery complete_fault
apply-stale m x h = ground arith

-- The methods that start anew.
unfoldable pub is_rearming : Method → Bool
is_rearming enables = true
is_rearming (initializes_hidden g) = true
is_rearming _ = false

unfoldable pub rearms : List Method → Bool
unfolding is_rearming
rearms [] = false
rearms (x ∷ xs) = is_rearming x || rearms xs

abbrev faulted : StateMachine → ℤ → StateMachine
faulted m reason =
    publish
      (set_error (record (advance_generation m) { connection_handle = no_connection }) runtime
        reason)
      (snapshot m).desired fault false false false true
