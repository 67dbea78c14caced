-- ===== src/BleLifecycle/Methods.antt =====
-- The public methods that change the members, as one type, and a history of them.
use s3_hidbot.Common.{ℕ, ℤ, Bool, List, [], ◌∷◌}
use s3_hidbot.BleLifecycle.Types.{Operation}
use s3_hidbot.BleLifecycle.Members.{StateMachine}
use s3_hidbot.BleLifecycle.Requests.{
  begin_enable, begin_disable, begin_hidden_restart, begin_hidden_initialization,
}
use s3_hidbot.BleLifecycle.Completions.{
  complete_hidden_sync, complete_sync, complete_advertising, observe_connect, observe_disconnect,
  complete_disable, begin_reset_recovery, complete_fault,
}

pub data Method : Type 0 where
  enables disables restarts_hidden : Method
  initializes_hidden syncs_hidden syncs advertises disabled : ℕ → Method
  connects : ℕ → ℕ → Method
  disconnects : ℕ → ℕ → Bool → Method
  resets : ℕ → ℤ → Method
  faults : ℕ → Operation → ℤ → Method

unfoldable pub apply : StateMachine → Method → StateMachine
apply m enables = (begin_enable m).0
apply m disables = (begin_disable m).0
apply m restarts_hidden = (begin_hidden_restart m).0
apply m (initializes_hidden g) = (begin_hidden_initialization m g).0
apply m (syncs_hidden g) = (complete_hidden_sync m g).0
apply m (syncs g) = (complete_sync m g).0
apply m (advertises g) = (complete_advertising m g).0
apply m (disabled g) = (complete_disable m g).0
apply m (connects g handle) = (observe_connect m g handle).0
apply m (disconnects g handle expected) = (observe_disconnect m g handle expected).0
apply m (resets g reason) = (begin_reset_recovery m g reason).0
apply m (faults g operation error_code) = complete_fault m g operation error_code

unfoldable pub apply_all : StateMachine → List Method → StateMachine
apply_all m [] = m
apply_all m (x ∷ xs) = apply_all (apply m x) xs
