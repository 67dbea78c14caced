-- ===== src/BleLifecycle/Types.antt =====
-- ble_lifecycle.hpp: the enumerations and records of the BLE lifecycle.
use s3_hidbot.Common.{ℕ, ℤ, Bool, true, false, Option, ◌==◌}

pub data DesiredExposure : Type 0 where
  hidden exposed : DesiredExposure

-- Three bits hold the state, so there is an eighth value that has no enumerator.
pub data ObservedState : Type 0 where
  uninitialized enabling idle advertising connected disabling fault unnamed : ObservedState

pub data Operation : Type 0 where
  enable disable runtime : Operation

pub data TransitionResult : Type 0 where
  accepted no_op busy : TransitionResult

pub record LastError : Type 0 where
  pub present : Bool
  pub operation : Operation
  pub code : ℤ

pub record Snapshot : Type 0 where
  pub desired : DesiredExposure
  pub observed : ObservedState
  pub generation : ℕ
  pub stack_ready : Bool
  pub is_advertising : Bool
  pub is_connected : Bool
  pub recovery_required : Bool
  pub last_error : LastError

-- `snapshot_valid` and `snapshot` of the source are one `Option`.
pub record TransitionOutcome : Type 0 where
  pub action_result : TransitionResult
  pub snapshot : Option Snapshot

abbrev pub no_connection : ℕ
no_connection = 65535

-- The number of an enumerator.
abbrev pub code : ObservedState → ℕ
code uninitialized = 0
code enabling = 1
code idle = 2
code advertising = 3
code connected = 4
code disabling = 5
code fault = 6
code unnamed = 7

abbrev pub is : ObservedState → ObservedState → Bool
is a b = code a == code b

abbrev pub is_hidden : DesiredExposure → Bool
is_hidden hidden = true
is_hidden exposed = false

abbrev pub is_exposed : DesiredExposure → Bool
is_exposed hidden = false
is_exposed exposed = true
