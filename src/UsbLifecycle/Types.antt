-- ===== src/UsbLifecycle/Types.antt =====
-- usb_lifecycle.hpp: the enumerations and records of the USB lifecycle.
use s3_hidbot.Common.{ℕ, ℤ, Bool, Option}

pub data DesiredExposure : Type 0 where
  hidden exposed : DesiredExposure

-- The byte behind the enumeration can hold more than its enumerators: `unnamed` are those values.
pub data ObservedState : Type 0 where
  driver_not_installed disconnected attaching mounted suspended detaching : ObservedState
  unnamed : ℕ → ObservedState

pub data ExecutorAction : Type 0 where
  install uninstall : ExecutorAction

pub data TransitionResult : Type 0 where
  accepted no_op busy : TransitionResult

pub data LifecycleOperation : Type 0 where
  install uninstall runtime : LifecycleOperation

pub record LastError : Type 0 where
  pub present : Bool
  pub operation : LifecycleOperation
  pub code : ℤ

pub record Snapshot : Type 0 where
  pub desired : DesiredExposure
  pub observed : ObservedState
  pub generation : ℕ
  pub uncertainty_generation : ℕ
  pub safety_pending : Bool
  pub host_release_uncertain : Bool
  pub recovery_required : Bool
  pub last_error : LastError

-- `snapshot_valid` and `snapshot` of the source are one `Option`.
pub record TransitionOutcome : Type 0 where
  pub action_result : TransitionResult
  pub snapshot : Option Snapshot
