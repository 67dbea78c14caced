-- ===== src/HidSequence/Types.antt =====
-- hid_sequence.hpp: the limits, the operations, the plan.
use s3_hidbot.Common.{ℕ, List, Bool}

abbrev pub maximum_code_bytes : ℕ
maximum_code_bytes = 320

abbrev pub maximum_tokens : ℕ
maximum_tokens = 64

abbrev pub maximum_default_delay_ms : ℕ
maximum_default_delay_ms = 1000

abbrev pub maximum_wait_ms : ℕ
maximum_wait_ms = 2000

abbrev pub maximum_scheduled_duration_ms : ℕ
maximum_scheduled_duration_ms = 2500

pub data OperationKind : Type 0 where
  default_delay wait key_press key_release mouse_press mouse_release : OperationKind

pub record Operation : Type 0 where
  pub kind : OperationKind
  pub value : ℕ

-- `keycodes` is an array of six.
pub record HidState : Type 0 where
  pub modifiers : ℕ
  pub keycodes : List ℕ
  pub mouse_buttons : ℕ

-- `operations` is the array up to `count`.
pub record Plan : Type 0 where
  pub operations : List Operation
  pub scheduled_duration_ms : ℕ
  pub initial_state : HidState
  pub required_roles : ℕ

-- `hid_capability::kKeyboardInput` and `kMouseInput`.
abbrev pub keyboard_input : ℕ
keyboard_input = 1

abbrev pub mouse_input : ℕ
mouse_input = 2

pub record WaitDecision : Type 0 where
  pub wait_complete : Bool
  pub execution_expired : Bool
  pub block_us : ℕ
