-- ===== src/BlePairing/Types.antt =====
-- ble_pairing.hpp: the enumerations, the snapshot, and the members of the state machine.
use s3_hidbot.Common.{ℕ, Bool, true, false}
use s3_hidbot.BleLifecycle.{no_connection}

pub data LiveState : Type 0 where
  idle securing waiting_input : LiveState

pub data LastResult : Type 0 where
  none_recorded succeeded smp_failed timed_out peer_disconnected store_full storage queue_overflow
        repeat_pairing security_policy :
      LastResult

pub data PasskeyActionResult : Type 0 where
  started duplicate stale unsupported id_is_exhausted : PasskeyActionResult

pub data RespondResult : Type 0 where
  response_accepted not_pending stale_generation stale_connection stale_pairing_id invalid_secret
        injection_failed :
      RespondResult

pub record Snapshot : Type 0 where
  pub coherent : Bool
  pub live_state : LiveState
  pub last_result : LastResult
  pub generation : ℕ
  pub connection_handle : ℕ
  pub pairing_id : ℕ
  pub pairing_active : Bool
  pub input_consumed : Bool
  pub id_exhausted : Bool

-- `Snapshot{}`.
abbrev pub incoherent : Snapshot
incoherent = record {
  coherent = false;
  live_state = idle;
  last_result = none_recorded;
  generation = 0;
  connection_handle = no_connection;
  pairing_id = 0;
  pairing_active = false;
  input_consumed = false;
  id_exhausted = false;
}

-- The atomic members. The two bytes that hold an enumerator are never given anything else, so they
-- are the enumerators here.
pub record StateMachine : Type 0 where
  pub sequence : ℕ
  pub generation : ℕ
  pub connection_handle : ℕ
  pub pairing_id : ℕ
  pub next_pairing_id : ℕ
  pub live_state : LiveState
  pub last_result : LastResult
  pub flags : ℕ

abbrev pub built : StateMachine
built = record {
  sequence = 0;
  generation = 0;
  connection_handle = no_connection;
  pairing_id = 0;
  next_pairing_id = 1;
  live_state = idle;
  last_result = none_recorded;
  flags = 0;
}

abbrev pub is_idle : LiveState → Bool
is_idle idle = true
is_idle _ = false

abbrev pub is_waiting : LiveState → Bool
is_waiting waiting_input = true
is_waiting _ = false
