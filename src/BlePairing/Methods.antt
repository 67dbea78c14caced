-- ===== src/BlePairing/Methods.antt =====
-- The methods of the state machine. The mutations have one caller, so each is one step.
use s3_hidbot.Common.{ℕ, ◌+◌, ◌-◌, ◌^◌, Bool, true, false, not, ◌&&◌, ◌||◌, ◌==◌, if◌then◌else◌}
use s3_hidbot.BleLifecycle.{no_connection}
use s3_hidbot.BlePairing.Types.{
  LiveState, idle, securing, waiting_input, LastResult, none_recorded, timed_out, peer_disconnected,
  security_policy, PasskeyActionResult, started, duplicate, stale, unsupported, id_is_exhausted,
  RespondResult, response_accepted, not_pending, stale_generation, stale_connection,
  stale_pairing_id, StateMachine, is_idle, is_waiting,
}
use s3_hidbot.BlePairing.Memory.{Publication, publish, own_snapshot}

abbrev pub publication : LiveState → LastResult → ℕ → ℕ → ℕ → Bool → Bool → Bool → Publication
publication live result generation connection id active consumed exhausted = record {
  live_state = live;
  last_result = result;
  generation = generation;
  connection_handle = connection;
  pairing_id = id;
  pairing_active = active;
  input_consumed = consumed;
  id_exhausted = exhausted;
}

abbrev pub current : ℕ → ℕ → StateMachine → Bool
current generation connection m =
    let value = own_snapshot m in
    value.coherent && value.generation == generation && value.connection_handle == connection

unfoldable pub begin_connection : ℕ → ℕ → StateMachine → StateMachine
begin_connection generation connection m =
    let old = own_snapshot m in
    publish
      (publication securing old.last_result generation connection 0 false false old.id_exhausted) m

unfoldable pub begin_passkey_input : ℕ → ℕ → StateMachine → StateMachine × PasskeyActionResult
begin_passkey_input generation connection m =
    let old = own_snapshot m in
    let id = m.next_pairing_id in
    let exhausted = id == 2 ^ 32 - 1 in
    let refuse =
      publish (publication idle security_policy generation connection 0 false false true) m in
    if not old.coherent
      || not (old.generation == generation)
      || not (old.connection_handle == connection)
      || is_idle old.live_state
    then (m, stale)
    else if is_waiting old.live_state && not (old.pairing_id == 0)
    then (m, duplicate)
    else if old.id_exhausted
    then (refuse, id_is_exhausted)
    else if id == 0
    then (refuse, id_is_exhausted)
    else (
      publish
          (publication waiting_input none_recorded generation connection id true false exhausted)
          (record m { next_pairing_id = if exhausted then 0 else id + 1 }),
      started,
    )

unfoldable pub reject_unsupported_action : ℕ → ℕ → StateMachine → StateMachine × PasskeyActionResult
reject_unsupported_action generation connection m =
    let old = own_snapshot m in
    if not (current generation connection m) then (m, stale) else (
      publish
          (publication idle security_policy generation connection 0 false false old.id_exhausted) m,
      unsupported,
    )

unfoldable pub validate_response : ℕ → ℕ → ℕ → StateMachine → RespondResult
validate_response generation connection id m =
    let value = own_snapshot m in
    if not value.coherent || not (value.generation == generation)
    then stale_generation
    else if not (value.connection_handle == connection)
    then stale_connection
    else if not (is_waiting value.live_state)
        || not value.pairing_active
        || value.input_consumed
        || value.pairing_id == 0
    then not_pending
    else if value.pairing_id == id
    then response_accepted
    else stale_pairing_id

abbrev pub is_accepted : RespondResult → Bool
is_accepted response_accepted = true
is_accepted _ = false

unfoldable pub consume_response : ℕ → ℕ → ℕ → StateMachine → StateMachine
consume_response generation connection id m =
    let old = own_snapshot m in
    if not (is_accepted (validate_response generation connection id m))
    then m
    else publish
        (publication securing old.last_result generation connection 0 true true old.id_exhausted) m

unfoldable pub timeout : ℕ → ℕ → ℕ → StateMachine → StateMachine × Bool
timeout generation connection id m =
    let old = own_snapshot m in
    if not (is_accepted (validate_response generation connection id m)) then (m, false) else (
      publish (publication idle timed_out generation connection 0 false false old.id_exhausted) m,
      true,
    )

unfoldable pub complete : ℕ → ℕ → LastResult → StateMachine → StateMachine × Bool
complete generation connection result m =
    let old = own_snapshot m in
    if not (current generation connection m) then (m, false) else (
      publish (publication idle result generation connection 0 false false old.id_exhausted) m,
      true,
    )

unfoldable pub fail_closed : ℕ → ℕ → LastResult → StateMachine → StateMachine
fail_closed generation connection result m =
    let old = own_snapshot m in
    publish (publication idle result generation connection 0 false false old.id_exhausted) m

unfoldable pub disconnect : ℕ → ℕ → StateMachine → StateMachine × Bool
disconnect generation connection m =
    let old = own_snapshot m in
    let result = if old.pairing_active then peer_disconnected else old.last_result in
    if not (current generation connection m) then (m, false) else (
      publish (publication idle result generation no_connection 0 false false old.id_exhausted) m,
      true,
    )

unfoldable pub disable : StateMachine → StateMachine
disable m =
    let old = own_snapshot m in
    publish
      (publication idle none_recorded old.generation no_connection 0 false false old.id_exhausted) m

unfoldable pub reset : StateMachine → StateMachine
reset m =
    let old = own_snapshot m in
    publish
      (publication idle none_recorded old.generation no_connection 0 false false old.id_exhausted) m
