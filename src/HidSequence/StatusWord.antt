-- ===== src/HidSequence/StatusWord.antt =====
-- The status word of a sequence: a state, the operations that were executed, how it failed, and who
-- releases. Its fields are disjoint bits, so `|` adds them, and a field is read by division.
use s3_hidbot.Common.{ℕ, ◌+◌, ◌*◌, ◌/◌, ◌^◌, ◌%◌, Bool, true, false, ◌==◌, ◌||◌, if◌then◌else◌}
use s3_hidbot.BleLifecycle.{flag, has}

-- Three bits hold the state, so there are values that have no enumerator.
pub data State : Type 0 where
  accepted running completed failed aborted unnamed_state : State

-- Four bits hold the code.
pub data TerminalCode : Type 0 where
  nothing_failed hid_busy hid_not_ready hid_safety_pending session_lost sequence_timeout
        sequence_aborted unnamed_terminal :
      TerminalCode

abbrev pub state_number : State → ℕ
state_number accepted = 0
state_number running = 1
state_number completed = 2
state_number failed = 3
state_number aborted = 4
state_number unnamed_state = 5

abbrev pub code_number : TerminalCode → ℕ
code_number nothing_failed = 0
code_number hid_busy = 1
code_number hid_not_ready = 2
code_number hid_safety_pending = 3
code_number session_lost = 4
code_number sequence_timeout = 5
code_number sequence_aborted = 6
code_number unnamed_terminal = 7

unfoldable pub encode_status : State → ℕ → Bool → ℕ → TerminalCode → Bool → ℕ
encode_status state executed failed_token_present failed_token code release_owned =
    state_number state
    + executed % 128 * 2 ^ 3
    + flag failed_token_present 10
    + failed_token % 64 * 2 ^ 11
    + code_number code % 16 * 2 ^ 17
    + flag release_owned 21

abbrev pub state_of : ℕ → State
state_of number =
    if number == 0
    then accepted
    else if number == 1
    then running
    else if number == 2
    then completed
    else if number == 3
    then failed
    else if number == 4
    then aborted
    else unnamed_state

abbrev pub code_of : ℕ → TerminalCode
code_of number =
    if number == 0
    then nothing_failed
    else if number == 1
    then hid_busy
    else if number == 2
    then hid_not_ready
    else if number == 3
    then hid_safety_pending
    else if number == 4
    then session_lost
    else if number == 5
    then sequence_timeout
    else if number == 6
    then sequence_aborted
    else unnamed_terminal

unfoldable pub decode_state : ℕ → State
decode_state status = state_of (status % 8)

unfoldable pub decode_executed : ℕ → ℕ
decode_executed status = status / 2 ^ 3 % 128

unfoldable pub decode_failed_token_present : ℕ → Bool
decode_failed_token_present status = has status 10

unfoldable pub decode_failed_token : ℕ → ℕ
decode_failed_token status = status / 2 ^ 11 % 64

unfoldable pub decode_terminal_code : ℕ → TerminalCode
decode_terminal_code status = code_of (status / 2 ^ 17 % 16)

unfoldable pub decode_release_owned : ℕ → Bool
decode_release_owned status = has status 21

abbrev pub is_running : State → Bool
is_running running = true
is_running _ = false

-- The states that an abort may still end.
abbrev pub is_live : State → Bool
is_live accepted = true
is_live running = true
is_live _ = false

abbrev pub is_failure : State → Bool
is_failure failed = true
is_failure aborted = true
is_failure _ = false

abbrev pub is_completed : State → Bool
is_completed completed = true
is_completed _ = false

abbrev pub is_aborted : State → Bool
is_aborted aborted = true
is_aborted _ = false

abbrev pub terminal_state : State → Bool
terminal_state state = is_completed state || is_failure state
