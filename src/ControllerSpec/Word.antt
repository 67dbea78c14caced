-- ===== src/ControllerSpec/Word.antt =====
-- The fields of the status word are read as they were written.
use s3_hidbot.Common.{ℕ, ◌+◌, ◌*◌, ◌/◌, ◌^◌, ◌%◌, ◌<◌, ◌≡◌, Bool, arith}
use s3_hidbot.BleLifecycle.{flag, has}
use s3_hidbot.HidSequence.{
  State, TerminalCode, state_number, code_number, encode_status, decode_state, decode_executed,
  decode_failed_token_present, decode_failed_token, decode_terminal_code, decode_release_owned,
  state_of, code_of,
}

-- The word of these fields.
abbrev word : ℕ → ℕ → Bool → ℕ → ℕ → Bool → ℕ
word state executed present token code release =
    state + executed * 2 ^ 3 + flag present 10 + token * 2 ^ 11 + code * 2 ^ 17 + flag release 21

word-fields :
    (state executed token code : ℕ) (present release : Bool)
    → state < 8
    → executed < 128
    → token < 64
    → code < 16
    → let w = word state executed present token code release in
      (w % 8 ≡ state)
      × (w / 2 ^ 3 % 128 ≡ executed)
      × (has w 10 ≡ present)
      × (w / 2 ^ 11 % 64 ≡ token)
      × (w / 2 ^ 17 % 16 ≡ code)
      × (has w 21 ≡ release)
word-fields state executed token code present release a b c d = ground arith

state_of-state_number : (s : State) → (state_number s < 8) × (state_of (state_number s) ≡ s)
state_of-state_number s = ground arith

code_of-code_number : (c : TerminalCode) → (code_number c < 16) × (code_of (code_number c) ≡ c)
code_of-code_number c = ground arith

-- What is read of a word.
pub record Reads (status executed token : ℕ) (state : State) (present release : Bool)
    (code : TerminalCode) : Type 0 where
  pub state_read : decode_state status ≡ state
  pub executed_read : decode_executed status ≡ executed
  pub present_read : decode_failed_token_present status ≡ present
  pub token_read : decode_failed_token status ≡ token
  pub code_read : decode_terminal_code status ≡ code
  pub release_read : decode_release_owned status ≡ release

pub encode_status-Reads :
    (state : State) (executed token : ℕ) (present release : Bool) (code : TerminalCode)
    → Reads
        (encode_status state executed present token code release)
        (executed % 128)
        (token % 64)
        state
        present
        release
        code
unfolding encode_status decode_state decode_executed decode_failed_token_present decode_failed_token
    decode_terminal_code decode_release_owned
encode_status-Reads state executed token present release code =
    let (s, s') = state_of-state_number state in
    let (k, k') = code_of-code_number code in
    let whole : code_number code % 16 ≡ code_number code = omega (arith, k) in
    let (a, b, c, d, e, f) =
      word-fields (state_number state) (executed % 128) (token % 64) (code_number code) present
        release s (omega arith) (omega arith) k in
    record {
      state_read = rw (whole, a) s';
      executed_read = rw whole b;
      present_read = rw whole c;
      token_read = rw whole d;
      code_read = rw (whole, e) k';
      release_read = rw whole f;
    }
