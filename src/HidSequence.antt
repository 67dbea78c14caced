-- ===== src/HidSequence.antt =====
-- firmware/components/hid_sequence: the text of a sequence, parsed into a plan of operations.
--
-- `Types` are the header's types, `Keys` the report state and its transitions, `Tokens` the numbers
-- and tokens of the text, `Parse` the whole text and the scheduled duration, `StatusWord` the
-- status word, `Control` the methods that start, end and report a sequence, `Waits` the
-- wait of a run.
mod Types
mod Keys
mod Tokens
mod Parse
mod StatusWord
mod Control
mod Waits
pub use Types.*
pub use Keys.*
pub use Tokens.*
pub use Parse.*
pub use StatusWord.*
pub use Control.*
pub use Waits.*
unfoldable pub use Keys.{
  index_of, shift_in, shift_down, press_key, release_key, apply_key, apply_mouse, apply_transition,
}
unfoldable pub use Tokens.{
  number_from, parse_number, button_bit, parse_key, parse_button, parse_token,
}
unfoldable pub use Parse.{
  cut_token, next_roles, parse_tokens, duration_from, checked_duration, parse, wait_decision,
}
unfoldable pub use StatusWord.{
  encode_status, decode_state, decode_executed, decode_failed_token_present, decode_failed_token,
  decode_terminal_code, decode_release_owned,
}
unfoldable pub use Control.{
  abort_generation, abort, abort_for_release, retire_owner, outside_all, admit, start, status,
  claim_terminal, publish_running_progress, take_up, leave_untaken, clean_up,
}
unfoldable pub use Waits.{wait_from, wait_local}
