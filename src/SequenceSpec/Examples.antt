-- ===== src/SequenceSpec/Examples.antt =====
-- Tests of the parser, and its theorem applied to a text with a delay, two waits and four transitions.
use s3_hidbot.Common.{ℕ, ◌≡◌, ◌↔◌, refl, ◌∷◌, [], List, some, none, drop}
use s3_hidbot.HidSequence.{
  default_delay, wait, key_press, mouse_press, HidState, Plan, parse, checked_duration,
  parse_tokens, cut_token, parse_token, parse_number, apply_transition, parse_key, apply_key,
  parse_button, button_bit, apply_mouse, duration_from, next_roles,
}
use s3_hidbot.SequenceSpec.Plan.{IsSequence, parse_iff}

abbrev idle : HidState
idle = record { modifiers = 0; keycodes = 0 ∷ 0 ∷ 0 ∷ 0 ∷ 0 ∷ 0 ∷ []; mouse_buttons = 0 }

-- "d20;kp224;mpL;w7"
abbrev code : List ℕ
code =
    b'd' ∷ b'2' ∷ b'0' ∷ b';' ∷ b'k' ∷ b'p' ∷ b'2' ∷ b'2' ∷ b'4' ∷ b';' ∷ b'm' ∷ b'p' ∷ b'L' ∷ b';'
    ∷ b'w' ∷ b'7' ∷ []

abbrev plan : Plan
plan = record {
  operations =
      record { kind = default_delay; value = 20 }
      ∷ record { kind = key_press; value = 224 }
      ∷ record { kind = mouse_press; value = 1 }
      ∷ record { kind = wait; value = 7 }
      ∷ [];
  scheduled_duration_ms = 47;
  initial_state = idle;
  required_roles = 3;
}

code_parsed : parse code idle ≡ some plan
unfolding parse checked_duration parse_tokens cut_token parse_token parse_number drop
    apply_transition parse_key apply_key parse_button button_bit apply_mouse duration_from
    next_roles
code_parsed = refl

-- "w07" has a leading zero.
zero_refused : parse (b'w' ∷ b'0' ∷ b'7' ∷ []) idle ≡ none
unfolding parse checked_duration parse_tokens cut_token parse_token parse_number drop
zero_refused = refl

parse_iff_example : (parse code idle ≡ some plan) ↔ IsSequence code idle plan
parse_iff_example = parse_iff code idle plan
