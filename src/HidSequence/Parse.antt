-- ===== src/HidSequence/Parse.antt =====
-- The whole text: its tokens, the simulated state, the roles and the scheduled duration. A wait of a
-- running plan is decided by `wait_decision`.
use s3_hidbot.Common.{
  ℕ, zero, suc, ◌+◌, ◌-◌, Bool, true, false, not, ◌||◌, ◌==◌, ltb, leb, List, [], ◌∷◌, ◌++◌, Option,
  some, none, length, if◌then◌else◌, bit_or,
}
use s3_hidbot.HidSequence.Types.{
  OperationKind, default_delay, wait, key_press, key_release, mouse_press, mouse_release, Operation,
  HidState, Plan, WaitDecision, maximum_code_bytes, maximum_tokens, maximum_scheduled_duration_ms,
  keyboard_input, mouse_input,
}
use s3_hidbot.HidSequence.Keys.{apply_transition}
use s3_hidbot.HidSequence.Tokens.{parse_token}

-- The bytes before the first `;`, and those behind it, if there is one.
unfoldable pub cut_token : List ℕ → List ℕ × Option (List ℕ)
cut_token [] = ([], none)
cut_token (byte ∷ text) =
    let (token, rest) = cut_token text in
    if byte == b';' then ([], some text) else (byte ∷ token, rest)

abbrev pub is_empty : List ℕ → Bool
is_empty [] = true
is_empty (_ ∷ _) = false

unfoldable pub next_roles : OperationKind → ℕ → ℕ
next_roles key_press roles = bit_or roles keyboard_input
next_roles key_release roles = bit_or roles keyboard_input
next_roles mouse_press roles = bit_or roles mouse_input
next_roles mouse_release roles = bit_or roles mouse_input
next_roles _ roles = roles

-- The operations and the roles of the candidate.
pub record Draft : Type 0 where
  pub operations : List Operation
  pub required_roles : ℕ

-- `candidate.operations[candidate.count++] = operation`.
abbrev pub with_operation : Draft → Operation → Draft
with_operation draft operation = record {
  operations = draft.operations ++ operation ∷ [];
  required_roles = next_roles operation.kind draft.required_roles;
}

-- The loop over the text that is left, not empty, with the slots left in the array.
unfoldable pub parse_tokens : ℕ → List ℕ → HidState → Draft → Option Draft
parse_tokens zero text simulated draft = none
parse_tokens (suc slots) text simulated draft =
    let (token, rest) = cut_token text in
    if is_empty token then none else elim (parse_token token) [
      | none ↦ none
      | some operation ↦
          let (next, possible) = apply_transition operation simulated in
          let added = with_operation draft operation in
          if not possible then none else elim rest [
            | none ↦ some added
            | some text' ↦ elim (is_empty text') [
              | true ↦ none
              | false ↦ parse_tokens slots text' next added
            ]
          ]
    ]

-- What the operation adds to the duration, and the default delay behind it.
abbrev pub delays : Operation → Bool → ℕ → ℕ × ℕ
delays operation last delay = elim operation.kind [
  | default_delay ↦ (0, operation.value)
  | wait ↦ (operation.value, delay)
  | key_press ↦ (if last then 0 else delay, delay)
  | key_release ↦ (if last then 0 else delay, delay)
  | mouse_press ↦ (if last then 0 else delay, delay)
  | mouse_release ↦ (if last then 0 else delay, delay)
]

abbrev pub is_last : List Operation → Bool
is_last [] = true
is_last (_ ∷ _) = false

-- The loop over the plan, from the default delay and the duration so far.
unfoldable pub duration_from : List Operation → ℕ → ℕ → Option ℕ
duration_from [] delay duration = some duration
duration_from (operation ∷ operations) delay duration =
    let (more, delay') = delays operation (is_last operations) delay in
    let rest = duration_from operations delay' (duration + more) in
    if ltb maximum_scheduled_duration_ms (duration + more) then none else rest

abbrev pub planned : HidState → Draft → Option ℕ → Option Plan
planned initial draft none = none
planned initial draft (some duration) = some (record {
  operations = draft.operations;
  scheduled_duration_ms = duration;
  initial_state = initial;
  required_roles = draft.required_roles;
})

unfoldable pub checked_duration : HidState → Option Draft → Option Plan
checked_duration initial none = none
checked_duration initial (some draft) = planned initial draft (duration_from draft.operations 0 0)

unfoldable pub parse : List ℕ → HidState → Option Plan
parse code initial =
    if is_empty code || ltb maximum_code_bytes (length code)
    then none
    else checked_duration initial
        (parse_tokens maximum_tokens code initial (record { operations = []; required_roles = 0 }))

abbrev min : ℕ → ℕ → ℕ
min a b = if ltb b a then b else a

unfoldable pub wait_decision : ℕ → ℕ → ℕ → WaitDecision
wait_decision now wait_deadline execution_deadline =
    if leb execution_deadline now
    then record { wait_complete = false; execution_expired = true; block_us = 0 }
    else if leb wait_deadline now
    then record { wait_complete = true; execution_expired = false; block_us = 0 }
    else record {
      wait_complete = false;
      execution_expired = false;
      block_us = min (wait_deadline - now) (execution_deadline - now);
    }
