-- ===== src/HidSequence/Tokens.antt =====
-- The numbers and the tokens of a sequence's text. A text is the list of its bytes.
use s3_hidbot.Common.{
  ℕ, ◌+◌, ◌-◌, ◌*◌, Bool, not, ◌&&◌, ◌||◌, ◌==◌, ltb, leb, List, [], ◌∷◌, Option, some, none,
  get_or, length, drop, if◌then◌else◌,
}
use s3_hidbot.HidSequence.Types.{
  OperationKind, default_delay, wait, key_press, key_release, mouse_press, mouse_release, Operation,
  maximum_default_delay_ms, maximum_wait_ms,
}
use s3_hidbot.HidSequence.Keys.{ordinary_usage, modifier_usage}

-- The loop over the digits, from the number so far.
unfoldable pub number_from : ℕ → ℕ → List ℕ → Option ℕ
number_from maximum parsed [] = some parsed
number_from maximum parsed (character ∷ text) =
    let next : ℕ = parsed * 10 + (character - b'0') in
    let rest = number_from maximum next text in
    if ltb character b'0' || ltb b'9' character
    then none
    else if ltb maximum next
    then none
    else rest

unfoldable pub parse_number : List ℕ → ℕ → Option ℕ
unfolding number_from
parse_number text maximum =
    if length text == 0 || ltb 4 (length text) || (ltb 1 (length text) && get_or text 0 0 == b'0')
    then none
    else number_from maximum 0 text

unfoldable pub button_bit : ℕ → ℕ
button_bit button =
    if button == b'L'
    then 1
    else if button == b'R'
    then 2
    else if button == b'M'
    then 4
    else if button == b'B'
    then 8
    else if button == b'F'
    then 16
    else 0

-- An operation of this kind with the number that was read, if one was.
abbrev pub numbered : OperationKind → Option ℕ → Option Operation
numbered kind none = none
numbered kind (some value) = some (record { kind = kind; value = value })

abbrev pub keyed : OperationKind → Option ℕ → Option Operation
keyed kind none = none
keyed kind (some value) =
    if not (ordinary_usage value) && not (modifier_usage value)
    then none
    else some (record { kind = kind; value = value })

-- `token.substr(0, 2) == "…"`.
abbrev pub starts : List ℕ → ℕ → ℕ → Bool
starts token first second =
    leb 2 (length token) && get_or token 0 0 == first && get_or token 1 0 == second

unfoldable pub parse_key : List ℕ → Option Operation
parse_key token =
    if ltb 5 (length token)
    then none
    else keyed (if get_or token 1 0 == b'p' then key_press else key_release)
        (parse_number (drop 2 token) 231)

unfoldable pub parse_button : List ℕ → Option Operation
parse_button token =
    let bit = button_bit (get_or token 2 0) in
    if bit == 0
    then none
    else some (record {
      kind = if get_or token 1 0 == b'p' then mouse_press else mouse_release;
      value = bit;
    })

-- A token is not empty here.
unfoldable pub parse_token : List ℕ → Option Operation
parse_token token =
    if get_or token 0 0 == b'd'
    then numbered default_delay (parse_number (drop 1 token) maximum_default_delay_ms)
    else if get_or token 0 0 == b'w'
    then numbered wait (parse_number (drop 1 token) maximum_wait_ms)
    else if leb 3 (length token) && (starts token b'k' b'p' || starts token b'k' b'r')
    then parse_key token
    else if length token == 3 && (starts token b'm' b'p' || starts token b'm' b'r')
    then parse_button token
    else none
