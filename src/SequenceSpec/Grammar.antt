-- ===== src/SequenceSpec/Grammar.antt =====
-- A text is a sequence exactly when it is the print of a list of possible operations.
use s3_hidbot.Common.{
  ℕ, zero, suc, ◌<◌, ◌≡◌, refl, ap, ◌∙◌, true, false, List, [], ◌∷◌, ◌++◌, append_assoc, append-nil,
  some, none, arith, length,
}
use s3_hidbot.HidSequence.{
  Operation, HidState, Draft, with_operation, next_roles, cut_token, is_empty, parse_token,
  apply_transition, parse_tokens,
}
use s3_hidbot.SequenceSpec.Tokens.{IsToken, parse_token-show_token}
use s3_hidbot.SequenceSpec.Text.{
  show_operation, print_rest, print, cut_token-IsUncut, cut_token-append, show_token-IsUncut,
  show_token-is_empty,
}

-- The operations can be done one after the other from this state.
abbrev pub IsPossible : List Operation → HidState → Type 0
IsPossible [] state = Unit {0}
IsPossible (operation ∷ operations) state =
    IsToken operation.kind operation.value
    × ((apply_transition operation state).1 ≡ true)
    × IsPossible operations (apply_transition operation state).0

abbrev pub roles_from : List Operation → ℕ → ℕ
roles_from [] roles = roles
roles_from (operation ∷ operations) roles = roles_from operations (next_roles operation.kind roles)

-- The draft with all the operations added.
abbrev pub drafted : Draft → List Operation → Draft
drafted draft operations = record {
  operations = draft.operations ++ operations;
  required_roles = roles_from operations draft.required_roles;
}

pub last_token :
    (slots : ℕ) (text : List ℕ) (state : HidState) (draft : Draft) (operation : Operation)
    → (cut_token text).1 ≡ none
    → is_empty (cut_token text).0 ≡ false
    → parse_token (cut_token text).0 ≡ some operation
    → (apply_transition operation state).1 ≡ true
    → parse_tokens (suc slots) text state draft ≡ some (with_operation draft operation)
unfolding parse_tokens
last_token slots text state draft operation n e p a = rw (e, p, a, n) refl

pub more_tokens :
    (slots : ℕ) (text rest : List ℕ) (state : HidState) (draft : Draft) (operation : Operation)
    → (cut_token text).1 ≡ some rest
    → is_empty (cut_token text).0 ≡ false
    → parse_token (cut_token text).0 ≡ some operation
    → (apply_transition operation state).1 ≡ true
    → is_empty rest ≡ false
    → parse_tokens (suc slots) text state draft
      ≡ parse_tokens slots rest
          (apply_transition operation state).0
          (with_operation draft operation)
unfolding parse_tokens
more_tokens slots text rest state draft operation n e p a r = rw (e, p, a, n, r) refl

append-is_empty : (xs ys : List ℕ) → is_empty xs ≡ false → is_empty (xs ++ ys) ≡ false
append-is_empty [] ys h = ground arith
append-is_empty (x ∷ xs) ys h = refl

pub print-is_empty :
    (operation : Operation) (operations : List Operation)
    → is_empty (print (operation ∷ operations)) ≡ false
unfolding print
print-is_empty operation operations =
    append-is_empty (show_operation operation) (print_rest operations)
      (show_token-is_empty operation.kind operation.value)

pub added_later :
    (draft : Draft) (operation : Operation) (operations : List Operation)
    → drafted (with_operation draft operation) operations ≡ drafted draft (operation ∷ operations)
added_later draft operation operations =
    ap
      (λ (l : List Operation). record {
        operations = l;
        required_roles = roles_from operations (next_roles operation.kind draft.required_roles);
      })
      (append_assoc draft.operations (operation ∷ []) operations)

-- A printed list of possible operations is read as this list.
pub parse_tokens-print :
    (operations : List Operation) (operation : Operation) (slots : ℕ) (state : HidState)
    (draft : Draft)
    → length operations < slots
    → IsPossible (operation ∷ operations) state
    → parse_tokens slots (print (operation ∷ operations)) state draft
      ≡ some (drafted draft (operation ∷ operations))
unfolding print print_rest
parse_tokens-print operations operation zero state draft l p = absurd (omega arith)
parse_tokens-print [] operation (suc slots) state draft l (v, a, p) =
    let c =
      cut_token-IsUncut (show_operation operation)
        (show_token-IsUncut operation.kind operation.value) in
    rw (append-nil (show_operation operation)) (
      last_token slots (show_operation operation) state draft operation (rw c refl)
        (rw c (show_token-is_empty operation.kind operation.value))
        (rw c (parse_token-show_token operation.kind operation.value v)) a)
parse_tokens-print (next ∷ operations) operation (suc slots) state draft l (v, a, p) =
    let rest = print (next ∷ operations) in
    let c =
      cut_token-append (show_operation operation) rest
        (show_token-IsUncut operation.kind operation.value) in
    let state' = (apply_transition operation state).0 in
    more_tokens slots (show_operation operation ++ b';' ∷ rest) rest state draft operation
      (rw c refl) (rw c (show_token-is_empty operation.kind operation.value))
      (rw c (parse_token-show_token operation.kind operation.value v)) a
      (print-is_empty next operations)
    ∙ parse_tokens-print operations next slots state' (with_operation draft operation) (omega arith)
        p
    ∙ ap some (added_later draft operation (next ∷ operations))
