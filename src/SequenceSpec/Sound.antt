-- ===== src/SequenceSpec/Sound.antt =====
-- What a text that is read says of its plan.
use s3_hidbot.Common.{
  ℕ, zero, suc, ◌<◌, ◌≡◌, ◌≢◌, ap, sym, subst, ◌∙◌, ◌⊎◌, true, false, Bool-cases, Option-cases, inl,
  inr, List, [], ◌∷◌, ◌++◌, append-nil, some, none, arith, length,
}
use s3_hidbot.HidSequence.{
  Operation, HidState, Draft, with_operation, cut_token, is_empty, parse_token, apply_transition,
  parse_tokens,
}
use s3_hidbot.SequenceSpec.Tokens.{parse_token-Shows}
use s3_hidbot.SequenceSpec.Text.{show_operation, print_rest, print, cut_token_spells}
use s3_hidbot.SequenceSpec.Tokens.{Shows}
use s3_hidbot.SequenceSpec.Grammar.{IsPossible, drafted, last_token, more_tokens, added_later}

-- What a successful round says.
record Round (slots : ℕ) (text : List ℕ) (state : HidState) (draft result : Draft)
    (operation : Operation) : Type 0 where
  token : parse_token (cut_token text).0 ≡ some operation
  possible : (apply_transition operation state).1 ≡ true
  goes_on :
      (((cut_token text).1 ≡ none) × (result ≡ with_operation draft operation))
      ⊎ ((rest : List ℕ) × ((cut_token text).1 ≡ some rest)
          × (parse_tokens slots rest
                (apply_transition operation state).0
                (with_operation draft operation)
              ≡ some result))

empty_token :
    (slots : ℕ) (text : List ℕ) (state : HidState) (draft result : Draft)
    → is_empty (cut_token text).0 ≡ true
    → parse_tokens (suc slots) text state draft ≢ some result
unfolding parse_tokens
empty_token slots text state draft result e = rw e (λ h. ground arith)

bad_token :
    (slots : ℕ) (text : List ℕ) (state : HidState) (draft result : Draft)
    → is_empty (cut_token text).0 ≡ false
    → parse_token (cut_token text).0 ≡ none
    → parse_tokens (suc slots) text state draft ≢ some result
unfolding parse_tokens
bad_token slots text state draft result e p = rw (e, p) (λ h. ground arith)

impossible_token :
    (slots : ℕ) (text : List ℕ) (state : HidState) (draft result : Draft) (operation : Operation)
    → is_empty (cut_token text).0 ≡ false
    → parse_token (cut_token text).0 ≡ some operation
    → (apply_transition operation state).1 ≡ false
    → parse_tokens (suc slots) text state draft ≢ some result
unfolding parse_tokens
impossible_token slots text state draft result operation e p a = rw (e, p, a) (λ h. ground arith)

trailing_delimiter :
    (slots : ℕ) (text rest : List ℕ) (state : HidState) (draft result : Draft)
    (operation : Operation)
    → (cut_token text).1 ≡ some rest
    → is_empty (cut_token text).0 ≡ false
    → parse_token (cut_token text).0 ≡ some operation
    → (apply_transition operation state).1 ≡ true
    → is_empty rest ≡ true
    → parse_tokens (suc slots) text state draft ≢ some result
unfolding parse_tokens
trailing_delimiter slots text rest state draft result operation n e p a r =
    rw (e, p, a, n, r) (λ h. ground arith)

round_goes_on :
    (slots : ℕ) (text : List ℕ) (state : HidState) (draft result : Draft) (operation : Operation)
    → parse_tokens (suc slots) text state draft ≡ some result
    → is_empty (cut_token text).0 ≡ false
    → parse_token (cut_token text).0 ≡ some operation
    → (apply_transition operation state).1 ≡ true
    → (((cut_token text).1 ≡ none) × (result ≡ with_operation draft operation))
      ⊎ ((rest : List ℕ) × ((cut_token text).1 ≡ some rest)
          × (parse_tokens slots rest
                (apply_transition operation state).0
                (with_operation draft operation)
              ≡ some result))
round_goes_on slots text state draft result operation h e p a =
    elim (Option-cases (cut_token text).1) [
      | inl n ↦ inl (n, cc (last_token slots text state draft operation n e p a, h))
      | inr (rest, n) ↦ elim (Bool-cases (is_empty rest)) [
        | inl r ↦
            elim (trailing_delimiter slots text rest state draft result operation n e p a r h) [ ]
        | inr r ↦
            inr (rest, n, sym (more_tokens slots text rest state draft operation n e p a r) ∙ h)
      ]
    ]

first_token :
    (slots : ℕ) (text : List ℕ) (state : HidState) (draft result : Draft)
    → parse_tokens (suc slots) text state draft ≡ some result
    → (operation : Operation) × Round slots text state draft result operation
first_token slots text state draft result h = elim (Bool-cases (is_empty (cut_token text).0)) [
  | inl e ↦ elim (empty_token slots text state draft result e h) [ ]
  | inr e ↦ elim (Option-cases (parse_token (cut_token text).0)) [
    | inl p ↦ elim (bad_token slots text state draft result e p h) [ ]
    | inr (operation, p) ↦ elim (Bool-cases (apply_transition operation state).1) [
      | inr a ↦ elim (impossible_token slots text state draft result operation e p a h) [ ]
      | inl a ↦ (
        operation,
        record {
          token = p;
          possible = a;
          goes_on = round_goes_on slots text state draft result operation h e p a;
        },
      )
    ]
  ]
]

-- What a text that is read is made of.
pub record Reads (slots : ℕ) (text : List ℕ) (state : HidState) (draft result : Draft)
    : Type 0 where
  pub first : Operation
  pub rest : List Operation
  pub spelled : print (first ∷ rest) ≡ text
  pub bounded : length rest < slots
  pub possible : IsPossible (first ∷ rest) state
  pub gathered : result ≡ drafted draft (first ∷ rest)

no_slots :
    (text : List ℕ) (state : HidState) (draft result : Draft)
    → parse_tokens zero text state draft ≢ some result
unfolding parse_tokens
no_slots text state draft result h = cc h

-- The token of the text, if there is no delimiter, or one with text behind it.
spells_last : (text : List ℕ) → (cut_token text).1 ≡ none → (cut_token text).0 ≡ text
spells_last text n = elim (cut_token_spells text) [ inl (m, t) ↦ t | inr (rest, m, t) ↦ cc (n, m) ]

same_rest : (a b : List ℕ) → some a ≡ some b → a ≡ b
same_rest a b h = cc h

spells_more :
    (text rest : List ℕ) → (cut_token text).1 ≡ some rest → (cut_token text).0 ++ b';' ∷ rest ≡ text
spells_more text rest n = elim (cut_token_spells text) [
  | inl (m, t) ↦ cc (n, m)
  | inr (rest', m, t) ↦
      subst (λ (r : List ℕ). (cut_token text).0 ++ b';' ∷ r ≡ text)
        (same_rest rest' rest (sym m ∙ n)) t
]

last-Reads :
    (slots : ℕ) (text : List ℕ) (state : HidState) (draft result : Draft) (operation : Operation)
    → (apply_transition operation state).1 ≡ true
    → Shows operation (cut_token text).0
    → (cut_token text).1 ≡ none
    → result ≡ with_operation draft operation
    → Reads (suc slots) text state draft result
unfolding print print_rest
last-Reads slots text state draft result operation a s n e = record {
  first = operation;
  rest = [];
  spelled = append-nil (show_operation operation) ∙ s.0 ∙ spells_last text n;
  bounded = omega arith;
  possible = (s.1, a, tt);
  gathered = e;
}

more-Reads :
    (slots : ℕ) (text rest : List ℕ) (state : HidState) (draft result : Draft)
    (operation : Operation)
    → (apply_transition operation state).1 ≡ true
    → Shows operation (cut_token text).0
    → (cut_token text).1 ≡ some rest
    → Reads slots rest (apply_transition operation state).0 (with_operation draft operation) result
    → Reads (suc slots) text state draft result
unfolding print print_rest
more-Reads slots text rest state draft result operation a s n r = record {
  first = operation;
  rest = r.first ∷ r.rest;
  spelled =
      ap (λ (t : List ℕ). t ++ b';' ∷ print (r.first ∷ r.rest)) s.0
      ∙ ap (λ (t : List ℕ). (cut_token text).0 ++ b';' ∷ t) r.spelled
      ∙ spells_more text rest n;
  bounded = omega (arith, r.bounded);
  possible = (s.1, a, r.possible);
  gathered = r.gathered ∙ added_later draft operation (r.first ∷ r.rest);
}

pub parse_tokens-Reads :
    (slots : ℕ) (text : List ℕ) (state : HidState) (draft result : Draft)
    → parse_tokens slots text state draft ≡ some result
    → Reads slots text state draft result
parse_tokens-Reads zero text state draft result h = elim (no_slots text state draft result h) [ ]
parse_tokens-Reads (suc slots) text state draft result h =
    let (operation, r) = first_token slots text state draft result h in
    let s = parse_token-Shows (cut_token text).0 operation r.token in
    let state' = (apply_transition operation state).0 in
    elim r.goes_on [
      | inl (n, e) ↦ last-Reads slots text state draft result operation r.possible s n e
      | inr (rest, n, e) ↦
          more-Reads slots text rest state draft result operation r.possible s n
            (parse_tokens-Reads slots rest state' (with_operation draft operation) result e)
    ]
