-- ===== src/SequenceSpec/Text.antt =====
-- The text of a list of operations, and how it is cut at its delimiters.
use s3_hidbot.Common.{
  ℕ, ◌≡◌, ◌≢◌, refl, ap, sym, ◌⊎◌, false, Bool-cases, inl, inr, List, [], ◌∷◌, ◌++◌, some, none,
  arith, ◌==◌, ==_iff,
}
use s3_hidbot.HidSequence.{
  OperationKind, default_delay, wait, key_press, key_release, mouse_press, mouse_release, Operation,
  cut_token, is_empty,
}
use s3_hidbot.SequenceSpec.Decimal.{show_number}
use s3_hidbot.SequenceSpec.Tokens.{show_token, button_letter}

abbrev pub show_operation : Operation → List ℕ
show_operation operation = show_token operation.kind operation.value

-- What follows the first operation.
unfoldable pub print_rest : List Operation → List ℕ
print_rest [] = []
print_rest (operation ∷ operations) = b';' ∷ (show_operation operation ++ print_rest operations)

-- The operations of a sequence, one behind the other, with a delimiter between two.
unfoldable pub print : List Operation → List ℕ
print [] = []
print (operation ∷ operations) = show_operation operation ++ print_rest operations

abbrev pub IsUncut : List ℕ → Type 0
IsUncut [] = Unit {0}
IsUncut (c ∷ s) = (c ≢ b';') × IsUncut s

pub cut_token-IsUncut : (token : List ℕ) → IsUncut token → cut_token token ≡ (token, none)
unfolding cut_token
cut_token-IsUncut [] u = refl
cut_token-IsUncut (c ∷ s) (h, u) = ground (arith, cut_token-IsUncut s u)

pub cut_token-append :
    (token text : List ℕ) → IsUncut token → cut_token (token ++ b';' ∷ text) ≡ (token, some text)
unfolding cut_token
cut_token-append [] text u = refl
cut_token-append (c ∷ s) text (h, u) = ground (arith, cut_token-append s text u)

-- The token and the rest spell the text.
pub cut_token_spells :
    (text : List ℕ)
    → (((cut_token text).1 ≡ none) × ((cut_token text).0 ≡ text))
      ⊎ ((rest : List ℕ) × ((cut_token text).1 ≡ some rest)
          × ((cut_token text).0 ++ b';' ∷ rest ≡ text))
unfolding cut_token
cut_token_spells [] = inl (refl, refl)
cut_token_spells (c ∷ s) = elim (Bool-cases (c == b';')) [
  | inl e ↦ inr (s, rw e refl, rw e (ap (λ (x : ℕ). x ∷ s) (sym ((==_iff c b';').0 e))))
  | inr e ↦ elim (cut_token_spells s) [
    | inl (n, t) ↦ inl (rw e n, rw e (ap (◌∷◌ c) t))
    | inr (rest, n, t) ↦ inr (rest, rw e n, rw e (ap (◌∷◌ c) t))
  ]
]

show_number-IsUncut : (n : ℕ) → IsUncut (show_number n)
unfolding show_number
show_number-IsUncut n = ground arith

pub show_token-IsUncut : (kind : OperationKind) (value : ℕ) → IsUncut (show_token kind value)
unfolding show_token button_letter
show_token-IsUncut default_delay n = (omega arith, show_number-IsUncut n)
show_token-IsUncut wait n = (omega arith, show_number-IsUncut n)
show_token-IsUncut key_press n = (omega arith, (omega arith, show_number-IsUncut n))
show_token-IsUncut key_release n = (omega arith, (omega arith, show_number-IsUncut n))
show_token-IsUncut mouse_press n = ground arith
show_token-IsUncut mouse_release n = ground arith

pub show_token-is_empty :
    (kind : OperationKind) (value : ℕ) → is_empty (show_token kind value) ≡ false
unfolding show_token
show_token-is_empty default_delay n = refl
show_token-is_empty wait n = refl
show_token-is_empty key_press n = refl
show_token-is_empty key_release n = refl
show_token-is_empty mouse_press n = refl
show_token-is_empty mouse_release n = refl
