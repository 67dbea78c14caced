-- ===== src/SequenceSpec/Tokens.antt =====
-- The tokens that stand for operations.
use s3_hidbot.Common.{
  ℕ, ◌≤◌, ◌≡◌, ◌≢◌, refl, ap, ◌∙◌, sym, subst, ◌⊎◌, inl, inr, List, [], ◌∷◌, some, none,
  Option-cases, arith, ◌==◌, length, drop, if◌then◌else◌,
}
use s3_hidbot.HidSequence.{
  OperationKind, default_delay, wait, key_press, key_release, mouse_press, mouse_release, Operation,
  parse_number, button_bit, numbered, parse_key, parse_button, parse_token,
}
use s3_hidbot.SequenceSpec.Decimal.{show_number, parse_number-show_number, parse_number-shows}

-- The letter of a button.
unfoldable pub button_letter : ℕ → ℕ
button_letter bit =
    if bit == 1
    then b'L'
    else if bit == 2
    then b'R'
    else if bit == 4
    then b'M'
    else if bit == 8
    then b'B'
    else b'F'

-- The text of an operation.
unfoldable pub show_token : OperationKind → ℕ → List ℕ
show_token default_delay value = b'd' ∷ show_number value
show_token wait value = b'w' ∷ show_number value
show_token key_press value = b'k' ∷ b'p' ∷ show_number value
show_token key_release value = b'k' ∷ b'r' ∷ show_number value
show_token mouse_press value = b'm' ∷ b'p' ∷ button_letter value ∷ []
show_token mouse_release value = b'm' ∷ b'r' ∷ button_letter value ∷ []

abbrev pub IsButton : ℕ → Type 0
IsButton value = (value ≡ 1) ⊎ (value ≡ 2) ⊎ (value ≡ 4) ⊎ (value ≡ 8) ⊎ (value ≡ 16)

-- The usages of keys, and those of modifiers.
abbrev pub IsUsage : ℕ → Type 0
IsUsage value =
    ((4 ≤ value) × (value ≤ 164))
    ⊎ ((176 ≤ value) × (value ≤ 221))
    ⊎ ((224 ≤ value) × (value ≤ 231))

-- What an operation may hold.
abbrev pub IsToken : OperationKind → ℕ → Type 0
IsToken default_delay value = value ≤ 1000
IsToken wait value = value ≤ 2000
IsToken key_press value = IsUsage value
IsToken key_release value = IsUsage value
IsToken mouse_press value = IsButton value
IsToken mouse_release value = IsButton value

show_number-length : (n : ℕ) → (1 ≤ length (show_number n)) × (length (show_number n) ≤ 4)
unfolding show_number
show_number-length n = ground arith

usage_length : (n : ℕ) → n ≤ 231 → length (show_number n) ≤ 3
unfolding show_number
usage_length n h = ground arith

-- The text of an operation is read as this operation.
pub parse_token-show_token :
    (kind : OperationKind) (value : ℕ)
    → IsToken kind value
    → parse_token (show_token kind value) ≡ some (record { kind = kind; value = value })
unfolding parse_token show_token drop parse_key parse_button button_bit button_letter
parse_token-show_token default_delay n h = rw (parse_number-show_number n 1000 h (omega arith)) refl
parse_token-show_token wait n h = rw (parse_number-show_number n 2000 h (omega arith)) refl
parse_token-show_token key_press n h =
    ground (arith, parse_number-show_number n 231, show_number-length n, usage_length n)
parse_token-show_token key_release n h =
    ground (arith, parse_number-show_number n 231, show_number-length n, usage_length n)
parse_token-show_token mouse_press n h = ground arith
parse_token-show_token mouse_release n h = ground arith

-- A token that is read is the text of the operation that it gives.
abbrev pub Shows : Operation → List ℕ → Type 0
Shows operation token =
    (show_token operation.kind operation.value ≡ token) × IsToken operation.kind operation.value

not_numbered : (kind : OperationKind) (operation : Operation) → numbered kind none ≢ some operation
not_numbered kind operation h = cc h

numbered-some :
    (kind : OperationKind) (value : ℕ) (operation : Operation)
    → numbered kind (some value) ≡ some operation
    → record { kind = kind; value = value } ≡ operation
numbered-some kind value operation h = cc h

numbered-Shows :
    (kind : OperationKind) (letter maximum : ℕ) (text : List ℕ) (operation : Operation)
    → ((value : ℕ) → (show_token kind value ≡ letter ∷ show_number value))
    → ((value : ℕ) → value ≤ maximum → IsToken kind value)
    → numbered kind (parse_number text maximum) ≡ some operation
    → Shows operation (letter ∷ text)
numbered-Shows kind letter maximum text operation shows valid h =
    elim (Option-cases (parse_number text maximum)) [
      | inl e ↦ elim (not_numbered kind operation (rw e at h)) [ ]
      | inr (value, e) ↦
          let (written, bound) = parse_number-shows text maximum value e in
          let same = numbered-some kind value operation (rw e at h) in
          subst (λ o. Shows o (letter ∷ text)) same
            (shows value ∙ ap (◌∷◌ letter) written, valid value bound)
    ]

key-Shows :
    (letter : ℕ) (text : List ℕ) (operation : Operation)
    → (letter ≡ b'p') ⊎ (letter ≡ b'r')
    → parse_key (b'k' ∷ letter ∷ text) ≡ some operation
    → Shows operation (b'k' ∷ letter ∷ text)
unfolding parse_key show_token drop
key-Shows letter text operation l h = elim (Option-cases (parse_number text 231)) [
  | inl e ↦ ground arith
  | inr (value, e) ↦ ground (arith, parse_number-shows text 231 value e)
]

button-Shows :
    (letter button : ℕ) (operation : Operation)
    → (letter ≡ b'p') ⊎ (letter ≡ b'r')
    → parse_button (b'm' ∷ letter ∷ button ∷ []) ≡ some operation
    → Shows operation (b'm' ∷ letter ∷ button ∷ [])
unfolding parse_button show_token button_letter button_bit
button-Shows letter button operation l h = ground arith

abbrev PressOrRelease : ℕ → Type 0
PressOrRelease letter = (letter ≡ b'p') ⊎ (letter ≡ b'r')

-- A token of neither delay nor wait is one of a key or of a button.
split_token :
    (a letter : ℕ) (text : List ℕ) (operation : Operation)
    → a ≢ b'd'
    → a ≢ b'w'
    → parse_token (a ∷ letter ∷ text) ≡ some operation
    → ((a ≡ b'k') × PressOrRelease letter × (parse_key (a ∷ letter ∷ text) ≡ some operation))
      ⊎ ((a ≡ b'm')
          × PressOrRelease letter
          × (length text ≡ 1)
          × (parse_button (a ∷ letter ∷ text) ≡ some operation))
unfolding parse_token
split_token a letter text operation d w h = ground arith

delay_token :
    (text : List ℕ) (operation : Operation)
    → parse_token (b'd' ∷ text) ≡ some operation
    → Shows operation (b'd' ∷ text)
unfolding parse_token drop show_token
delay_token text operation h =
    numbered-Shows default_delay b'd' 1000 text operation (λ v. refl) (λ v k. k) h

wait_token :
    (text : List ℕ) (operation : Operation)
    → parse_token (b'w' ∷ text) ≡ some operation
    → Shows operation (b'w' ∷ text)
unfolding parse_token drop show_token
wait_token text operation h = numbered-Shows wait b'w' 2000 text operation (λ v. refl) (λ v k. k) h

one_button :
    (letter : ℕ) (text : List ℕ) (operation : Operation)
    → PressOrRelease letter
    → length text ≡ 1
    → parse_button (b'm' ∷ letter ∷ text) ≡ some operation
    → Shows operation (b'm' ∷ letter ∷ text)
one_button letter (button ∷ []) operation l n h = button-Shows letter button operation l h
one_button letter [] operation l n h = absurd (omega arith)
one_button letter (_ ∷ _ ∷ _) operation l n h = absurd (omega arith)

hid_token :
    (a letter : ℕ) (text : List ℕ) (operation : Operation)
    → a ≢ b'd'
    → a ≢ b'w'
    → parse_token (a ∷ letter ∷ text) ≡ some operation
    → Shows operation (a ∷ letter ∷ text)
hid_token a letter text operation d w h = elim (split_token a letter text operation d w h) [
  | inl (k, l, e) ↦
      subst (λ c. Shows operation (c ∷ letter ∷ text)) (sym k)
        (key-Shows letter text operation l
          (subst (λ c. parse_key (c ∷ letter ∷ text) ≡ some operation) k e))
  | inr (m, l, n, e) ↦
      subst (λ c. Shows operation (c ∷ letter ∷ text)) (sym m)
        (one_button letter text operation l n
          (subst (λ c. parse_button (c ∷ letter ∷ text) ≡ some operation) m e))
]

short_token :
    (a : ℕ) (operation : Operation) → a ≢ b'd' → a ≢ b'w' → parse_token (a ∷ []) ≢ some operation
unfolding parse_token
short_token a operation d w h = ground arith

no_token : (operation : Operation) → parse_token [] ≢ some operation
unfolding parse_token
no_token operation h = ground arith

letter_of : (a : ℕ) → (a ≡ b'd') ⊎ (a ≡ b'w') ⊎ ((a ≢ b'd') × (a ≢ b'w'))
letter_of a = ground arith

other_token :
    (a : ℕ) (text : List ℕ) (operation : Operation)
    → a ≢ b'd'
    → a ≢ b'w'
    → parse_token (a ∷ text) ≡ some operation
    → Shows operation (a ∷ text)
other_token a [] operation d w h = elim (short_token a operation d w h) [ ]
other_token a (letter ∷ text) operation d w h = hid_token a letter text operation d w h

-- A token that is read is the text of the operation that it gives, and the operation is a possible one.
pub parse_token-Shows :
    (token : List ℕ) (operation : Operation)
    → parse_token token ≡ some operation
    → Shows operation token
parse_token-Shows [] operation h = elim (no_token operation h) [ ]
parse_token-Shows (a ∷ text) operation h = elim (letter_of a) [
  | inl d ↦
      subst (λ c. Shows operation (c ∷ text)) (sym d)
        (delay_token text operation (subst (λ c. parse_token (c ∷ text) ≡ some operation) d h))
  | inr (inl w) ↦
      subst (λ c. Shows operation (c ∷ text)) (sym w)
        (wait_token text operation (subst (λ c. parse_token (c ∷ text) ≡ some operation) w h))
  | inr (inr (d, w)) ↦ other_token a text operation d w h
]
