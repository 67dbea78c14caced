-- ===== src/SequenceSpec/Decimal.antt =====
-- The numbers of a token, written without leading zeros.
use s3_hidbot.Common.{
  ℕ, ◌+◌, ◌-◌, ◌*◌, ◌/◌, ◌%◌, ◌≤◌, ◌<◌, ◌≡◌, ◌≢◌, List, [], ◌∷◌, some, arith, ltb, if◌then◌else◌,
}
use s3_hidbot.HidSequence.{number_from, parse_number}

abbrev digit : ℕ → ℕ
digit n = b'0' + n % 10

-- The decimal digits of a number below ten thousand.
unfoldable pub show_number : ℕ → List ℕ
show_number n =
    if ltb n 10
    then digit n ∷ []
    else if ltb n 100
    then digit (n / 10) ∷ digit n ∷ []
    else if ltb n 1000
    then digit (n / 100) ∷ digit (n / 10) ∷ digit n ∷ []
    else digit (n / 1000) ∷ digit (n / 100) ∷ digit (n / 10) ∷ digit n ∷ []

pub parse_number-show_number :
    (n maximum : ℕ) → n ≤ maximum → maximum < 10000 → parse_number (show_number n) maximum ≡ some n
unfolding parse_number show_number
parse_number-show_number n maximum h k = ground arith

-- What a digit that is read says of itself.
number_from-digit :
    (maximum parsed c n : ℕ) (text : List ℕ)
    → number_from maximum parsed (c ∷ text) ≡ some n
    → (b'0' ≤ c) × (c ≤ b'9') × (number_from maximum (parsed * 10 + (c - b'0')) text ≡ some n)
unfolding number_from
number_from-digit maximum parsed c n text h = ground arith

number_from-end : (maximum parsed n : ℕ) → number_from maximum parsed [] ≡ some n → n ≡ parsed
unfolding number_from
number_from-end maximum parsed n h = ground arith

show-four :
    (a b c d n : ℕ)
    → b'0' < a
    → a ≤ b'9'
    → (b'0' ≤ b) × (b ≤ b'9')
    → (b'0' ≤ c) × (c ≤ b'9')
    → (b'0' ≤ d) × (d ≤ b'9')
    → n ≡ (((a - b'0') * 10 + (b - b'0')) * 10 + (c - b'0')) * 10 + (d - b'0')
    → show_number n ≡ a ∷ b ∷ c ∷ d ∷ []
unfolding show_number
show-four a b c d n h k l m q e = ground arith

four-digits :
    (a b c d maximum n : ℕ)
    → b'0' < a
    → number_from maximum 0 (a ∷ b ∷ c ∷ d ∷ []) ≡ some n
    → show_number n ≡ a ∷ b ∷ c ∷ d ∷ []
four-digits a b c d maximum n h e =
    let (p, q, f) = number_from-digit maximum 0 a n (b ∷ c ∷ d ∷ []) e in
    let (p', q', g) = number_from-digit maximum (0 * 10 + (a - b'0')) b n (c ∷ d ∷ []) f in
    let (u, v, i) = number_from-digit maximum _ c n (d ∷ []) g in
    let (u', v', j) = number_from-digit maximum _ d n [] i in
    show-four a b c d n h q (p', q') (u, v) (u', v') (omega (arith, number_from-end maximum _ n j))

leading :
    (a b c d maximum n : ℕ)
    → parse_number (a ∷ b ∷ c ∷ d ∷ []) maximum ≡ some n
    → (a ≢ b'0') × (number_from maximum 0 (a ∷ b ∷ c ∷ d ∷ []) ≡ some n)
unfolding parse_number
leading a b c d maximum n h = ground arith

number_from-le :
    (maximum parsed n : ℕ) (text : List ℕ)
    → parsed ≤ maximum
    → number_from maximum parsed text ≡ some n
    → n ≤ maximum
unfolding number_from
number_from-le maximum parsed n [] h e = ground arith
number_from-le maximum parsed n (c ∷ text) h e =
    ground (arith, number_from-le maximum (parsed * 10 + (c - b'0')) n text)

parse_number-le : (text : List ℕ) (maximum n : ℕ) → parse_number text maximum ≡ some n → n ≤ maximum
unfolding parse_number
parse_number-le text maximum n h = ground (arith, number_from-le maximum 0 n text)

-- A number that is read is written back as it stood.
pub parse_number-shows :
    (text : List ℕ) (maximum n : ℕ)
    → parse_number text maximum ≡ some n
    → (show_number n ≡ text) × (n ≤ maximum)
unfolding parse_number show_number
parse_number-shows [] maximum n h = ground arith
parse_number-shows (a ∷ []) maximum n h = ground arith
parse_number-shows (a ∷ b ∷ []) maximum n h = ground arith
parse_number-shows (a ∷ b ∷ c ∷ []) maximum n h = ground arith
parse_number-shows (a ∷ b ∷ c ∷ d ∷ []) maximum n h =
    let (z, e) = leading a b c d maximum n h in
    let (p, q, f) = number_from-digit maximum 0 a n (b ∷ c ∷ d ∷ []) e in
    (
      four-digits a b c d maximum n (omega arith) e,
      parse_number-le (a ∷ b ∷ c ∷ d ∷ []) maximum n h,
    )
parse_number-shows (a ∷ b ∷ c ∷ d ∷ e ∷ r) maximum n h = ground arith
