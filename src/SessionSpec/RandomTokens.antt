-- ===== src/SessionSpec/RandomTokens.antt =====
-- The tokens that are made of random bytes.
use s3_hidbot.Common.{
  ℕ, zero, suc, ◌*◌, ◌/◌, ◌%◌, ◌<◌, ◌≡◌, ◌↔◌, refl, sym, ap, ap₂, ◌∙◌, true, ◌&&◌, ◌||◌, leb, List,
  [], ◌∷◌, arith, length, take, take-append, replicate,
}
use s3_hidbot.ControlSession.{
  hex_digit, hex_from, hex_digits, generate_token, is_lower_hex_token, same_bytes, same_token,
}
use s3_hidbot.SessionSpec.Bytes.{same_bytes_iff, take_all}

abbrev pub AllBytes : List ℕ → Type 0
AllBytes [] = Unit {0}
AllBytes (byte ∷ bytes) = (byte < 256) × AllBytes bytes

pub replicate-AllBytes : (count byte : ℕ) → byte < 256 → AllBytes (replicate count byte)
unfolding replicate
replicate-AllBytes zero byte h = tt
replicate-AllBytes (suc count) byte h = (h, replicate-AllBytes count byte h)

hex_digit-lower :
    (value : ℕ)
    → value < 16
    → ((leb b'0' (hex_digit value) && leb (hex_digit value) b'9')
        || (leb b'a' (hex_digit value) && leb (hex_digit value) b'f'))
      ≡ true
hex_digit-lower value h = ground arith

hex_digit-injective : (a b : ℕ) → a < 16 → b < 16 → hex_digit a ≡ hex_digit b → a ≡ b
hex_digit-injective a b h k e = ground arith

length-hex_from : (bytes : List ℕ) → length (hex_from bytes) ≡ 2 * length bytes
unfolding hex_from
length-hex_from [] = refl
length-hex_from (byte ∷ bytes) = omega (arith, length-hex_from bytes)

hex_digits-hex_from : (bytes : List ℕ) → AllBytes bytes → hex_digits (hex_from bytes) ≡ true
unfolding hex_from hex_digits
hex_digits-hex_from [] h = refl
hex_digits-hex_from (byte ∷ bytes) (b, h) =
    rw
      (
        hex_digit-lower (byte / 16) (omega arith),
        hex_digit-lower (byte % 16) (omega arith),
        hex_digits-hex_from bytes h,
      )
      refl

nibbles : (a b : ℕ) → a / 16 ≡ b / 16 → a % 16 ≡ b % 16 → a ≡ b
nibbles a b h k = omega arith

first_equal : (x y : ℕ) (xs ys : List ℕ) → x ∷ xs ≡ y ∷ ys → (x ≡ y) × (xs ≡ ys)
first_equal x y xs ys e = (cc e, cc e)

hex_from-injective :
    (xs ys : List ℕ) → AllBytes xs → AllBytes ys → hex_from xs ≡ hex_from ys → xs ≡ ys
unfolding hex_from
hex_from-injective [] [] a b e = refl
hex_from-injective [] (y ∷ ys) a b e = cc e
hex_from-injective (x ∷ xs) [] a b e = cc e
hex_from-injective (x ∷ xs) (y ∷ ys) (a, more) (b, more') e =
    let (high, e') = first_equal _ _ _ _ e in
    let (low, e'') = first_equal _ _ _ _ e' in
    let same =
      nibbles x y (hex_digit-injective (x / 16) (y / 16) (omega arith) (omega arith) high)
        (hex_digit-injective (x % 16) (y % 16) (omega arith) (omega arith) low) in
    ap₂ ◌∷◌ same (hex_from-injective xs ys more more' e'')

token_text : (bytes : List ℕ) → length bytes ≡ 16 → take 32 (generate_token bytes) ≡ hex_from bytes
token_text bytes h =
    let count : length (hex_from bytes) ≡ 32 = omega (arith, length-hex_from bytes) in
    rw (← count) (take-append (hex_from bytes) (0 ∷ []))

same_token-generate_token :
    (xs ys : List ℕ)
    → length xs ≡ 16
    → length ys ≡ 16
    → same_token (generate_token xs) (take 32 (generate_token ys))
      ≡ same_bytes (hex_from xs) (hex_from ys)
same_token-generate_token xs ys h k =
    let count : length (hex_from ys) ≡ 32 = omega (arith, length-hex_from ys) in
    let all : take 32 (hex_from ys) ≡ hex_from ys = rw (← count) (take_all (hex_from ys)) in
    rw (token_text xs h, token_text ys k, all, count) refl

-- A token of 16 random bytes is 32 lower-case hexadecimal digits, and two tokens are the same exactly
-- when their bytes are.
pub tokens_tell_bytes :
    (xs ys : List ℕ)
    → length xs ≡ 16
    → length ys ≡ 16
    → AllBytes xs
    → AllBytes ys
    → (is_lower_hex_token (take 32 (generate_token xs)) ≡ true)
      × ((same_token (generate_token xs) (take 32 (generate_token ys)) ≡ true) ↔ (xs ≡ ys))
tokens_tell_bytes xs ys h k a b =
    let count : length (hex_from xs) ≡ 32 = omega (arith, length-hex_from xs) in
    let compared = same_token-generate_token xs ys h k in
    (
      rw (token_text xs h, count, hex_digits-hex_from xs a) refl,
      (
        λ e.
            hex_from-injective xs ys a b
              ((same_bytes_iff (hex_from xs) (hex_from ys)).0 (sym compared ∙ e)),
        λ e. compared ∙ (same_bytes_iff (hex_from xs) (hex_from ys)).1 (ap hex_from e),
      ),
    )
