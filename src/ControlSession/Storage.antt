-- ===== src/ControlSession/Storage.antt =====
-- The arrays of characters: their copies, their comparisons, and the random tokens.
use s3_hidbot.Common.{
  ℕ, ◌+◌, ◌-◌, ◌/◌, ◌%◌, Bool, true, false, ◌&&◌, ◌||◌, ◌==◌, ltb, leb, List, [], ◌∷◌, ◌++◌, length,
  set, take, drop, if◌then◌else◌,
}
use s3_hidbot.ControlSession.Types.{token_hex_length}

unfoldable pub same_bytes : List ℕ → List ℕ → Bool
same_bytes [] [] = true
same_bytes [] (_ ∷ _) = false
same_bytes (_ ∷ _) [] = false
same_bytes (x ∷ xs) (y ∷ ys) = x == y && same_bytes xs ys

-- `memcmp(left, right, count) == 0`.
abbrev pub same_memory : ℕ → List ℕ → List ℕ → Bool
same_memory count left right = same_bytes (take count left) (take count right)

-- `memcpy(destination, source, count)`.
abbrev pub copy_memory : ℕ → List ℕ → List ℕ → List ℕ
copy_memory count destination source = take count source ++ drop count destination

abbrev pub same_token : List ℕ → List ℕ → Bool
same_token cached value =
    length value == token_hex_length && same_memory token_hex_length cached value

abbrev pub copy_token : List ℕ → List ℕ → List ℕ
copy_token destination token =
    set (copy_memory token_hex_length destination token) token_hex_length 0

-- The new array; the stored length is `length request`.
abbrev pub copy_request : List ℕ → List ℕ → List ℕ
copy_request destination request =
    set (copy_memory (length request) destination request) (length request) 0

abbrev pub same_request : List ℕ → ℕ → List ℕ → Bool
same_request cached cached_length request =
    length request == cached_length && same_memory cached_length cached request

-- The loop of `is_lower_hex_token`.
unfoldable pub hex_digits : List ℕ → Bool
hex_digits [] = true
hex_digits (character ∷ value) =
    ((leb b'0' character && leb character b'9') || (leb b'a' character && leb character b'f'))
    && hex_digits value

abbrev pub is_lower_hex_token : List ℕ → Bool
is_lower_hex_token value = length value == token_hex_length && hex_digits value

-- `kHexDigits[value]`.
abbrev pub hex_digit : ℕ → ℕ
hex_digit value = if ltb value 10 then b'0' + value else b'a' + (value - 10)

-- The loop over the random bytes, on those that are left.
unfoldable pub hex_from : List ℕ → List ℕ
hex_from [] = []
hex_from (byte ∷ bytes) = hex_digit (byte / 16) ∷ hex_digit (byte % 16) ∷ hex_from bytes

-- The token with its final zero, from the 16 bytes that `random_fill` gives.
abbrev pub generate_token : List ℕ → List ℕ
generate_token random_bytes = hex_from random_bytes ++ 0 ∷ []
