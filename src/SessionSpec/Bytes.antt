-- ===== src/SessionSpec/Bytes.antt =====
-- What the comparisons of the arrays say of what was copied into them.
use s3_hidbot.Common.{
  ℕ, zero, suc, ◌≤◌, ◌<◌, ◌≡◌, ◌≢◌, ◌↔◌, refl, ap, true, false, ◌&&◌, ◌==◌, List, [], ◌∷◌, ◌++◌,
  arith, length, set, take, drop, replicate, length-replicate, set-append, take-append,
}
use s3_hidbot.ControlSession.{same_bytes, copy_request, copy_token, same_request, same_token}

pub same_bytes_iff : (xs ys : List ℕ) → (same_bytes xs ys ≡ true) ↔ (xs ≡ ys)
unfolding same_bytes
same_bytes_iff [] [] = (λ e. refl, λ e. refl)
same_bytes_iff [] (y ∷ ys) = (λ e. cc e, λ e. cc e)
same_bytes_iff (x ∷ xs) [] = (λ e. cc e, λ e. cc e)
same_bytes_iff (x ∷ xs) (y ∷ ys) = ground (arith, same_bytes_iff xs ys)

pub same_bytes_refl : (xs : List ℕ) → same_bytes xs xs ≡ true
same_bytes_refl xs = (same_bytes_iff xs xs).1 refl

pub same_bytes_other : (xs ys : List ℕ) → xs ≢ ys → same_bytes xs ys ≡ false
same_bytes_other xs ys h = ground (arith, same_bytes_iff xs ys)

pub take_all : (xs : List ℕ) → take (length xs) xs ≡ xs
unfolding take
take_all [] = refl
take_all (x ∷ xs) = ap (◌∷◌ x) (take_all xs)

drop_some : (n : ℕ) (xs : List ℕ) → n < length xs → (y : ℕ) × (ys : List ℕ) × (drop n xs ≡ y ∷ ys)
unfolding drop
drop_some n [] h = absurd (omega arith)
drop_some zero (x ∷ xs) h = (x, xs, refl)
drop_some (suc n) (x ∷ xs) h = drop_some n xs (omega arith)

-- A string with its final zero in an array that has room for both.
ended_take :
    (text array : List ℕ)
    → length text < length array
    → take (length text) (set (text ++ drop (length text) array) (length text) 0) ≡ text
ended_take text array h =
    let (y, ys, e) = drop_some (length text) array h in
    rw (e, set-append text ys y 0) (take-append text (0 ∷ ys))

length-take : (n : ℕ) (xs : List ℕ) → n ≤ length xs → length (take n xs) ≡ n
unfolding take
length-take zero xs h = refl
length-take (suc n) [] h = absurd (omega arith)
length-take (suc n) (x ∷ xs) h = ap suc (length-take n xs (omega arith))

same_prefix :
    (xs ys : List ℕ)
    → (length ys == length xs && same_bytes xs (take (length xs) ys)) ≡ same_bytes xs ys
unfolding same_bytes take
same_prefix [] [] = refl
same_prefix [] (y ∷ ys) = ground arith
same_prefix (x ∷ xs) [] = ground arith
same_prefix (x ∷ xs) (y ∷ ys) = ground (arith, same_prefix xs ys)

stored_request :
    (request : List ℕ)
    → length request ≤ 504
    → take (length request) (copy_request (replicate 505 0) request) ≡ request
stored_request request h =
    rw (take_all request)
      (ended_take request (replicate 505 0) (rw (length-replicate {A = ℕ} 505 0) (omega arith)))

-- A stored request is compared with a request as the texts are.
pub same_request-copy_request :
    (request request' : List ℕ)
    → length request ≤ 504
    → same_request (copy_request (replicate 505 0) request) (length request) request'
      ≡ same_bytes request request'
same_request-copy_request request request' h =
    rw (stored_request request h) (same_prefix request request')

-- A stored token is compared with a token as the texts are.
pub same_token-copy_token :
    (array token token' : List ℕ)
    → length array ≡ 33
    → length token ≡ 32
    → same_token (copy_token array token) token' ≡ same_bytes token token'
same_token-copy_token array token token' a t =
    let all : take 32 token ≡ token = rw (← t) (take_all token) in
    let stored : take 32 (copy_token array token) ≡ token =
      rw (all, ← t) (ended_take token array (omega arith)) in
    rw stored (rw (← t) (same_prefix token token'))
