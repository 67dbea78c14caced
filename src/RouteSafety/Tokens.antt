-- ===== src/RouteSafety/Tokens.antt =====
-- The tokens of conditional invalidations.
use s3_hidbot.Common.{
  ℕ, suc, ◌≡◌, ◌≢◌, true, false, refl, sym, subst, ◌∙◌, inl, inr, Bool-cases, Option, some, arith,
  ◌==◌, ◌||◌,
}
use s3_hidbot.HidRoute.{
  Route, next, no_conditional_token, conditional_publishing, allocate_rounds,
  allocate_conditional_token,
}

abbrev Found : Option (ℕ × ℕ) → Type 0
Found o =
    (token : ℕ) × (o ≡ some (token, next token))
    × (token ≢ no_conditional_token)
    × (token ≢ conditional_publishing)

one_round :
    (fuel counter : ℕ)
    → (counter == no_conditional_token || counter == conditional_publishing) ≡ false
    → Found (allocate_rounds (suc fuel) counter)
unfolding allocate_rounds
one_round fuel counter h = rw h (counter, refl, ground arith, ground arith)

skipped_round :
    (fuel counter : ℕ)
    → (counter == no_conditional_token || counter == conditional_publishing) ≡ true
    → allocate_rounds (suc fuel) counter ≡ allocate_rounds fuel (next counter)
unfolding allocate_rounds
skipped_round fuel counter h = rw h refl

third_round :
    (counter : ℕ)
    → (counter == no_conditional_token || counter == conditional_publishing) ≡ true
    → (next counter == no_conditional_token || next counter == conditional_publishing) ≡ true
    → (next (next counter) == no_conditional_token || next (next counter) == conditional_publishing)
      ≡ false
third_round counter h k = ground arith

rounds_find : (counter : ℕ) → Found (allocate_rounds 3 counter)
rounds_find counter =
    elim (Bool-cases (counter == no_conditional_token || counter == conditional_publishing)) [
      | inr h ↦ one_round 2 counter h
      | inl h ↦
          elim (Bool-cases
            (next counter == no_conditional_token || next counter == conditional_publishing)) [
              | inr k ↦ subst Found (sym (skipped_round 2 counter h)) (one_round 1 (next counter) k)
              | inl k ↦
                  subst Found (sym (skipped_round 2 counter h ∙ skipped_round 1 (next counter) k))
                    (one_round 0 (next (next counter)) (third_round counter h k))
            ]
    ]

-- The loop ends within the rounds that it is given: whatever the counter holds, a token is found, which
-- is neither of the two reserved values, and the new counter is behind it.
pub allocate_conditional_token_finds :
    (r : Route)
    → (token : ℕ) × (allocate_conditional_token r ≡ some (token, next token))
      × (token ≢ no_conditional_token)
      × (token ≢ conditional_publishing)
unfolding allocate_conditional_token
allocate_conditional_token_finds r = rounds_find r.next_conditional_token
