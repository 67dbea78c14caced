-- ===== src/HidRoute/Claims.antt =====
-- Exact invalidation claims: the writer and the gate are held across the caller's side effects.
use s3_hidbot.Common.{ℕ, Bool, true, false, not, ◌&&◌, ◌||◌, ◌==◌, some, none, if◌then◌else◌}
use s3_hidbot.HidRoute.Types.{
  no_route, Snapshot, Route, Claim, InvalidationClaimResult, claimed_exact, stale, pending,
  no_conditional_token, same_route, same_transition,
}
use s3_hidbot.HidRoute.Publication.{snapshot, try_enter_writer}
use s3_hidbot.HidRoute.Writer.{commit_none_locked, leave_writer_with_handoff}
use s3_hidbot.HidRoute.Invalidate.{
  same_epoch, publish_conditional_invalidation, cancel_conditional_invalidation,
}

-- The new members, the caller's token and claim, and the result.
pub record Claimed : Type 0 where
  pub route : Route
  pub token : ℕ
  pub claim : Claim
  pub result : InvalidationClaimResult

-- `(void)cancel_conditional_invalidation(generation, token)`.
abbrev cancelled : Route → ℕ → ℕ → Route
cancelled r generation token = (cancel_conditional_invalidation r generation token).0

-- The members as the writer reads them, against the expected epoch.
abbrev pub still_exact : Route → Snapshot → Bool
still_exact r expected =
    same_route r.desired expected.desired
    && same_route r.active expected.active
    && r.generation == expected.generation
    && same_transition r.transition expected.transition

-- The request is published: enter the writer, and check the epoch once more.
unfoldable pub claim_entered : Route → Snapshot → ℕ → Claim → Claimed
claim_entered r expected token claim = elim (try_enter_writer r) [
  | none ↦ record { route = r; token = token; claim = claim; result = pending }
  | some entered ↦
      if still_exact entered expected
      then record {
        route = entered;
        token = token;
        claim = record { owned = true; expected = expected; token = token };
        result = claimed_exact;
      }
      else record {
        route = leave_writer_with_handoff (cancelled entered expected.generation token);
        token = no_conditional_token;
        claim = claim;
        result = stale;
      }
]

unfoldable pub claim_published : Route × ℕ × Bool → Snapshot → Claim → Claimed
claim_published (r, token, done) expected claim =
    if done
    then claim_entered r expected token claim
    else record { route = r; token = token; claim = claim; result = stale }

unfoldable pub claim_invalidation_if_matches : Route → Snapshot → ℕ → Claim → Claimed
unfolding claim_published
claim_invalidation_if_matches r expected token claim =
    if claim.owned || not expected.coherent || same_route expected.active no_route
    then record { route = r; token = token; claim = claim; result = stale }
    else if (snapshot r).coherent && not (same_epoch (snapshot r) expected)
    then (if not (token == no_conditional_token)
        then record {
          route = cancelled r expected.generation token;
          token = no_conditional_token;
          claim = claim;
          result = stale;
        }
        else record { route = r; token = token; claim = claim; result = stale })
    else claim_published (publish_conditional_invalidation r expected.generation token) expected
        claim

-- The new members, the claim, and whether the route was retired.
unfoldable pub retire_invalidation_claim : Route → Claim → Route × Claim × Bool
retire_invalidation_claim r claim =
    if claim.owned
    then (let (after, changed) =
          commit_none_locked r claim.expected.active claim.expected.generation true in
        if changed
        then (
          cancelled after claim.expected.generation claim.token,
          record claim { token = no_conditional_token },
          true,
        )
        else (after, claim, false))
    else (r, claim, false)

unfoldable pub release_invalidation_claim : Route → Claim → Route × Claim
release_invalidation_claim r claim =
    if claim.owned
    then (
      leave_writer_with_handoff (cancelled r claim.expected.generation claim.token),
      record claim { token = no_conditional_token; owned = false },
    )
    else (r, claim)
