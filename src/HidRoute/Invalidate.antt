-- ===== src/HidRoute/Invalidate.antt =====
-- Durable invalidation, from a callback or from the executor, and the conditional one of a watchdog.
use s3_hidbot.Common.{
  ℕ, zero, suc, Bool, true, false, not, ◌&&◌, ◌||◌, ◌==◌, Option, some, none, if◌then◌else◌,
}
use s3_hidbot.HidRoute.Types.{
  OutputRoute, no_route, usb, active, Snapshot, Route, next, no_conditional_token,
  conditional_publishing, same_route, same_transition, is_idle, is_active,
}
use s3_hidbot.HidRoute.Publication.{snapshot, try_enter_writer}
use s3_hidbot.HidRoute.Writer.{commit_none_locked, leave_writer_with_handoff}

unfoldable pub publish_durable_invalidation : Route → ℕ → Route × Bool
publish_durable_invalidation r generation =
    if is_idle r.durable_state
    then (record r { durable_generation = generation; durable_state = active }, true)
    else (r, is_active r.durable_state && r.durable_generation == generation)

-- The writer's part of an invalidation, if the writer is free.
unfoldable pub retire_now : Route → OutputRoute → ℕ → Bool → Route × Bool
retire_now r route generation exact = elim (try_enter_writer r) [
  | none ↦ (r, false)
  | some entered ↦
      let (after, changed) = commit_none_locked entered route generation exact in
      (leave_writer_with_handoff after, changed)
]

-- Publish, and on success retire at once if the writer is free.
unfoldable pub publish_and_retire : Route → ℕ → OutputRoute → ℕ → Bool → Route × Bool
publish_and_retire r target route generation exact =
    let (published, accepted) = publish_durable_invalidation r target in
    if accepted then retire_now published route generation exact else (published, false)

unfoldable pub invalidate : Route → Route × Bool
invalidate r = publish_and_retire r r.generation usb 0 false

-- `observed.desired == expected.desired && …`, the four fields that name an epoch.
abbrev pub same_epoch : Snapshot → Snapshot → Bool
same_epoch a b =
    same_route a.desired b.desired
    && same_route a.active b.active
    && a.generation == b.generation
    && same_transition a.transition b.transition

unfoldable pub invalidate_if_matches : Route → Snapshot → Route × Bool
invalidate_if_matches r expected =
    if not expected.coherent || same_route expected.active no_route
    then (r, false)
    else if not (snapshot r).coherent || not (same_epoch (snapshot r) expected)
    then (r, false)
    else publish_and_retire r expected.generation expected.active expected.generation true

-- The loop of `allocate_conditional_token`, on fuel: two values are skipped, so three rounds do.
-- It goes from the counter to the token and the new counter.
unfoldable pub allocate_rounds : ℕ → ℕ → Option (ℕ × ℕ)
allocate_rounds zero counter = none
allocate_rounds (suc fuel) counter =
    let rest = allocate_rounds fuel (next counter) in
    if counter == no_conditional_token || counter == conditional_publishing
    then rest
    else some (counter, next counter)

unfoldable pub allocate_conditional_token : Route → Option (ℕ × ℕ)
allocate_conditional_token r = allocate_rounds 3 r.next_conditional_token

unfoldable pub conditional_invalidation_matches : Route → ℕ → ℕ → Bool
conditional_invalidation_matches r generation token =
    not (token == no_conditional_token)
    && not (token == conditional_publishing)
    && r.conditional_generation == generation
    && r.conditional_token == token

-- The caller's token goes in and comes out.
unfoldable pub publish_conditional_invalidation : Route → ℕ → ℕ → Route × ℕ × Bool
publish_conditional_invalidation r generation token =
    if not (token == no_conditional_token)
    then (r, token, conditional_invalidation_matches r generation token)
    else if not (r.conditional_token == no_conditional_token)
    then (r, token, false)
    else elim (allocate_conditional_token r) [
      | none ↦ (r, token, false)
      | some (fresh, counter) ↦ (
        record r {
          next_conditional_token = counter;
          conditional_generation = generation;
          conditional_token = fresh;
        },
        fresh,
        true,
      )
    ]

unfoldable pub cancel_conditional_invalidation : Route → ℕ → ℕ → Route × Bool
unfolding conditional_invalidation_matches
cancel_conditional_invalidation r generation token =
    if conditional_invalidation_matches r generation token
    then (record r { conditional_token = no_conditional_token }, true)
    else (r, false)
