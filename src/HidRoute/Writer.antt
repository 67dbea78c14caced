-- ===== src/HidRoute/Writer.antt =====
-- What the sole writer does: publish the retirement of a route, and hand its pending invalidations
-- over before it leaves.
use s3_hidbot.Common.{ℕ, Bool, true, false, not, ◌&&◌, ◌||◌, ◌==◌, if◌then◌else◌}
use s3_hidbot.HidRoute.Types.{
  OutputRoute, no_route, usb, stable, idle, Route, next, no_conditional_token,
  conditional_publishing, same_route, same_transition, is_active,
}
use s3_hidbot.HidRoute.Publication.{bump_publication, leave_writer}

-- The members after the publication of `commit_none_locked`.
unfoldable pub retire : Route → Route
unfolding bump_publication
retire r = bump_publication (record (bump_publication r) {
  desired = no_route;
  active = no_route;
  generation = next r.generation;
  transition = stable;
})

unfoldable pub commit_none_locked : Route → OutputRoute → ℕ → Bool → Route × Bool
unfolding retire
commit_none_locked r expected_route expected_generation require_exact_match =
    if same_route r.active no_route
    then (r, false)
    else if require_exact_match
        && (not (same_route r.active expected_route) || not (r.generation == expected_generation))
    then (r, false)
    else (retire r, true)

-- The target is retired, if it is still there.
unfoldable pub retire_durable_target : Route → Route
unfolding commit_none_locked
retire_durable_target r =
    if r.generation == r.durable_generation && not (same_route r.active no_route)
    then (commit_none_locked r r.active r.durable_generation true).0
    else r

unfoldable pub process_durable_invalidation_locked : Route → Route
unfolding retire_durable_target
process_durable_invalidation_locked r =
    if is_active r.durable_state
    then (let after = retire_durable_target r in
        if not (after.generation == r.durable_generation) || same_route after.active no_route
        then record after { durable_state = idle }
        else after)
    else r

unfoldable pub clear_superseded_conditional_invalidation_locked : Route → Route
clear_superseded_conditional_invalidation_locked r =
    if r.conditional_token == no_conditional_token || r.conditional_token == conditional_publishing
    then r
    else if r.generation == r.conditional_generation
        && same_route r.desired usb
        && same_route r.active usb
        && same_transition r.transition stable
    then r
    else record r { conditional_token = no_conditional_token }

unfoldable pub leave_writer_with_handoff : Route → Route
unfolding process_durable_invalidation_locked clear_superseded_conditional_invalidation_locked
    leave_writer
leave_writer_with_handoff r =
    leave_writer
      (clear_superseded_conditional_invalidation_locked (process_durable_invalidation_locked r))
