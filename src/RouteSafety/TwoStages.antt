-- ===== src/RouteSafety/TwoStages.antt =====
-- Releasing a route in its two stages.
use s3_hidbot.Common.{
  ℕ, ◌≡◌, ◌≢◌, refl, sym, ◌∙◌, inl, inr, true, false, arith, Bool-cases, some, not, ◌||◌, ◌==◌, [],
}
use s3_hidbot.HidRoute.{
  Route, Snapshot, OutputRoute, no_route, stable, releasing, next, same_route, same_transition,
  invalidate, begin_release, complete_release, bump_publication, leave_writer_with_handoff,
  invalidation_pending, interrupted, invalidation_pending_without_usb_publication, snapshot,
  try_enter_writer, matches,
}
use s3_hidbot.RouteSafety.Handoff.{AtRest}
use s3_hidbot.RouteSafety.Retire.{invalidate-Retired}
use s3_hidbot.RouteSafety.Release.{
  leave-quiet, entered, staged, ended, may_complete, complete_release_rest,
  complete_release-Completed,
}

abbrev stage_a : Route → Snapshot
stage_a r = record {
  desired = no_route;
  active = r.active;
  generation = r.generation;
  transition = releasing;
  invalidation_pending = false;
  coherent = true;
}

-- A route at rest, taken and quiet.
pub record IsTaken (route : OutputRoute) (r : Route) : Type 0 where
  pub rest : AtRest r
  pub active : r.active ≡ route
  pub some_route : route ≢ no_route
  pub transition : r.transition ≡ stable
  pub quiet : r.conditional_token ≡ 0

abbrev held_staged : Route → Route
held_staged r = record (staged r) { writer_active = false }

staged_snapshot :
    (r : Route) (route : OutputRoute)
    → IsTaken route r
    → (snapshot (staged r) ≡ stage_a r) × (snapshot (held_staged r) ≡ stage_a r)
unfolding snapshot
staged_snapshot r route t = ground (arith, t.rest)

may_release :
    (r : Route) (route : OutputRoute)
    → IsTaken route r
    → (invalidation_pending (entered r)
        || not (same_route r.desired route)
        || not (same_route r.active route)
        || not (same_transition r.transition stable))
      ≡ false
unfolding invalidation_pending
may_release r route t = ground (arith, t.rest)

same_itself : (r : Route) (route : OutputRoute) → IsTaken route r → same_route r.active route ≡ true
same_itself r route t = ground arith

same_number : (n : ℕ) → (n == n) ≡ true
same_number n = ground arith

enter_free : (r : Route) → r.writer_active ≡ false → try_enter_writer r ≡ some (entered r)
unfolding try_enter_writer
enter_free r h = rw h refl

begin_release_rest :
    (r : Route) (route : OutputRoute)
    → IsTaken route r
    → begin_release r route [] ≡ (held_staged r, some (stage_a r), true)
unfolding begin_release bump_publication interrupted
begin_release_rest r route t =
    let (s, z) = staged_snapshot r route t in
    rw
      (
        begin_release,
        enter_free r t.rest.free,
        may_release r route t,
        leave-quiet (staged r) t.rest.settled t.quiet,
        s,
        z,
        same_itself r route t,
        same_number r.generation,
      )
      refl

held_staged-AtRest : (r : Route) (route : OutputRoute) → IsTaken route r → AtRest (held_staged r)
held_staged-AtRest r route t = ground (arith, t.rest)

may_complete_staged :
    (r : Route) (route : OutputRoute)
    → IsTaken route r
    → may_complete (entered (held_staged r)) route (stage_a r) ≡ true
unfolding invalidation_pending
may_complete_staged r route t = ground (arith, t.rest)

ended_pending :
    (r : Route) (route : OutputRoute)
    → IsTaken route r
    → not (invalidation_pending (leave_writer_with_handoff (ended (held_staged r)))) ≡ true
unfolding invalidation_pending invalidation_pending_without_usb_publication
ended_pending r route t =
    rw (leave-quiet (ended (held_staged r)) t.rest.settled t.quiet) (ground (arith, t.rest))

complete_held :
    (r : Route) (route : OutputRoute)
    → IsTaken route r
    → (complete_release (held_staged r) route (stage_a r)).1 ≡ true
complete_held r route t =
    rw
      (
        complete_release_rest (held_staged r) route (stage_a r) (held_staged-AtRest r route t),
        may_complete_staged r route t,
      )
      (ended_pending r route t)

held_matches :
    (r : Route) (route : OutputRoute)
    → IsTaken route r
    → matches (held_staged r) route r.generation ≡ true
unfolding matches invalidation_pending invalidation_pending_without_usb_publication
held_matches r route t = ground (arith, t.rest)

overtaken :
    (q : Route) (route : OutputRoute) (s : Snapshot)
    → AtRest q
    → q.active ≡ no_route
    → route ≢ no_route
    → (complete_release q route s).1 ≡ false
overtaken q route s a n h = elim (Bool-cases (complete_release q route s).1) [
  | inl e ↦ elim (h (sym ((complete_release-Completed q route s a).exactly.0 e).active ∙ n)) [ ]
  | inr e ↦ e
]

-- A route at rest, taken and with nothing pending, is released in two stages. The first succeeds, and
-- the route still has authority in the same epoch. Then the second succeeds with the snapshot that the
-- first has given, and leaves no route, in the next epoch; but it fails if an invalidation comes between.
pub release_both_stages :
    (r : Route) (route : OutputRoute)
    → IsTaken route r
    → (q : Route) × (s : Snapshot) × (begin_release r route [] ≡ (q, some s, true))
      × (matches q route r.generation ≡ true)
      × ((complete_release q route s).1 ≡ true)
      × ((complete_release q route s).0.active ≡ no_route)
      × ((complete_release q route s).0.generation ≡ next r.generation)
      × ((complete_release (invalidate q).0 route s).1 ≡ false)
release_both_stages r route t =
    let q = held_staged r in
    let s = stage_a r in
    let a = held_staged-AtRest r route t in
    let c = complete_held r route t in
    let (d, n, x, e) = (complete_release-Completed q route s a).released c in
    let i = invalidate-Retired q a in
    (
      q,
      s,
      begin_release_rest r route t,
      held_matches r route t,
      c,
      n,
      e,
      overtaken (invalidate q).0 route s i.rest i.active t.some_route,
    )
