-- ===== src/RouteSafety/Release.antt =====
-- Releasing a route: the second stage.
use s3_hidbot.Common.{
  ◌≡◌, ◌↔◌, refl, sym, subst, ◌∙◌, Bool, true, false, arith, ==_iff, if_holds, not, ◌&&◌, ◌==◌,
  if◌then◌else◌,
}
use s3_hidbot.HidRoute.{
  Route, Snapshot, OutputRoute, Transition, no_route, stable, releasing, idle, next, same_route,
  same_transition, complete_release, bump_publication, leave_writer_with_handoff,
  invalidation_pending, invalidation_pending_without_usb_publication, try_enter_writer,
  process_durable_invalidation_locked, clear_superseded_conditional_invalidation_locked,
  leave_writer,
}
use s3_hidbot.RouteSafety.Handoff.{AtRest, CanLeave, leave-Left}

-- The route is active and being released, no watchdog posted anything, and the snapshot says the same.
pub record IsReleasable (r : Route) (route : OutputRoute) (expected : Snapshot) : Type 0 where
  pub unposted : r.conditional_token ≡ 0
  pub desired : r.desired ≡ no_route
  pub active : r.active ≡ route
  pub transition : r.transition ≡ releasing
  pub generation : r.generation ≡ expected.generation
  pub expected_desired : expected.desired ≡ no_route
  pub expected_active : expected.active ≡ route
  pub expected_transition : expected.transition ≡ releasing

-- What the second stage leaves, released or refused.
pub record Completed (r : Route) (route : OutputRoute) (expected : Snapshot) (p : Route × Bool)
    : Type 0 where
  pub rest : AtRest p.0
  pub exactly : (p.1 ≡ true) ↔ IsReleasable r route expected
  pub released :
      p.1 ≡ true
      → (p.0.desired ≡ no_route)
        × (p.0.active ≡ no_route)
        × (p.0.transition ≡ stable)
        × (p.0.generation ≡ next r.generation)
  pub refused :
      p.1 ≡ false
      → (p.0.desired ≡ r.desired)
        × (p.0.active ≡ r.active)
        × (p.0.transition ≡ r.transition)
        × (p.0.generation ≡ r.generation)

-- The conditional token is all that a quiet writer changes when it leaves, apart from its flag.
pub leave-quiet :
    (r : Route)
    → r.durable_state ≡ idle
    → r.conditional_token ≡ 0
    → leave_writer_with_handoff r ≡ record r { writer_active = false }
unfolding leave_writer_with_handoff process_durable_invalidation_locked
    clear_superseded_conditional_invalidation_locked leave_writer
leave-quiet r h t = ground arith

abbrev pub entered : Route → Route
entered r = record r { writer_active = true }

abbrev pub staged : Route → Route
staged r = record r {
  writer_active = true;
  publication_sequence = next (next r.publication_sequence);
  desired = no_route;
  transition = releasing;
}

abbrev pub ended : Route → Route
ended r = record r {
  writer_active = true;
  publication_sequence = next (next r.publication_sequence);
  active = no_route;
  generation = next r.generation;
  transition = stable;
}

abbrev pub may_complete : Route → OutputRoute → Snapshot → Bool
may_complete r route expected =
    not (invalidation_pending r)
    && same_route expected.desired no_route
    && same_route expected.active route
    && same_transition expected.transition releasing
    && same_route r.desired no_route
    && same_route r.active route
    && same_transition r.transition releasing
    && r.generation == expected.generation

pub complete_release_rest :
    (r : Route) (route : OutputRoute) (expected : Snapshot)
    → AtRest r
    → complete_release r route expected ≡ (
        if may_complete (entered r) route expected
        then (
          leave_writer_with_handoff (ended r),
          not (invalidation_pending (leave_writer_with_handoff (ended r))),
        )
        else (leave_writer_with_handoff (entered r), false))
unfolding complete_release try_enter_writer bump_publication
complete_release_rest r route expected a = rw a.free refl

entered-CanLeave : (r : Route) → AtRest r → CanLeave (entered r)
entered-CanLeave r a = ground arith

all_true :
    (a b c d e f g h : Bool)
    → (a && b && c && d && e && f && g && h) ≡ true
    → (a ≡ true)
      × (b ≡ true)
      × (c ≡ true)
      × (d ≡ true)
      × (e ≡ true)
      × (f ≡ true)
      × (g ≡ true)
      × (h ≡ true)
all_true a b c d e f g h k = ground arith

same_route-eq : (x y : OutputRoute) → same_route x y ≡ true → x ≡ y
same_route-eq x y h = ground arith

same_transition-eq : (x y : Transition) → same_transition x y ≡ true → x ≡ y
same_transition-eq x y h = ground arith

may_complete-IsReleasable :
    (r : Route) (route : OutputRoute) (expected : Snapshot)
    → may_complete (entered r) route expected ≡ true
    → IsReleasable r route expected
unfolding invalidation_pending invalidation_pending_without_usb_publication
may_complete-IsReleasable r route expected h =
    let (i, d, u, t, d', u', t', g) =
      all_true (not (invalidation_pending (entered r))) (same_route expected.desired no_route)
        (same_route expected.active route) (same_transition expected.transition releasing)
        (same_route r.desired no_route) (same_route r.active route)
        (same_transition r.transition releasing) (r.generation == expected.generation) h in
    record {
      unposted = ground (arith, i);
      desired = same_route-eq r.desired no_route d';
      active = same_route-eq r.active route u';
      transition = same_transition-eq r.transition releasing t';
      generation = (==_iff r.generation expected.generation).0 g;
      expected_desired = same_route-eq expected.desired no_route d;
      expected_active = same_route-eq expected.active route u;
      expected_transition = same_transition-eq expected.transition releasing t;
    }

IsReleasable-may_complete :
    (r : Route) (route : OutputRoute) (expected : Snapshot)
    → AtRest r
    → IsReleasable r route expected
    → may_complete (entered r) route expected ≡ true
unfolding invalidation_pending invalidation_pending_without_usb_publication
IsReleasable-may_complete r route expected a i = ground arith

ended-CanLeave :
    (r : Route) (route : OutputRoute) (expected : Snapshot)
    → AtRest r
    → IsReleasable r route expected
    → CanLeave (ended r)
ended-CanLeave r route expected a i = ground arith

-- Nothing is pending where a route at rest ended its release and no watchdog had posted.
ended_unpending :
    (r : Route)
    → AtRest r
    → r.conditional_token ≡ 0
    → not (invalidation_pending (leave_writer_with_handoff (ended r))) ≡ true
unfolding invalidation_pending invalidation_pending_without_usb_publication
ended_unpending r a t = rw (leave-quiet (ended r) a.settled t) (ground (arith, a.unpublished))

releasable_stage :
    (r : Route) (route : OutputRoute) (expected : Snapshot)
    → AtRest r
    → IsReleasable r route expected
    → Completed r route expected (
      leave_writer_with_handoff (ended r),
      not (invalidation_pending (leave_writer_with_handoff (ended r))),
    )
releasable_stage r route expected a i =
    let l = leave-Left (ended r) (ended-CanLeave r route expected a i) in
    let (d, u, t, g) = l.quiet a.settled in
    let done = ended_unpending r a i.unposted in
    record {
      rest = l.rest;
      exactly = (λ e. i, λ k. done);
      released = λ e. (d ∙ i.desired, u, t, g);
      refused = λ e. cc (e, done);
    }

refused_stage :
    (r : Route) (route : OutputRoute) (expected : Snapshot)
    → AtRest r
    → may_complete (entered r) route expected ≡ false
    → Completed r route expected (leave_writer_with_handoff (entered r), false)
refused_stage r route expected a h =
    let l = leave-Left (entered r) (entered-CanLeave r a) in
    record {
      rest = l.rest;
      exactly = (λ e. cc e, λ i. cc (h, IsReleasable-may_complete r route expected a i));
      released = λ e. cc e;
      refused = λ e. l.quiet a.settled;
    }

-- The second stage of a release, from rest, ends at rest. It answers that the route is released exactly
-- when no watchdog has posted an invalidation, the route is the active one and being released, and the
-- snapshot that is given says the same in the same epoch. Then no route is left, stable, in the next
-- epoch; otherwise the routes, the transition and the epoch are those from before.
pub complete_release-Completed :
    (r : Route) (route : OutputRoute) (expected : Snapshot)
    → AtRest r
    → Completed r route expected (complete_release r route expected)
complete_release-Completed r route expected a =
    subst (Completed r route expected) (sym (complete_release_rest r route expected a)) (
      if_holds (Completed r route expected) (may_complete (entered r) route expected) _ _
        (λ h. releasable_stage r route expected a (may_complete-IsReleasable r route expected h))
        (λ h. refused_stage r route expected a h))
