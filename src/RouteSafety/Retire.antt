-- ===== src/RouteSafety/Retire.antt =====
-- Taking a route away: the unconditional invalidation and the one for an exact epoch.
use s3_hidbot.Common.{ℕ, ◌≡◌, ◌≢◌, refl, sym, subst, ◌∙◌, Bool, true, false, arith, not, ◌||◌}
use s3_hidbot.HidRoute.{
  Route, Snapshot, OutputRoute, no_route, usb, active, next, same_route, invalidate,
  invalidate_if_matches, publish_and_retire, publish_durable_invalidation, retire_now,
  commit_none_locked, leave_writer_with_handoff, snapshot, same_epoch, try_enter_writer,
  process_durable_invalidation_locked, retire_durable_target,
  clear_superseded_conditional_invalidation_locked, leave_writer,
}
use s3_hidbot.RouteSafety.Handoff.{AtRest, CanLeave, leave-Left}

-- What an invalidation at rest leaves: no route; the answer says whether there was one, and the epoch
-- is the next one exactly then.
pub record Retired (r : Route) (p : Route × Bool) : Type 0 where
  pub rest : AtRest p.0
  pub desired : p.0.desired ≡ no_route
  pub active : p.0.active ≡ no_route
  pub was : (p.1 ≡ true) → (r.active ≢ no_route) × (p.0.generation ≡ next r.generation)
  pub none : (p.1 ≡ false) → (r.active ≡ no_route) × (p.0.generation ≡ r.generation)

-- The writer's members, before it leaves.
record Ended (r : Route) (p : Route × Bool) : Type 0 where
  can : CanLeave p.0
  posted : p.0.durable_state ≡ active
  was :
      (p.1 ≡ true)
      → (r.active ≢ no_route)
        × (p.0.generation ≡ next r.generation)
        × (p.0.durable_generation ≡ r.generation)
  none : (p.1 ≡ false) → (r.active ≡ no_route) × (p.0.generation ≡ r.generation)
  gone : p.0.active ≡ no_route

abbrev entered_with : Route → Route
entered_with r = record r {
  durable_generation = r.generation;
  durable_state = active;
  writer_active = true;
}

commit_none-Ended :
    (r : Route) (route : OutputRoute) (g : ℕ) (exact : Bool)
    → AtRest r
    → (exact ≡ true → (route ≡ r.active) × (g ≡ r.generation))
    → Ended r (commit_none_locked (entered_with r) route g exact)
unfolding commit_none_locked
commit_none-Ended r route g exact a h = ground arith

-- With no route there is nothing for the handoff to retire.
leave-generation :
    (r : Route) → r.active ≡ no_route → (leave_writer_with_handoff r).generation ≡ r.generation
unfolding leave_writer_with_handoff process_durable_invalidation_locked retire_durable_target
    clear_superseded_conditional_invalidation_locked leave_writer
leave-generation r h = ground arith

leave-Retired :
    (r : Route) (p : Route × Bool) → Ended r p → Retired r (leave_writer_with_handoff p.0, p.1)
leave-Retired r p e =
    let l = leave-Left p.0 e.can in
    let (d, u, t) = l.closed e.posted in
    let g = leave-generation p.0 e.gone in
    record {
      rest = l.rest;
      desired = d;
      active = u;
      was = λ h. let (n, k, t) = e.was h in (n, g ∙ k);
      none = λ h. let (n, k) = e.none h in (n, g ∙ k);
    }

-- At rest nothing is pending and the writer is free, so the retirement is carried out at once.
publish_and_retire_rest :
    (r : Route) (route : OutputRoute) (g : ℕ) (exact : Bool)
    → AtRest r
    → let p = commit_none_locked (entered_with r) route g exact in
      publish_and_retire r r.generation route g exact ≡ (leave_writer_with_handoff p.0, p.1)
unfolding publish_and_retire publish_durable_invalidation retire_now try_enter_writer
publish_and_retire_rest r route g exact a = ground arith

publish_and_retire-Retired :
    (r : Route) (route : OutputRoute) (g : ℕ) (exact : Bool)
    → AtRest r
    → (exact ≡ true → (route ≡ r.active) × (g ≡ r.generation))
    → Retired r (publish_and_retire r r.generation route g exact)
publish_and_retire-Retired r route g exact a h =
    subst (Retired r) (sym (publish_and_retire_rest r route g exact a))
      (leave-Retired r _ (commit_none-Ended r route g exact a h))

-- An invalidation of a route at rest leaves no route, at rest. It answers whether there was one, and it
-- starts the next epoch exactly then.
pub invalidate-Retired : (r : Route) → AtRest r → Retired r (invalidate r)
unfolding invalidate
invalidate-Retired r a = publish_and_retire-Retired r usb 0 false a (λ e. ground arith)

exact_epoch :
    (r : Route) (expected : Snapshot)
    → AtRest r
    → same_epoch (snapshot r) expected ≡ true
    → (expected.active ≡ r.active) × (expected.generation ≡ r.generation)
unfolding snapshot
exact_epoch r expected a h = ground arith

has_authority :
    (expected : Snapshot)
    → expected.coherent ≡ true
    → expected.active ≢ no_route
    → (not expected.coherent || same_route expected.active no_route) ≡ false
has_authority expected c n = ground arith

is_coherent : (r : Route) → AtRest r → (snapshot r).coherent ≡ true
unfolding snapshot
is_coherent r a = ground arith

-- An invalidation for an exact epoch takes the route away when the epoch is still the published one, as
-- an unconditional one would, and otherwise changes nothing. The state is at rest, and the expected
-- snapshot is coherent and has a route.
pub invalidate_if_matches_exact :
    (r : Route) (expected : Snapshot)
    → AtRest r
    → expected.coherent ≡ true
    → expected.active ≢ no_route
    → (same_epoch (snapshot r) expected ≡ true → Retired r (invalidate_if_matches r expected))
      × (same_epoch (snapshot r) expected ≡ false → invalidate_if_matches r expected ≡ (r, false))
unfolding invalidate_if_matches
invalidate_if_matches_exact r expected a c n =
    let b = has_authority expected c n in
    let d = is_coherent r a in
    (
      λ h.
          let (u, g) = exact_epoch r expected a h in
          rw (b, d, h)
            (subst
              (λ k. Retired r (publish_and_retire r k expected.active expected.generation true))
              (sym g)
              (publish_and_retire-Retired r expected.active expected.generation true a
                (λ e. (u, g)))),
      λ h. rw (b, d, h) refl,
    )
