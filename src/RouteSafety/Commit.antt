-- ===== src/RouteSafety/Commit.antt =====
-- Taking a route: the result is exact, whatever preempts it.
use s3_hidbot.Common.{
  ℕ, ◌≡◌, ap, subst, ◌∙◌, inl, inr, Bool, true, false, List, none, some, arith, if_holds, not, ◌||◌,
  ◌&&◌, ◌==◌, if◌then◌else◌, Option-cases,
}
use s3_hidbot.HidRoute.{
  Route, OutputRoute, no_route, usb, ble, stable, next, same_route, same_transition, usb_flags,
  usb_active, Callback, interrupted, committed_exactly, finish_commit, publish_route, publish_epoch,
  commit_entered, commit_if_none, snapshot, bump_publication, finish_usb_publication,
  leave_writer_with_handoff, invalidation_pending, begin_usb_publication,
  invalidation_pending_without_usb_publication, try_enter_writer,
}
use s3_hidbot.RouteSafety.Callbacks.{interrupted-Kept}
use s3_hidbot.RouteSafety.Handoff.{AtRest, leave-Left}
use s3_hidbot.RouteSafety.Published.{
  IsOpen, interrupted-Published, Published-CanLeave, finish-word, finish-Published, finish-stays,
  abandon-CanLeave, interrupted-Opened, close-CanLeave, set_route-Published, publish_epoch-Opened,
  begin-Entered, Entered-CanLeave, enter-Entered, Published, Opened, Entered,
}

-- What an attempt to take `route` may leave, for the epoch `generation`.
pub record Committed (route : OutputRoute) (generation : ℕ) (p : Route × Bool) : Type 0 where
  pub rest : AtRest p.0
  pub won :
      p.1 ≡ true
      → (p.0.desired ≡ route)
        × (p.0.active ≡ route)
        × (p.0.transition ≡ stable)
        × (p.0.generation ≡ generation)
        × (invalidation_pending p.0 ≡ false)

committed_exactly-won :
    (r : Route) (route : OutputRoute) (g : ℕ)
    → committed_exactly r route g ≡ true
    → (r.desired ≡ route)
      × (r.active ≡ route)
      × (r.transition ≡ stable)
      × (r.generation ≡ g)
      × (invalidation_pending r ≡ false)
unfolding committed_exactly snapshot
committed_exactly-won r route g h = ground arith

lost : (r : Route) (route : OutputRoute) (g : ℕ) → AtRest r → Committed route g (r, false)
lost r route g a = record { rest = a; won = λ e. ground arith }

decided :
    (r : Route) (route : OutputRoute) (g : ℕ)
    → AtRest r
    → Committed route g (r, committed_exactly r route g)
decided r route g a = record { rest = a; won = committed_exactly-won r route g }

finish_commit-Committed :
    (r : Route) (route : OutputRoute) (g identity : ℕ) (before after : List Callback)
    → Published route g r
    → IsOpen route r.usb_publication_state
    → Committed route g (finish_commit r route g identity before after)
unfolding finish_commit
finish_commit-Committed r no_route g identity before after p u =
    decided _ _ _ (leave-Left r (Published-CanLeave no_route g r p u)).rest
finish_commit-Committed r ble g identity before after p u =
    decided _ _ _ (leave-Left r (Published-CanLeave ble g r p u)).rest
finish_commit-Committed r usb g identity before after p u =
    if_holds (Committed usb g) f.1 _ _
      (λ e.
        decided _ _ _
          (leave-Left _ (
            Published-CanLeave usb g _ (interrupted-Published usb g _ after done) (
              (interrupted-Kept _ after done.written).unpublished
                (finish-word q identity e)))).rest)
      λ e. lost _ _ _ (leave-Left _ (abandon-CanLeave g f.0 done (kept_open e))).rest
  where
    q : Route
    q = interrupted r before

    f : Route × Bool
    f = finish_usb_publication q identity

    done : Published usb g f.0
    done = finish-Published usb g q identity (interrupted-Published usb g r before p)

    kept_open : f.1 ≡ false → usb_active f.0.usb_publication_state ≡ 1
    kept_open e =
        ap (λ (w : Route). usb_active w.usb_publication_state) (finish-stays q identity e)
        ∙ (interrupted-Kept r before p.written).publication
        ∙ u

publish_route-Committed :
    (r : Route) (route : OutputRoute) (g identity : ℕ) (before after : List Callback)
    → Opened route g r
    → Committed route g (publish_route r route g identity before after)
unfolding publish_route bump_publication
publish_route-Committed r route g identity before after o =
    if_holds (Committed route g)
      (invalidation_pending_without_usb_publication r
        || (same_route route usb && not (r.usb_publication_state == identity)))
      _ _ (λ _. lost _ _ _ (leave-Left _ (close-CanLeave route g r o)).rest)
      λ _.
        finish_commit-Committed _ route g identity before after (set_route-Published route g r o)
          o.word

publish_epoch-Committed :
    (r : Route) (route : OutputRoute) (identity : ℕ) (during before after : List Callback)
    → Entered r
    → IsOpen route r.usb_publication_state
    → Committed route (next r.generation) (publish_epoch r route identity during before after)
unfolding publish_epoch
publish_epoch-Committed r route identity during before after e u =
    publish_route-Committed _ route _ identity before after
      (interrupted-Opened route _ _ during (publish_epoch-Opened r route e u))

commit_begun-Committed :
    (r : Route) (route : OutputRoute) (cut : ℕ) (during before after : List Callback)
    → Entered r
    → usb_flags r.usb_publication_state ≡ 0
    → Committed route (next r.generation) (
        if same_route route usb
        then elim (begin_usb_publication r cut) [
          | none ↦ (leave_writer_with_handoff r, false)
          | some (identity, begun) ↦ publish_epoch begun route identity during before after
        ]
        else publish_epoch r route 0 during before after)
commit_begun-Committed r no_route cut during before after e u =
    publish_epoch-Committed r no_route 0 during before after e u
commit_begun-Committed r ble cut during before after e u =
    publish_epoch-Committed r ble 0 during before after e u
commit_begun-Committed r usb cut during before after e u =
    elim (Option-cases (begin_usb_publication r cut)) [
      | inl h ↦ rw h (lost _ _ _ (leave-Left r (Entered-CanLeave r e u)).rest)
      | inr ((identity, begun), h) ↦
          let (f, w, g) = begin-Entered r begun cut identity e h in
          rw h (
            subst
              (λ n. Committed usb (next n) (publish_epoch begun usb identity during before after)) g
              (publish_epoch-Committed begun usb identity during before after f w))
    ]

commit_entered-Committed :
    (r : Route) (route : OutputRoute) (cut : ℕ) (during before after : List Callback)
    → Entered r
    → usb_flags r.usb_publication_state ≡ 0
    → Committed route (next r.generation) (commit_entered r route cut during before after)
unfolding commit_entered
commit_entered-Committed r route cut during before after e u =
    if_holds (Committed route (next r.generation))
      (invalidation_pending r
        || not (same_route r.desired no_route)
        || not (same_route r.active no_route)
        || not (same_transition r.transition stable))
      _ _ (λ _. lost _ _ _ (leave-Left r (Entered-CanLeave r e u)).rest)
      λ _. commit_begun-Committed r route cut during before after e u

-- Whatever callbacks preempt an attempt to take a route, it ends at rest; and if it answers that the
-- route is taken, this route is the desired and the active one, stable, in the next epoch, and no
-- invalidation is pending. The state before is at rest.
pub commit_if_none-Committed :
    (r : Route) (route : OutputRoute) (cut : ℕ) (during before after : List Callback)
    → AtRest r
    → Committed route (next r.generation) (commit_if_none r route cut during before after)
unfolding commit_if_none
commit_if_none-Committed r route cut during before after a =
    if_holds (Committed route (next r.generation)) (same_route route no_route) _ _
      (λ _. lost _ _ _ a)
      λ _. elim (Option-cases (try_enter_writer r)) [
        | inl h ↦ rw h (lost _ _ _ a)
        | inr (q, h) ↦
            let (e, w, g) = enter-Entered r q a h in
            rw h (
              subst (λ n. Committed route (next n) (commit_entered q route cut during before after))
                g
                (commit_entered-Committed q route cut during before after e
                  (ap usb_flags w ∙ a.unpublished)))
      ]
