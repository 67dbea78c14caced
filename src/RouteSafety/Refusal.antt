-- ===== src/RouteSafety/Refusal.antt =====
-- A writer that finds an invalidation posted refuses the route that is being taken.
use s3_hidbot.Common.{
  ℕ, ◌≡◌, ◌≢◌, refl, ap, ◌∙◌, ◌⊎◌, inl, inr, Bool, true, false, List, arith, if_holds, not, ◌||◌,
  ◌&&◌, ◌==◌, if◌then◌else◌,
}
use s3_hidbot.HidRoute.{
  Route, OutputRoute, no_route, usb, ble, idle, active, same_route, Callback, interrupted,
  committed_exactly, finish_commit, publish_route, finish_usb_publication,
  leave_writer_with_handoff, commit_none_locked, clear_usb_publication, bump_publication, set_route,
  invalidation_pending_without_usb_publication, snapshot, usb_active,
}
use s3_hidbot.RouteSafety.Callbacks.{Kept, interrupted-Kept, revokes, interrupted-revoked}
use s3_hidbot.RouteSafety.Handoff.{CanLeave, leave-Left}
use s3_hidbot.RouteSafety.Published.{
  Published, Opened, interrupted-Published, Published-CanLeave, finish-word, finish-Published,
  finish-stays, abandon-CanLeave, close-CanLeave, set_route-Published,
}

-- No output has authority, and the attempt to give it to one has failed.
pub record Refused (p : Route × Bool) : Type 0 where
  pub result : p.1 ≡ false
  pub desired : p.0.desired ≡ no_route
  pub active : p.0.active ≡ no_route

posted-Refused :
    (r : Route)
    → CanLeave r
    → r.durable_state ≡ active
    → Refused (leave_writer_with_handoff r, false)
posted-Refused r c h =
    let (d, u, t) = (leave-Left r c).closed h in record { result = refl; desired = d; active = u }

-- The callbacks that run behind the published route are those of a USB publication.
unfoldable pub is_revoked : OutputRoute → List Callback → List Callback → List Callback → Bool
is_revoked route during before after =
    revokes during || (same_route route usb && (revokes before || revokes after))

not_committed : (r : Route) (g : ℕ) → r.active ≡ no_route → committed_exactly r usb g ≡ false
unfolding committed_exactly snapshot
not_committed r g h = ground arith

posted-Refused-exactly :
    (r : Route) (g : ℕ)
    → CanLeave r
    → r.durable_state ≡ active
    → Refused (leave_writer_with_handoff r, committed_exactly (leave_writer_with_handoff r) usb g)
posted-Refused-exactly r g c h =
    let (d, u, t) = (leave-Left r c).closed h in
    record { result = not_committed _ g u; desired = d; active = u }

pub abandoned_none :
    (r : Route) (g : ℕ)
    → Published usb g r
    → let q = clear_usb_publication (commit_none_locked r usb g true).0 in
      (q.active ≡ no_route)
      × (q.desired ≡ no_route)
      × ((q.durable_state ≡ idle) ⊎ (q.durable_state ≡ active))
unfolding clear_usb_publication commit_none_locked
abandoned_none r g p = ground arith

pub none-Refused :
    (r : Route)
    → CanLeave r
    → r.active ≡ no_route
    → r.desired ≡ no_route
    → Refused (leave_writer_with_handoff r, false)
none-Refused r c u d =
    let l = leave-Left r c in
    elim c.targeted [
      | inl i ↦
          let (e, v, t, g) = l.quiet i in record { result = refl; desired = e ∙ d; active = v ∙ u }
      | inr (a, t) ↦ posted-Refused r c a
    ]

finish-durable :
    (r : Route) (identity : ℕ)
    → (finish_usb_publication r identity).0.durable_state ≡ r.durable_state
unfolding finish_usb_publication
finish-durable r identity = ground arith

pub either : (a b : Bool) → (a || b) ≡ true → (a ≡ true) ⊎ (b ≡ true)
either a b h = ground arith

finish_commit-Refused :
    (r : Route) (g identity : ℕ) (before after : List Callback)
    → Published usb g r
    → usb_active r.usb_publication_state ≡ 1
    → (revokes before || revokes after) ≡ true
    → Refused (finish_commit r usb g identity before after)
unfolding finish_commit
finish_commit-Refused r g identity before after p u h =
    if_holds Refused f.1 _ _
      (λ e.
        posted-Refused-exactly (interrupted f.0 after) g
          (Published-CanLeave usb g _ (interrupted-Published usb g _ after done)
            (later.unpublished (finish-word q identity e)))
          posted)
      λ e.
        let (a, d, x) = abandoned_none f.0 g done in
        none-Refused _ (abandon-CanLeave g f.0 done (kept_open e)) a d
  where
    q : Route
    q = interrupted r before

    f : Route × Bool
    f = finish_usb_publication q identity

    done : Published usb g f.0
    done = finish-Published usb g q identity (interrupted-Published usb g r before p)

    later : Kept f.0 (interrupted f.0 after)
    later = interrupted-Kept f.0 after done.written

    kept_open : f.1 ≡ false → usb_active f.0.usb_publication_state ≡ 1
    kept_open e =
        ap (λ (w : Route). usb_active w.usb_publication_state) (finish-stays q identity e)
        ∙ (interrupted-Kept r before p.written).publication
        ∙ u

    posted : (interrupted f.0 after).durable_state ≡ active
    posted = elim (either (revokes before) (revokes after) h) [
      | inl b ↦ later.stays (finish-durable q identity ∙ interrupted-revoked r before p.written b)
      | inr a ↦ interrupted-revoked f.0 after done.written a
    ]

closed_none :
    (r : Route) (route : OutputRoute)
    → let q =
        if same_route route usb
        then clear_usb_publication (bump_publication (set_route r no_route))
        else bump_publication (set_route r no_route) in
      (q.active ≡ no_route) × (q.desired ≡ no_route)
unfolding clear_usb_publication bump_publication
closed_none r route = ground arith

pub closing-Refused :
    (r : Route) (route : OutputRoute) (g : ℕ)
    → Opened route g r
    → Refused (
      leave_writer_with_handoff (
          if same_route route usb
          then clear_usb_publication (bump_publication (set_route r no_route))
          else bump_publication (set_route r no_route)),
      false,
    )
closing-Refused r route g o =
    let (a, d) = closed_none r route in none-Refused _ (close-CanLeave route g r o) a d

posted_pending :
    (r : Route) → r.durable_state ≡ active → invalidation_pending_without_usb_publication r ≡ true
unfolding invalidation_pending_without_usb_publication
posted_pending r h = ground arith

published_usb-Refused :
    (r : Route) (route : OutputRoute) (g identity : ℕ) (before after : List Callback)
    → Opened route g r
    → (same_route route usb && (revokes before || revokes after)) ≡ true
    → Refused (finish_commit (bump_publication (set_route r route)) route g identity before after)
unfolding bump_publication
published_usb-Refused r usb g identity before after o h =
    finish_commit-Refused _ g identity before after (set_route-Published usb g r o) o.word h
published_usb-Refused r no_route g identity before after o h = ground arith
published_usb-Refused r ble g identity before after o h = ground arith

not_both : (a b : Bool) → a ≡ true → (a || b) ≢ false
not_both a b h e = ground arith

pub publish_route-Refused :
    (r : Route) (route : OutputRoute) (g identity : ℕ) (before after : List Callback)
    → Opened route g r
    → ((r.durable_state ≡ active)
        ⊎ ((same_route route usb && (revokes before || revokes after)) ≡ true))
    → Refused (publish_route r route g identity before after)
unfolding publish_route
publish_route-Refused r route g identity before after o h =
    if_holds Refused
      (invalidation_pending_without_usb_publication r
        || (same_route route usb && not (r.usb_publication_state == identity)))
      _ _ (λ _. closing-Refused r route g o)
      λ e. elim h [
        | inl a ↦ elim (not_both _ _ (posted_pending r a) e) [ ]
        | inr b ↦ published_usb-Refused r route g identity before after o b
      ]
