-- ===== src/RouteSafety/Revoke.antt =====
-- An invalidation that comes while a route is being taken is not lost.
use s3_hidbot.Common.{
  ℕ, ◌≡◌, refl, ap, ◌∙◌, inl, inr, true, false, List, Option-cases, none, some, arith, if_holds,
  not, ◌||◌, if◌then◌else◌,
}
use s3_hidbot.HidRoute.{
  Route, OutputRoute, no_route, usb, ble, Transition, stable, releasing, next, same_route,
  same_transition, Callback, interrupted, publish_epoch, commit_entered, commit_if_none,
  leave_writer_with_handoff, bump_publication, invalidation_pending, begin_usb_publication,
  try_enter_writer, usb_flags,
}
use s3_hidbot.RouteSafety.Callbacks.{revokes, interrupted-revoked}
use s3_hidbot.RouteSafety.Handoff.{IsShaped, AtRest}
use s3_hidbot.RouteSafety.Published.{
  IsOpen, Entered, interrupted-Opened, publish_epoch-Opened, begin-Entered, Entered-CanLeave,
  enter-Entered,
}
use s3_hidbot.RouteSafety.Refusal.{Refused, is_revoked, none-Refused, either, publish_route-Refused}

publish_epoch-Refused :
    (r : Route) (route : OutputRoute) (identity : ℕ) (during before after : List Callback)
    → Entered r
    → IsOpen route r.usb_publication_state
    → is_revoked route during before after ≡ true
    → Refused (publish_epoch r route identity during before after)
unfolding publish_epoch is_revoked
publish_epoch-Refused r route identity during before after e u h =
    let q = record (bump_publication r) { generation = next r.generation } in
    let o = publish_epoch-Opened r route e u in
    publish_route-Refused (interrupted q during) route (next r.generation) identity before after
      (interrupted-Opened route _ q during o)
      (elim (either (revokes during) _ h) [
        | inl d ↦ inl (interrupted-revoked q during o.written d)
        | inr b ↦ inr b
      ])

pub none_wanted :
    (d u : OutputRoute) (t : Transition) → IsShaped d u t → u ≡ no_route → d ≡ no_route
none_wanted d u stable h n = h ∙ n
none_wanted d u releasing h n = h.0

pub enter_active : (r q : Route) → try_enter_writer r ≡ some q → q.active ≡ r.active
unfolding try_enter_writer
enter_active r q h = ground arith

pub waiting-Refused :
    (r : Route)
    → Entered r
    → usb_flags r.usb_publication_state ≡ 0
    → r.active ≡ no_route
    → Refused (leave_writer_with_handoff r, false)
waiting-Refused r e u n = none-Refused r (Entered-CanLeave r e u) n (none_wanted _ _ _ e.shaped n)

commit_begun-Refused :
    (r : Route) (route : OutputRoute) (cut : ℕ) (during before after : List Callback)
    → Entered r
    → usb_flags r.usb_publication_state ≡ 0
    → r.active ≡ no_route
    → is_revoked route during before after ≡ true
    → Refused (
        if same_route route usb
        then elim (begin_usb_publication r cut) [
          | none ↦ (leave_writer_with_handoff r, false)
          | some (identity, begun) ↦ publish_epoch begun route identity during before after
        ]
        else publish_epoch r route 0 during before after)
commit_begun-Refused r no_route cut during before after e u n h =
    publish_epoch-Refused r no_route 0 during before after e u h
commit_begun-Refused r ble cut during before after e u n h =
    publish_epoch-Refused r ble 0 during before after e u h
commit_begun-Refused r usb cut during before after e u n h =
    elim (Option-cases (begin_usb_publication r cut)) [
      | inl b ↦ rw b (waiting-Refused r e u n)
      | inr ((identity, begun), b) ↦
          let (f, w, g) = begin-Entered r begun cut identity e b in
          rw b (publish_epoch-Refused begun usb identity during before after f w h)
    ]

commit_waiting-Refused :
    (r : Route) (route : OutputRoute) (cut : ℕ) (during before after : List Callback)
    → Entered r
    → usb_flags r.usb_publication_state ≡ 0
    → r.active ≡ no_route
    → is_revoked route during before after ≡ true
    → Refused (commit_entered r route cut during before after)
unfolding commit_entered
commit_waiting-Refused r route cut during before after e u n h =
    if_holds Refused
      (invalidation_pending r
        || not (same_route r.desired no_route)
        || not (same_route r.active no_route)
        || not (same_transition r.transition stable))
      _ _ (λ _. waiting-Refused r e u n)
      λ _. commit_begun-Refused r route cut during before after e u n h

-- An attempt to take a route, from rest with no route, fails and leaves no route, when a call of
-- `invalidate` preempts it while the new epoch is published without its route, or, for USB, at a later
-- point before the writer has left.
pub commit_if_none-Refused :
    (r : Route) (route : OutputRoute) (cut : ℕ) (during before after : List Callback)
    → AtRest r
    → r.active ≡ no_route
    → is_revoked route during before after ≡ true
    → Refused (commit_if_none r route cut during before after)
unfolding commit_if_none
commit_if_none-Refused r route cut during before after a n h =
    if_holds Refused (same_route route no_route) _ _ (λ _. resting)
      λ _. elim (Option-cases (try_enter_writer r)) [
        | inl b ↦ rw b resting
        | inr (q, b) ↦
            let (e, w, g) = enter-Entered r q a b in
            rw b (
              commit_waiting-Refused q route cut during before after e
                (ap usb_flags w ∙ a.unpublished) (enter_active r q b ∙ n) h)
      ]
  where
    resting : Refused (r, false)
    resting = record { result = refl; desired = none_wanted _ _ _ a.shaped n; active = n }
