-- ===== src/HidRoute/Commit.antt =====
-- Taking and releasing a route, with the callbacks that preempt the writer. `interrupts` are the
-- callbacks that run at a point; the points are those where the source has its test hooks.
use s3_hidbot.Common.{
  ℕ, Bool, true, false, not, ◌&&◌, ◌||◌, ◌==◌, List, [], ◌∷◌, Option, some, none, if◌then◌else◌,
}
use s3_hidbot.HidRoute.Types.{
  OutputRoute, no_route, usb, ble, stable, releasing, Snapshot, Route, Claim, next, same_route,
  same_transition,
}
use s3_hidbot.HidRoute.Publication.{
  invalidation_pending, invalidation_pending_without_usb_publication, snapshot,
  publish_usb_lifecycle_veto, begin_usb_publication, finish_usb_publication, clear_usb_publication,
  bump_publication, try_enter_writer,
}
use s3_hidbot.HidRoute.Writer.{commit_none_locked, leave_writer_with_handoff}
use s3_hidbot.HidRoute.Invalidate.{
  invalidate, invalidate_if_matches, cancel_conditional_invalidation,
}
use s3_hidbot.HidRoute.Claims.{claim_invalidation_if_matches}

-- The public methods that a callback may call.
pub data Callback : Type 0 where
  invalidates vetoes : Callback
  invalidates_if : Snapshot → Callback
  claims : Snapshot → ℕ → Claim → Callback
  cancels : ℕ → ℕ → Callback

unfoldable pub call_back : Route → Callback → Route
call_back r invalidates = (invalidate r).0
call_back r vetoes = publish_usb_lifecycle_veto r
call_back r (invalidates_if expected) = (invalidate_if_matches r expected).0
call_back r (claims expected token claim) =
    (claim_invalidation_if_matches r expected token claim).route
call_back r (cancels generation token) = (cancel_conditional_invalidation r generation token).0

unfoldable pub interrupted : Route → List Callback → Route
interrupted r [] = r
interrupted r (c ∷ cs) = interrupted (call_back r c) cs

-- The last test of `commit_if_none`.
unfoldable pub committed_exactly : Route → OutputRoute → ℕ → Bool
unfolding snapshot
committed_exactly r route generation =
    let committed = snapshot r in
    committed.coherent
    && not committed.invalidation_pending
    && same_route committed.desired route
    && same_route committed.active route
    && committed.generation == generation
    && same_transition committed.transition stable

-- The publication of the route's members, without the sequence counter.
abbrev pub set_route : Route → OutputRoute → Route
set_route r route = record r { desired = route; active = route; transition = stable }

-- Behind the published route: end the USB publication, unless a callback was faster.
unfoldable pub finish_commit :
    Route → OutputRoute → ℕ → ℕ → List Callback → List Callback → Route × Bool
finish_commit r route generation identity before after =
    if same_route route usb
    then (let (finished, clean) = finish_usb_publication (interrupted r before) identity in
        if clean
        then (let left = leave_writer_with_handoff (interrupted finished after) in
            (left, committed_exactly left route generation))
        else (
          leave_writer_with_handoff
              (clear_usb_publication (commit_none_locked finished usb generation true).0),
          false,
        ))
    else (let left = leave_writer_with_handoff r in (left, committed_exactly left route generation))

-- Behind the published generation: give the epoch up if an invalidation has come, or set the route.
unfoldable pub publish_route :
    Route → OutputRoute → ℕ → ℕ → List Callback → List Callback → Route × Bool
publish_route r route generation identity before after =
    if invalidation_pending_without_usb_publication r
      || (same_route route usb && not (r.usb_publication_state == identity))
    then (let closed = bump_publication (set_route r no_route) in
        (
          leave_writer_with_handoff
              (if same_route route usb then clear_usb_publication closed else closed),
          false,
        ))
    else finish_commit (bump_publication (set_route r route)) route generation identity before after

-- The generation is published while the route is still none.
unfoldable pub publish_epoch :
    Route → OutputRoute → ℕ → List Callback → List Callback → List Callback → Route × Bool
publish_epoch r route identity during before after =
    let generation : ℕ = next r.generation in
    let published = record (bump_publication r) { generation = generation } in
    publish_route (interrupted published during) route generation identity before after

unfoldable pub commit_entered :
    Route → OutputRoute → ℕ → List Callback → List Callback → List Callback → Route × Bool
commit_entered r route expected_cut during before after =
    if invalidation_pending r
      || not (same_route r.desired no_route)
      || not (same_route r.active no_route)
      || not (same_transition r.transition stable)
    then (leave_writer_with_handoff r, false)
    else if same_route route usb
    then elim (begin_usb_publication r expected_cut) [
      | none ↦ (leave_writer_with_handoff r, false)
      | some (identity, begun) ↦ publish_epoch begun route identity during before after
    ]
    else publish_epoch r route 0 during before after

unfoldable pub commit_if_none :
    Route → OutputRoute → ℕ → List Callback → List Callback → List Callback → Route × Bool
commit_if_none r route expected_cut during before after =
    if same_route route no_route then (r, false) else elim (try_enter_writer r) [
      | none ↦ (r, false)
      | some entered ↦ commit_entered entered route expected_cut during before after
    ]

-- The new members, stage A, and the result.
unfoldable pub begin_release : Route → OutputRoute → List Callback → Route × Option Snapshot × Bool
begin_release r route entering = elim (try_enter_writer r) [
  | none ↦ (r, none, false)
  | some first ↦
      let entered = interrupted first entering in
      if invalidation_pending entered
        || not (same_route entered.desired route)
        || not (same_route entered.active route)
        || not (same_transition entered.transition stable)
      then (leave_writer_with_handoff entered, none, false)
      else (let staged =
            bump_publication
              (record (bump_publication entered) { desired = no_route; transition = releasing }) in
          let stage_a = snapshot staged in
          let left = leave_writer_with_handoff staged in
          let current = snapshot left in
          (
            left,
            some stage_a,
            stage_a.coherent
                && current.coherent
                && not current.invalidation_pending
                && same_route current.desired no_route
                && same_route current.active route
                && current.generation == stage_a.generation
                && same_transition current.transition releasing,
          ))
]

unfoldable pub complete_release : Route → OutputRoute → Snapshot → Route × Bool
complete_release r route expected = elim (try_enter_writer r) [
  | none ↦ (r, false)
  | some entered ↦
      if not (invalidation_pending entered)
        && same_route expected.desired no_route
        && same_route expected.active route
        && same_transition expected.transition releasing
        && same_route entered.desired no_route
        && same_route entered.active route
        && same_transition entered.transition releasing
        && entered.generation == expected.generation
      then (let left = leave_writer_with_handoff (
            bump_publication (record (bump_publication entered) {
              active = no_route;
              generation = next entered.generation;
              transition = stable;
            })) in
          (left, not (invalidation_pending left)))
      else (leave_writer_with_handoff entered, false)
]

-- The public methods of a route.
abbrev pub commit_usb_if_none_at :
    Route → ℕ → List Callback → List Callback → List Callback → Route × Bool
commit_usb_if_none_at r expected_cut = commit_if_none r usb expected_cut

abbrev pub commit_usb_if_none : Route → List Callback → List Callback → List Callback → Route × Bool
commit_usb_if_none r = commit_usb_if_none_at r r.usb_publication_state

abbrev pub commit_ble_if_none : Route → List Callback → List Callback → List Callback → Route × Bool
commit_ble_if_none r = commit_if_none r ble 0

abbrev pub begin_usb_release : Route → List Callback → Route × Option Snapshot × Bool
begin_usb_release r = begin_release r usb

abbrev pub begin_ble_release : Route → List Callback → Route × Option Snapshot × Bool
begin_ble_release r = begin_release r ble

abbrev pub complete_usb_release_if_matches : Route → Snapshot → Route × Bool
complete_usb_release_if_matches r = complete_release r usb

abbrev pub complete_ble_release_if_matches : Route → Snapshot → Route × Bool
complete_ble_release_if_matches r = complete_release r ble
