-- ===== src/RouteSafety/Examples.antt =====
-- The HID route's theorems at concrete histories.
use s3_hidbot.Common.{ℕ, ◌≡◌, ◌≢◌, refl, true, false, [], ◌∷◌, some, arith}
use s3_hidbot.HidRoute.{
  Route, Snapshot, initialize_cold_boot, no_conditional_token, conditional_publishing,
  allocate_conditional_token, no_route, usb, ble, stable, releasing, next, same_epoch, snapshot,
  matches, invalidates, vetoes, commit_if_none, commit_entered, publish_epoch, publish_route,
  finish_commit, interrupted, try_enter_writer, bump_publication, leave_writer_with_handoff,
  leave_writer, clear_superseded_conditional_invalidation_locked,
  process_durable_invalidation_locked, committed_exactly, invalidation_pending,
  invalidation_pending_without_usb_publication, begin_release, complete_release, invalidate,
  invalidate_if_matches,
}
use s3_hidbot.RouteSafety.Callbacks.{revokes}
use s3_hidbot.RouteSafety.Handoff.{AtRest}
use s3_hidbot.RouteSafety.Commit.{Committed, commit_if_none-Committed}
use s3_hidbot.RouteSafety.Refusal.{Refused, is_revoked}
use s3_hidbot.RouteSafety.Revoke.{commit_if_none-Refused}
use s3_hidbot.RouteSafety.Retire.{Retired, invalidate-Retired, invalidate_if_matches_exact}
use s3_hidbot.RouteSafety.Release.{Completed, complete_release-Completed}
use s3_hidbot.RouteSafety.Tokens.{allocate_conditional_token_finds}
use s3_hidbot.RouteSafety.TwoStages.{IsTaken, release_both_stages}

cold-AtRest : AtRest initialize_cold_boot
unfolding initialize_cold_boot
cold-AtRest = record {
  free = refl;
  even = refl;
  settled = refl;
  unpublished = refl;
  shaped = refl;
  bounded = ground arith;
}

-- The members after a route is taken for the first time.
abbrev taken : Route
taken = record initialize_cold_boot {
  publication_sequence = 2;
  generation = 1;
  desired = ble;
  active = ble;
}

abbrev taken_snapshot : Snapshot
taken_snapshot = record {
  desired = ble;
  active = ble;
  generation = 1;
  transition = stable;
  invalidation_pending = false;
  coherent = true;
}

ble_taken : commit_if_none initialize_cold_boot ble 0 [] [] [] ≡ (taken, true)
unfolding commit_if_none commit_entered publish_epoch publish_route finish_commit interrupted
    try_enter_writer bump_publication leave_writer_with_handoff leave_writer
    clear_superseded_conditional_invalidation_locked process_durable_invalidation_locked
    committed_exactly invalidation_pending initialize_cold_boot
    invalidation_pending_without_usb_publication snapshot
ble_taken = refl

taken-AtRest : AtRest taken
unfolding initialize_cold_boot
taken-AtRest = record {
  free = refl;
  even = refl;
  settled = refl;
  unpublished = refl;
  shaped = refl;
  bounded = ground arith;
}

taken-IsTaken : IsTaken ble taken
unfolding initialize_cold_boot
taken-IsTaken = record {
  rest = taken-AtRest;
  active = refl;
  some_route = ground arith;
  transition = refl;
  quiet = refl;
}

commit_if_none-Committed_example :
    Committed usb
      (next initialize_cold_boot.generation)
      (commit_if_none initialize_cold_boot usb 0 (vetoes ∷ []) (invalidates ∷ []) [])
commit_if_none-Committed_example =
    commit_if_none-Committed initialize_cold_boot usb 0 (vetoes ∷ []) (invalidates ∷ []) []
      cold-AtRest

commit_if_none-Refused_example :
    Refused (commit_if_none initialize_cold_boot usb 0 [] (vetoes ∷ []) (invalidates ∷ []))
unfolding is_revoked revokes initialize_cold_boot
commit_if_none-Refused_example =
    commit_if_none-Refused initialize_cold_boot usb 0 [] (vetoes ∷ []) (invalidates ∷ [])
      cold-AtRest refl refl

invalidate-Retired_example : Retired taken (invalidate taken)
invalidate-Retired_example = invalidate-Retired taken taken-AtRest

invalidate_if_matches_exact_example :
    (same_epoch (snapshot taken) taken_snapshot ≡ true
      → Retired taken (invalidate_if_matches taken taken_snapshot))
    × (same_epoch (snapshot taken) taken_snapshot ≡ false
        → invalidate_if_matches taken taken_snapshot ≡ (taken, false))
invalidate_if_matches_exact_example =
    invalidate_if_matches_exact taken taken_snapshot taken-AtRest refl (ground arith)

-- The members between the two stages of a release.
abbrev staged : Route
staged = record taken { publication_sequence = 4; desired = no_route; transition = releasing }

abbrev staged_snapshot : Snapshot
staged_snapshot = record taken_snapshot { desired = no_route; transition = releasing }

staged-AtRest : AtRest staged
unfolding initialize_cold_boot
staged-AtRest = record {
  free = refl;
  even = refl;
  settled = refl;
  unpublished = refl;
  shaped = (refl, ground arith);
  bounded = ground arith;
}

complete_release-Completed_example :
    Completed staged ble staged_snapshot (complete_release staged ble staged_snapshot)
complete_release-Completed_example =
    complete_release-Completed staged ble staged_snapshot staged-AtRest

release_both_stages_example :
    (q : Route) × (s : Snapshot) × (begin_release taken ble [] ≡ (q, some s, true))
    × (matches q ble taken.generation ≡ true)
    × ((complete_release q ble s).1 ≡ true)
    × ((complete_release q ble s).0.active ≡ no_route)
    × ((complete_release q ble s).0.generation ≡ next taken.generation)
    × ((complete_release (invalidate q).0 ble s).1 ≡ false)
release_both_stages_example = release_both_stages taken ble taken-IsTaken

-- The counter stands before the two reserved values.
abbrev wrapping : Route
wrapping = record initialize_cold_boot { next_conditional_token = conditional_publishing }

allocate_conditional_token_finds_example :
    (token : ℕ) × (allocate_conditional_token wrapping ≡ some (token, next token))
    × (token ≢ no_conditional_token)
    × (token ≢ conditional_publishing)
allocate_conditional_token_finds_example = allocate_conditional_token_finds wrapping
