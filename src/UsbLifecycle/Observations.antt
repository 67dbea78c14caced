-- ===== src/UsbLifecycle/Observations.antt =====
-- What the TinyUSB callbacks observe, the safety accounting, and the readers of a snapshot.
use s3_hidbot.Common.{ℕ, Bool, true, false, not, ◌&&◌, ◌||◌, ◌==◌, if◌then◌else◌}
use s3_hidbot.UsbLifecycle.Types.{disconnected, mounted, suspended, detaching}
use s3_hidbot.UsbLifecycle.Bits.{has, set_bits, clear_bits, safety_pending_bit, uncertain_bit}
use s3_hidbot.UsbLifecycle.Members.{
  Machine, advance_generation, desired, observed, set_observed, snapshot,
}
use s3_hidbot.UsbLifecycle.Requests.{same}
use s3_hidbot.UsbLifecycle.Completions.{is_exposed}

unfoldable pub observe_mount : Machine → Machine × Bool
unfolding desired observed set_observed snapshot
observe_mount m =
    if not (is_exposed (desired m)) || same (observed m) detaching || (snapshot m).recovery_required
    then (m, false)
    else (set_observed m mounted, true)

unfoldable pub observe_unmount : Machine → Machine × Bool
unfolding desired observed set_observed snapshot advance_generation
observe_unmount m =
    if not (is_exposed (desired m)) || same (observed m) detaching || (snapshot m).recovery_required
    then (m, false)
    else (
      if same (observed m) disconnected
          then set_observed m disconnected
          else set_observed (advance_generation m) disconnected,
      true,
    )

unfoldable pub observe_suspend : Machine → Machine × Bool
unfolding desired observed set_observed snapshot
observe_suspend m =
    if not (is_exposed (desired m))
      || not (same (observed m) mounted)
      || (snapshot m).recovery_required
    then (m, false)
    else (set_observed m suspended, true)

unfoldable pub observe_resume : Machine → Machine × Bool
unfolding desired observed set_observed snapshot
observe_resume m =
    if not (is_exposed (desired m))
      || not (same (observed m) suspended)
      || (snapshot m).recovery_required
    then (m, false)
    else (set_observed m mounted, true)

-- `kSafetyPendingBit | kUncertainBit`.
abbrev pub both_bits : ℕ
both_bits = 6

unfoldable pub mark_release_pending : Machine → Machine
mark_release_pending m = record m { state = set_bits m.state safety_pending_bit }

unfoldable pub clear_release_pending_if_not_uncertain : Machine → Machine × Bool
clear_release_pending_if_not_uncertain m =
    if has m.state uncertain_bit
    then (m, false)
    else (record m { state = clear_bits m.state safety_pending_bit }, true)

unfoldable pub mark_release_confirmed : Machine → Machine
mark_release_confirmed m = record m {
  state = clear_bits m.state both_bits;
  uncertainty_generation = 0;
}

unfoldable pub mark_release_uncertain_for_generation : Machine → ℕ → Machine
mark_release_uncertain_for_generation m generation = record m {
  state = set_bits m.state both_bits;
  uncertainty_generation = generation;
}

unfoldable pub mark_release_uncertain : Machine → Machine
unfolding mark_release_uncertain_for_generation
mark_release_uncertain m = mark_release_uncertain_for_generation m m.generation

unfoldable pub accepts_hid : Machine → Bool → Bool
accepts_hid m endpoint_ready =
    let current = snapshot m in
    not current.recovery_required
    && is_exposed current.desired
    && same current.observed mounted
    && endpoint_ready

unfoldable pub has_unresolved_prior_generation : Machine → Bool
unfolding snapshot
has_unresolved_prior_generation m =
    let current = snapshot m in
    current.host_release_uncertain && not (current.uncertainty_generation == current.generation)
