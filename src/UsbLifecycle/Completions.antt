-- ===== src/UsbLifecycle/Completions.antt =====
-- What the lifecycle executor reports: the ends of install and uninstall, and runtime faults.
use s3_hidbot.Common.{ℕ, ℤ, Bool, true, false, not, ◌&&◌, if◌then◌else◌}
use s3_hidbot.UsbLifecycle.Types.{
  DesiredExposure, hidden, exposed, driver_not_installed, disconnected, attaching, detaching,
  LifecycleOperation,
}
use s3_hidbot.UsbLifecycle.Bits.{
  byte, with_observed, set_bits, clear_bits, desired_bit, safety_pending_bit,
}
use s3_hidbot.UsbLifecycle.Members.{
  Machine, advance_generation, desired, observed, set_observed, set_recovery_required, record_error,
}
use s3_hidbot.UsbLifecycle.Requests.{same}

abbrev pub is_exposed : DesiredExposure → Bool
is_exposed hidden = false
is_exposed exposed = true

-- `desired() == kExposed && observed() == kAttaching`.
unfoldable pub is_installing : Machine → Bool
unfolding desired observed
is_installing m = is_exposed (desired m) && same (observed m) attaching

-- `desired() == kHidden && observed() == kDetaching`.
unfoldable pub is_uninstalling : Machine → Bool
unfolding desired observed
is_uninstalling m = not (is_exposed (desired m)) && same (observed m) detaching

unfoldable pub complete_install_success : Machine → Machine
unfolding is_installing set_observed set_recovery_required
complete_install_success m =
    if is_installing m then set_observed (set_recovery_required m false) disconnected else m

unfoldable pub complete_install_clean_failure : Machine → ℤ → Machine
unfolding is_installing set_observed set_recovery_required record_error
complete_install_clean_failure m error_code =
    if is_installing m
    then set_observed
        (set_recovery_required (record_error m LifecycleOperation.install error_code) false)
        driver_not_installed
    else m

unfoldable pub complete_install_ambiguous_failure : Machine → ℤ → Machine
unfolding is_installing set_recovery_required record_error
complete_install_ambiguous_failure m error_code =
    if is_installing m
    then set_recovery_required (record_error m LifecycleOperation.install error_code) true
    else m

-- `exchange` sets the flag whenever the guards before it hold.
unfoldable pub begin_uninstall : Machine → Machine × ℕ
unfolding advance_generation
begin_uninstall m = (after, after.generation)
  where
    after : Machine
    after =
        if is_uninstalling m
        then (if m.teardown_boundary_started
            then m
            else advance_generation (record m { teardown_boundary_started = true }))
        else m

unfoldable pub complete_uninstall_success : Machine → Machine
unfolding is_uninstalling set_observed set_recovery_required
complete_uninstall_success m =
    if is_uninstalling m
    then set_observed (set_recovery_required m false) driver_not_installed
    else m

unfoldable pub complete_uninstall_failure : Machine → ℤ → Machine
unfolding is_uninstalling set_recovery_required record_error
complete_uninstall_failure m error_code =
    if is_uninstalling m
    then set_recovery_required (record_error m LifecycleOperation.uninstall error_code) true
    else m

unfoldable pub begin_runtime_fault : Machine → ℤ → Machine × Bool
unfolding record_error
begin_runtime_fault m error_code = if m.runtime_fault_pending then (m, false) else (
  record (record_error m LifecycleOperation.runtime error_code) {
    runtime_fault_pending = true;
    teardown_boundary_started = false;
    state =
        with_observed (byte (set_bits (clear_bits m.state desired_bit) safety_pending_bit))
          detaching;
  },
  true,
)

unfoldable pub update_runtime_fault : Machine → ℤ → Machine
unfolding record_error
update_runtime_fault m error_code =
    if m.runtime_fault_pending then record_error m LifecycleOperation.runtime error_code else m

unfoldable pub complete_runtime_fault : Machine → Bool → Machine
unfolding set_observed set_recovery_required
complete_runtime_fault m driver_uninstalled =
    if m.runtime_fault_pending
    then (let stopped = set_recovery_required m true in
        if driver_uninstalled then set_observed stopped driver_not_installed else stopped)
    else m
