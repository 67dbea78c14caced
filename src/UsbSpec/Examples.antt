-- ===== src/UsbSpec/Examples.antt =====
-- The USB lifecycle's theorems at concrete histories.
use s3_hidbot.Common.{pos, negsuc, ◌≡◌, refl, true, false, List, [], ◌∷◌, if◌then◌else◌}
use s3_hidbot.UsbLifecycle.{
  Machine, Schedule, Call, attach, detach, install_success, uninstall_begins, uninstall_success,
  mount, initialize_hidden_boot_policy, step, run, snapshot, accepts_hid, begin_runtime_fault,
  complete_runtime_fault, begin_uninstall, is_uninstalling, next_generation, hidden,
  driver_not_installed, LifecycleOperation, request_attach, request_detach, encode, hand_over,
  begin_attach, begin_detach, has, observed_of, with_observed, clear_bits, set_bits,
  complete_install_success, observe_mount,
}
use s3_hidbot.UsbSpec.Lifecycle.{cold, spec_run}
use s3_hidbot.UsbSpec.Refine.{represent, run-cold_boot}
use s3_hidbot.UsbSpec.Safety.{IsConsistent, booted, booted-IsConsistent}
use s3_hidbot.UsbSpec.Faults.{begin_runtime_fault_closes, complete_runtime_fault_locks}
use s3_hidbot.UsbSpec.Teardown.{begin_uninstall_once}

-- An executor with room.
abbrev roomy : Schedule
roomy action s = true

-- Members as a warm restart might leave them.
abbrev stale : Machine
stale = record {
  generation = 7;
  uncertainty_generation = 3;
  last_error_code = negsuc 0;
  last_error_operation = LifecycleOperation.runtime;
  last_error_present = true;
  teardown_boundary_started = true;
  runtime_fault_pending = true;
  state = 255;
}

abbrev plugged : List Call
plugged = attach ∷ install_success ∷ mount ∷ []

abbrev unplugging : List Call
unplugging = attach ∷ install_success ∷ mount ∷ detach ∷ []

-- Opened, it opens what the runs below go through.
running : Machine
unfolding run step initialize_hidden_boot_policy encode request_attach hand_over begin_attach
    request_detach begin_detach complete_install_success observe_mount begin_runtime_fault
    is_uninstalling snapshot has observed_of with_observed clear_bits set_bits
running = booted roomy stale plugged

plugged_accepts : accepts_hid (booted roomy stale plugged) true ≡ true
unfolding running accepts_hid
plugged_accepts = refl

run-cold_boot_example :
    run roomy (initialize_hidden_boot_policy stale) plugged
    ≡ (represent (spec_run roomy cold plugged).0, (spec_run roomy cold plugged).1)
run-cold_boot_example = run-cold_boot roomy stale plugged

booted-IsConsistent_example : IsConsistent (snapshot (booted roomy stale unplugging))
booted-IsConsistent_example = booted-IsConsistent roomy stale unplugging

begin_runtime_fault_closes_example :
    accepts_hid
      (run roomy (begin_runtime_fault (booted roomy stale plugged) (pos 9)).0 (mount ∷ [])).0
      true
    ≡ false
unfolding running
begin_runtime_fault_closes_example =
    begin_runtime_fault_closes roomy stale plugged (mount ∷ []) (pos 9) true refl (λ e. e, tt)

complete_runtime_fault_locks_example :
    (let n =
        (run roomy (begin_runtime_fault (booted roomy stale plugged) (pos 9)).0 (mount ∷ [])).0 in
      let z = (run roomy (complete_runtime_fault n true) plugged).0 in
      (accepts_hid z true ≡ false)
      × ((snapshot z).desired ≡ hidden)
      × ((snapshot z).observed ≡ driver_not_installed)
      × ((snapshot z).recovery_required ≡ true))
unfolding running
complete_runtime_fault_locks_example =
    complete_runtime_fault_locks roomy stale plugged (mount ∷ []) plugged (pos 9) true refl
      (λ e. e, tt)

begin_uninstall_once_example :
    (let n = booted roomy stale unplugging in
      ((begin_uninstall n).1
        ≡ (if n.teardown_boundary_started then n.generation else next_generation n.generation))
      × ((run roomy (begin_uninstall n).0 (uninstall_begins ∷ uninstall_success ∷ [])).0.generation
          ≡ (begin_uninstall n).1))
unfolding running
begin_uninstall_once_example =
    begin_uninstall_once roomy stale unplugging (uninstall_begins ∷ uninstall_success ∷ []) refl
      (λ e. e, (λ e. e, tt))
