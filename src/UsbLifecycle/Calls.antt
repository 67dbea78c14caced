-- ===== src/UsbLifecycle/Calls.antt =====
-- The public methods that change the members, as one call type, and a history of calls.
use s3_hidbot.Common.{ℕ, ℤ, Bool, List, [], ◌∷◌, Option}
use s3_hidbot.UsbLifecycle.Types.{ExecutorAction, Snapshot, TransitionOutcome}
use s3_hidbot.UsbLifecycle.Members.{Machine}
use s3_hidbot.UsbLifecycle.Requests.{Schedule, Response, request_attach, request_detach}
use s3_hidbot.UsbLifecycle.Completions.{
  complete_install_success, complete_install_clean_failure, complete_install_ambiguous_failure,
  begin_uninstall, complete_uninstall_success, complete_uninstall_failure, begin_runtime_fault,
  update_runtime_fault, complete_runtime_fault,
}
use s3_hidbot.UsbLifecycle.Observations.{
  observe_mount, observe_unmount, observe_suspend, observe_resume, mark_release_pending,
  clear_release_pending_if_not_uncertain, mark_release_confirmed, mark_release_uncertain,
  mark_release_uncertain_for_generation,
}

pub data Call : Type 0 where
  attach detach : Call
  install_success uninstall_begins uninstall_success : Call
  install_clean_failure install_ambiguous_failure uninstall_failure : ℤ → Call
  fault_begins fault_updates : ℤ → Call
  fault_completes : Bool → Call
  mount unmount suspend resume : Call
  release_pending release_cleared release_confirmed release_uncertain : Call
  release_uncertain_for : ℕ → Call

-- What a method returns.
pub data Answer : Type 0 where
  done : Answer
  flagged : Bool → Answer
  numbered : ℕ → Answer
  responded : TransitionOutcome → Option (ExecutorAction × Snapshot) → Answer

abbrev pub answered : Response → Machine × Answer
answered r = (r.machine, responded r.outcome r.scheduled)

abbrev flags : Machine × Bool → Machine × Answer
flags (m, b) = (m, flagged b)

abbrev numbers : Machine × ℕ → Machine × Answer
numbers (m, n) = (m, numbered n)

unfoldable pub step : Schedule → Machine → Call → Machine × Answer
step schedule m attach = answered (request_attach schedule m)
step schedule m detach = answered (request_detach schedule m)
step schedule m install_success = (complete_install_success m, done)
step schedule m uninstall_begins = numbers (begin_uninstall m)
step schedule m uninstall_success = (complete_uninstall_success m, done)
step schedule m (install_clean_failure e) = (complete_install_clean_failure m e, done)
step schedule m (install_ambiguous_failure e) = (complete_install_ambiguous_failure m e, done)
step schedule m (uninstall_failure e) = (complete_uninstall_failure m e, done)
step schedule m (fault_begins e) = flags (begin_runtime_fault m e)
step schedule m (fault_updates e) = (update_runtime_fault m e, done)
step schedule m (fault_completes b) = (complete_runtime_fault m b, done)
step schedule m mount = flags (observe_mount m)
step schedule m unmount = flags (observe_unmount m)
step schedule m suspend = flags (observe_suspend m)
step schedule m resume = flags (observe_resume m)
step schedule m release_pending = (mark_release_pending m, done)
step schedule m release_cleared = flags (clear_release_pending_if_not_uncertain m)
step schedule m release_confirmed = (mark_release_confirmed m, done)
step schedule m release_uncertain = (mark_release_uncertain m, done)
step schedule m (release_uncertain_for g) = (mark_release_uncertain_for_generation m g, done)

unfoldable pub run : Schedule → Machine → List Call → Machine × List Answer
run schedule m [] = (m, [])
run schedule m (call ∷ calls) =
    let (m1, answer) = step schedule m call in
    let (m2, answers) = run schedule m1 calls in (m2, answer ∷ answers)
