-- ===== src/UsbSpec/Refine.antt =====
-- The packed machine does what the tables say.
use s3_hidbot.Common.{◌≡◌, refl, arith, true, ℤ, negsuc, some, none, List, [], ◌∷◌}
use s3_hidbot.UsbLifecycle.{
  Machine, Schedule, snapshot, begin_attach, request_attach, begin_detach, request_detach,
  hand_over, no_op_response, answered, step, Call, set_recovery_required, record_error,
  ExecutorAction, LifecycleOperation, attach, detach, run, initialize_hidden_boot_policy, encode,
  responded, no_op, install_success, uninstall_begins, uninstall_success, install_clean_failure,
  install_ambiguous_failure, uninstall_failure, fault_begins, fault_updates, fault_completes, mount,
  unmount, suspend, resume, release_pending, release_cleared, release_confirmed, release_uncertain,
  release_uncertain_for,
}
use s3_hidbot.UsbLifecycle.{
  is_uninstalling, complete_install_success, complete_install_clean_failure,
  complete_install_ambiguous_failure, begin_uninstall, complete_uninstall_success,
  complete_uninstall_failure, begin_runtime_fault, update_runtime_fault, complete_runtime_fault,
  observe_mount, observe_unmount, observe_suspend, observe_resume, mark_release_pending,
  clear_release_pending_if_not_uncertain, mark_release_confirmed, mark_release_uncertain,
  mark_release_uncertain_for_generation,
}
use s3_hidbot.UsbSpec.Packing.{pack, IsNamed, packing}
use s3_hidbot.UsbSpec.Lifecycle.{
  Lifecycle, cold, spec_run, report, attached, detached, offer, request, error_of, attach_verdict,
  detach_verdict, spec,
}

-- The members that stand for the fields.
unfoldable pub represent : Lifecycle → Machine
represent l = record {
  generation = l.generation;
  uncertainty_generation = l.uncertainty_generation;
  last_error_code = l.error.code;
  last_error_operation = l.error.operation;
  last_error_present = l.error.present;
  teardown_boundary_started = l.teardown;
  runtime_fault_pending = l.fault;
  state = pack l.wanted l.safety l.uncertain l.recovery l.observed;
}

abbrev IsPlain : Call → Type 0
IsPlain attach = ⊥
IsPlain detach = ⊥
IsPlain _ = Unit {0}

module _ (l : Lifecycle) (h : IsNamed l.observed) where
  pub snapshot-represent : snapshot (represent l) ≡ report l
  unfolding snapshot represent
  snapshot-represent = simp (packing, h)

  begin_attach-represent : begin_attach (represent l) ≡ represent (attached l)
  unfolding begin_attach represent
  begin_attach-represent = simp (packing, h, tt {0})

  begin_detach-represent : begin_detach (represent l) ≡ represent (detached l)
  unfolding begin_detach represent
  begin_detach-represent = simp (packing, h, tt {0})

  -- The calls without the executor, one clause of the tables each.
  plain-represent :
      (schedule : Schedule) (c : Call)
      → IsPlain c
      → step schedule (represent l) c ≡ (represent (spec schedule l c).0, (spec schedule l c).1)
  unfolding step spec represent complete_install_success begin_uninstall is_uninstalling
      complete_uninstall_success complete_install_clean_failure complete_install_ambiguous_failure
      complete_uninstall_failure begin_runtime_fault update_runtime_fault complete_runtime_fault
      observe_mount observe_unmount observe_suspend observe_resume mark_release_pending
      clear_release_pending_if_not_uncertain mark_release_confirmed mark_release_uncertain
      mark_release_uncertain_for_generation
  plain-represent schedule attach k = absurd k
  plain-represent schedule detach k = absurd k
  plain-represent schedule install_success k = simp (packing, h, tt {0}) (ground arith)
  plain-represent schedule uninstall_begins k = simp (packing, h) (ground arith)
  plain-represent schedule uninstall_success k = simp (packing, h, tt {0}) (ground arith)
  plain-represent schedule (install_clean_failure e) k = simp (packing, h, tt {0}) (ground arith)
  plain-represent schedule (install_ambiguous_failure e) k = simp (packing, h) (ground arith)
  plain-represent schedule (uninstall_failure e) k = simp (packing, h) (ground arith)
  plain-represent schedule (fault_begins e) k = simp (packing, h, tt {0}) (ground arith)
  plain-represent schedule (fault_updates e) k = ground arith
  plain-represent schedule (fault_completes b) k = simp (packing, h, tt {0}) (ground arith)
  plain-represent schedule mount k = simp (packing, h, tt {0}) (ground arith)
  plain-represent schedule unmount k = simp (packing, h, tt {0}) (ground arith)
  plain-represent schedule suspend k = simp (packing, h, tt {0}) (ground arith)
  plain-represent schedule resume k = simp (packing, h, tt {0}) (ground arith)
  plain-represent schedule release_pending k = simp (packing, h) (ground arith)
  plain-represent schedule release_cleared k = simp (packing, h) (ground arith)
  plain-represent schedule release_confirmed k = simp (packing, h) (ground arith)
  plain-represent schedule release_uncertain k = simp (packing, h) (ground arith)
  plain-represent schedule (release_uncertain_for g) k = simp (packing, h) (ground arith)

  record_failure-represent :
      (operation : LifecycleOperation) (code : ℤ)
      → set_recovery_required (record_error (represent l) operation code) true
        ≡ represent (record l { recovery = true; error = error_of operation code })
  unfolding set_recovery_required record_error represent
  record_failure-represent operation code = simp (packing, h)

  hand_over-represent :
      (schedule : Schedule) (action : ExecutorAction) (operation : LifecycleOperation)
      → answered (hand_over schedule action operation (represent l))
        ≡ (represent (offer schedule action operation l).0, (offer schedule action operation l).1)
  unfolding hand_over offer
  hand_over-represent schedule action operation =
      rw (snapshot-represent, record_failure-represent operation (negsuc 0)) (ground arith)

  no_op_response-represent :
      answered (no_op_response (represent l))
      ≡ (represent l, responded (record { action_result = no_op; snapshot = some (report l) }) none)
  unfolding no_op_response
  no_op_response-represent = rw snapshot-represent

module _ (l : Lifecycle) (h : IsNamed l.observed) (schedule : Schedule) where
  request_attach-represent :
      answered (request_attach schedule (represent l))
      ≡ (represent (spec schedule l attach).0, (spec schedule l attach).1)
  unfolding request_attach spec request attach_verdict represent
  request_attach-represent = rw (begin_attach-represent l h) (
      simp (packing, h)
        (ground (
          arith,
          no_op_response-represent l h,
          hand_over-represent (attached l) tt schedule ExecutorAction.install
              LifecycleOperation.install,
        )))

  request_detach-represent :
      answered (request_detach schedule (represent l))
      ≡ (represent (spec schedule l detach).0, (spec schedule l detach).1)
  unfolding request_detach spec request detach_verdict represent
  request_detach-represent = rw (begin_detach-represent l h) (
      simp (packing, h)
        (ground (
          arith,
          no_op_response-represent l h,
          hand_over-represent (detached l) tt schedule ExecutorAction.uninstall
              LifecycleOperation.uninstall,
        )))

-- Each method, on the members that stand for a state, gives the members that stand for the state of
-- the tables, and the answer of the tables.
pub step-represent :
    (schedule : Schedule) (l : Lifecycle) (c : Call)
    → IsNamed l.observed
    → step schedule (represent l) c ≡ (represent (spec schedule l c).0, (spec schedule l c).1)
unfolding step
step-represent schedule l attach h = request_attach-represent l h schedule
step-represent schedule l detach h = request_detach-represent l h schedule
step-represent schedule l c h = plain-represent l h schedule c tt

pub spec-IsNamed :
    (schedule : Schedule) (l : Lifecycle) (c : Call)
    → IsNamed l.observed
    → IsNamed (spec schedule l c).0.observed
unfolding spec request offer
spec-IsNamed schedule l attach h = ground arith
spec-IsNamed schedule l detach h = ground arith
spec-IsNamed schedule l c h = ground arith

pub run-represent :
    (schedule : Schedule) (l : Lifecycle) (calls : List Call)
    → IsNamed l.observed
    → run schedule (represent l) calls
      ≡ (represent (spec_run schedule l calls).0, (spec_run schedule l calls).1)
unfolding run spec_run
run-represent schedule l [] h = refl
run-represent schedule l (c ∷ calls) h = rw (
  step-represent schedule l c h,
  run-represent schedule (spec schedule l c).0 calls (spec-IsNamed schedule l c h),
)

boot-represent : (m : Machine) → initialize_hidden_boot_policy m ≡ represent cold
unfolding initialize_hidden_boot_policy represent pack encode
boot-represent m = refl

-- From a cold boot on, whatever the members held before it, any history of calls leaves the members
-- that stand for the state of the tables, and gives the answers of the tables.
pub run-cold_boot :
    (schedule : Schedule) (m : Machine) (calls : List Call)
    → run schedule (initialize_hidden_boot_policy m) calls
      ≡ (represent (spec_run schedule cold calls).0, (spec_run schedule cold calls).1)
run-cold_boot schedule m calls = rw (boot-represent m) (run-represent schedule cold calls tt)
