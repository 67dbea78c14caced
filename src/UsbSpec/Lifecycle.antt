-- ===== src/UsbSpec/Lifecycle.antt =====
-- What usb_lifecycle promises, over plain fields: tables of the transitions instead of masks.
use s3_hidbot.Common.{
  ℕ, ℤ, pos, negsuc, Bool, true, false, not, ◌&&◌, some, none, List, [], ◌∷◌, if◌then◌else◌,
}
use s3_hidbot.UsbLifecycle.{
  ObservedState, driver_not_installed, disconnected, attaching, mounted, suspended, detaching,
  ExecutorAction, accepted, no_op, LifecycleOperation, LastError, Snapshot, exposure,
  next_generation, rejected, Schedule, Call, attach, detach, install_success, uninstall_begins,
  uninstall_success, install_clean_failure, install_ambiguous_failure, uninstall_failure,
  fault_begins, fault_updates, fault_completes, mount, unmount, suspend, resume, release_pending,
  release_cleared, release_confirmed, release_uncertain, release_uncertain_for, Answer, done,
  flagged, numbered, responded,
}

pub record Lifecycle : Type 0 where
  pub wanted : Bool
  pub observed : ObservedState
  pub safety : Bool
  pub uncertain : Bool
  pub recovery : Bool
  pub generation : ℕ
  pub uncertainty_generation : ℕ
  pub error : LastError
  pub teardown : Bool
  pub fault : Bool

abbrev pub no_error : LastError
no_error = record { present = false; operation = LifecycleOperation.install; code = pos 0 }

abbrev pub error_of : LifecycleOperation → ℤ → LastError
error_of operation code = record { present = true; operation = operation; code = code }

abbrev pub report : Lifecycle → Snapshot
report l = record {
  desired = exposure l.wanted;
  observed = l.observed;
  generation = l.generation;
  uncertainty_generation = l.uncertainty_generation;
  safety_pending = l.safety;
  host_release_uncertain = l.uncertain;
  recovery_required = l.recovery;
  last_error = l.error;
}

abbrev pub cold : Lifecycle
cold = record {
  wanted = false;
  observed = driver_not_installed;
  safety = false;
  uncertain = false;
  recovery = false;
  generation = 0;
  uncertainty_generation = 0;
  error = no_error;
  teardown = false;
  fault = false;
}

pub data Verdict : Type 0 where
  refuse stay go : Verdict

-- By recovery, desired exposure and observed state.
unfoldable pub attach_verdict : Bool → Bool → ObservedState → Verdict
attach_verdict r w detaching = refuse
attach_verdict true w _ = refuse
attach_verdict false w driver_not_installed = go
attach_verdict false true _ = stay
attach_verdict false false _ = refuse

unfoldable pub detach_verdict : Bool → Bool → ObservedState → Verdict
detach_verdict r w attaching = refuse
detach_verdict r false driver_not_installed = stay
detach_verdict r false detaching = stay
detach_verdict r false _ = refuse
detach_verdict r true driver_not_installed = refuse
detach_verdict true true _ = refuse
detach_verdict false true _ = go

abbrev pub attached : Lifecycle → Lifecycle
attached l = record l {
  wanted = true;
  observed = attaching;
  recovery = false;
  error = no_error;
  teardown = false;
  generation = next_generation l.generation;
}

abbrev pub detached : Lifecycle → Lifecycle
detached l = record l { wanted = false; observed = detaching; safety = true; error = no_error }

-- The executor takes the new state or refuses it.
unfoldable pub offer :
    Schedule → ExecutorAction → LifecycleOperation → Lifecycle → Lifecycle × Answer
offer schedule action operation l =
    if schedule action (report l)
    then (
      l,
      responded (record { action_result = accepted; snapshot = some (report l) })
          (some (action, report l)),
    )
    else (
      record l { recovery = true; error = error_of operation (negsuc 0) },
      responded rejected (some (action, report l)),
    )

unfoldable pub request :
    Schedule
    → ExecutorAction
    → LifecycleOperation
    → Verdict
    → Lifecycle
    → Lifecycle
    → Lifecycle × Answer
unfolding offer
request schedule action operation refuse l next = (l, responded rejected none)
request schedule action operation stay l next =
    (l, responded (record { action_result = no_op; snapshot = some (report l) }) none)
request schedule action operation go l next = offer schedule action operation next

abbrev pub is_attaching : ObservedState → Bool
is_attaching attaching = true
is_attaching _ = false

abbrev pub is_detaching : ObservedState → Bool
is_detaching detaching = true
is_detaching _ = false

abbrev pub is_disconnected : ObservedState → Bool
is_disconnected disconnected = true
is_disconnected _ = false

abbrev pub is_mounted : ObservedState → Bool
is_mounted mounted = true
is_mounted _ = false

abbrev pub is_suspended : ObservedState → Bool
is_suspended suspended = true
is_suspended _ = false

-- A change that is made under a condition.
abbrev when : Bool → Lifecycle → Lifecycle → Lifecycle
when b new old = if b then new else old

abbrev noticed : Bool → Lifecycle → Lifecycle → Lifecycle × Answer
noticed b new old = if b then (new, flagged true) else (old, flagged false)

unfoldable pub spec : Schedule → Lifecycle → Call → Lifecycle × Answer
spec schedule l attach =
    request schedule ExecutorAction.install LifecycleOperation.install
      (attach_verdict l.recovery l.wanted l.observed) l (attached l)
spec schedule l detach =
    request schedule ExecutorAction.uninstall LifecycleOperation.uninstall
      (detach_verdict l.recovery l.wanted l.observed) l (detached l)
spec schedule l install_success = (
  when (l.wanted && is_attaching l.observed)
      (record l { recovery = false; observed = disconnected }) l,
  done,
)
spec schedule l (install_clean_failure e) = (
  when (l.wanted && is_attaching l.observed)
      (record l {
        recovery = false;
        observed = driver_not_installed;
        error = error_of LifecycleOperation.install e;
      })
      l,
  done,
)
spec schedule l (install_ambiguous_failure e) = (
  when (l.wanted && is_attaching l.observed)
      (record l { recovery = true; error = error_of LifecycleOperation.install e }) l,
  done,
)
spec schedule l uninstall_begins =
    (let after =
        when (not l.wanted && is_detaching l.observed && not l.teardown)
          (record l { teardown = true; generation = next_generation l.generation }) l in
      (after, numbered after.generation))
spec schedule l uninstall_success = (
  when (not l.wanted && is_detaching l.observed)
      (record l { recovery = false; observed = driver_not_installed }) l,
  done,
)
spec schedule l (uninstall_failure e) = (
  when (not l.wanted && is_detaching l.observed)
      (record l { recovery = true; error = error_of LifecycleOperation.uninstall e }) l,
  done,
)
spec schedule l (fault_begins e) =
    noticed (not l.fault)
      (record l {
        wanted = false;
        observed = detaching;
        safety = true;
        error = error_of LifecycleOperation.runtime e;
        teardown = false;
        fault = true;
      })
      l
spec schedule l (fault_updates e) =
    (when l.fault (record l { error = error_of LifecycleOperation.runtime e }) l, done)
spec schedule l (fault_completes b) = (
  when l.fault
      (record l { recovery = true; observed = if b then driver_not_installed else l.observed }) l,
  done,
)
spec schedule l mount =
    noticed (l.wanted && not (is_detaching l.observed) && not l.recovery)
      (record l { observed = mounted }) l
spec schedule l unmount =
    noticed (l.wanted && not (is_detaching l.observed) && not l.recovery)
      (record l {
        observed = disconnected;
        generation =
            if is_disconnected l.observed then l.generation else next_generation l.generation;
      })
      l
spec schedule l suspend =
    noticed (l.wanted && is_mounted l.observed && not l.recovery)
      (record l { observed = suspended }) l
spec schedule l resume =
    noticed (l.wanted && is_suspended l.observed && not l.recovery)
      (record l { observed = mounted }) l
spec schedule l release_pending = (record l { safety = true }, done)
spec schedule l release_cleared = noticed (not l.uncertain) (record l { safety = false }) l
spec schedule l release_confirmed =
    (record l { safety = false; uncertain = false; uncertainty_generation = 0 }, done)
spec schedule l release_uncertain =
    (record l { safety = true; uncertain = true; uncertainty_generation = l.generation }, done)
spec schedule l (release_uncertain_for g) =
    (record l { safety = true; uncertain = true; uncertainty_generation = g }, done)

unfoldable pub spec_run : Schedule → Lifecycle → List Call → Lifecycle × List Answer
spec_run schedule l [] = (l, [])
spec_run schedule l (call ∷ calls) =
    let (l1, answer) = spec schedule l call in
    let (l2, answers) = spec_run schedule l1 calls in (l2, answer ∷ answers)
