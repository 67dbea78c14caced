-- ===== src/UsbSpec/Faults.antt =====
-- Runtime faults and teardown: what stays closed, and what is counted once.
use s3_hidbot.Common.{ℤ, ◌≡◌, ap, sym, subst, ◌∙◌, Bool, true, false, List, [], ◌∷◌, arith}
use s3_hidbot.UsbLifecycle.{
  Machine, driver_not_installed, hidden, Schedule, Call, attach, fault_begins, fault_completes,
  snapshot, exposure, accepts_hid, begin_runtime_fault, complete_runtime_fault, step, run,
}
use s3_hidbot.UsbSpec.Packing.{IsNamed}
use s3_hidbot.UsbSpec.Lifecycle.{
  Lifecycle, report, spec, spec_run, request, offer, attach_verdict, detach_verdict,
}
use s3_hidbot.UsbSpec.Safety.{booted, snapshot-booted}
use s3_hidbot.UsbSpec.Refine.{represent, snapshot-represent, step-represent, run-represent}

accepts_hid-represent :
    (l : Lifecycle) (ready : Bool)
    → IsNamed l.observed
    → l.wanted ≡ false
    → accepts_hid (represent l) ready ≡ false
unfolding accepts_hid
accepts_hid-represent l ready h w = rw (snapshot-represent l h) (ground arith)

abbrev pub IsAttach : Call → Type 0
IsAttach attach = Unit {0}
IsAttach _ = ⊥

abbrev pub NoAttach : List Call → Type 0
NoAttach [] = Unit {0}
NoAttach (c ∷ calls) = (¬ IsAttach c) × NoAttach calls

-- A faulted device that is not wanted any more.
record IsFaulted (l : Lifecycle) : Type 0 where
  named : IsNamed l.observed
  unwanted : l.wanted ≡ false
  faulted : l.fault ≡ true

spec-IsFaulted :
    (schedule : Schedule) (l : Lifecycle) (c : Call)
    → ¬ IsAttach c
    → IsFaulted l
    → IsFaulted (spec schedule l c).0
unfolding spec request offer detach_verdict
spec-IsFaulted schedule l attach n v = absurd (n tt)
spec-IsFaulted schedule l c n v = grind arith

spec_run-IsFaulted :
    (schedule : Schedule) (l : Lifecycle) (calls : List Call)
    → NoAttach calls
    → IsFaulted l
    → IsFaulted (spec_run schedule l calls).0
unfolding spec_run
spec_run-IsFaulted schedule l [] n v = v
spec_run-IsFaulted schedule l (c ∷ calls) n v =
    spec_run-IsFaulted schedule (spec schedule l c).0 calls n.1 (spec-IsFaulted schedule l c n.0 v)

-- A runtime fault whose driver is gone.
record IsLocked (l : Lifecycle) : Type 0 where
  unwanted : l.wanted ≡ false
  absent : l.observed ≡ driver_not_installed
  stuck : l.recovery ≡ true
  faulted : l.fault ≡ true

spec-IsLocked :
    (schedule : Schedule) (l : Lifecycle) (c : Call) → IsLocked l → IsLocked (spec schedule l c).0
unfolding spec request offer attach_verdict detach_verdict
spec-IsLocked schedule l attach v = ground arith
spec-IsLocked schedule l c v = ground arith

spec_run-IsLocked :
    (schedule : Schedule) (l : Lifecycle) (calls : List Call)
    → IsLocked l
    → IsLocked (spec_run schedule l calls).0
unfolding spec_run
spec_run-IsLocked schedule l [] v = v
spec_run-IsLocked schedule l (c ∷ calls) v =
    spec_run-IsLocked schedule (spec schedule l c).0 calls (spec-IsLocked schedule l c v)

IsNamed-of_locked : (l : Lifecycle) → IsLocked l → IsNamed l.observed
IsNamed-of_locked l v = subst IsNamed (sym v.absent) tt

-- The run of a state is the run of the tables.
run-state :
    (schedule : Schedule) (l : Lifecycle) (calls : List Call)
    → IsNamed l.observed
    → (run schedule (represent l) calls).0 ≡ represent (spec_run schedule l calls).0
run-state schedule l calls h = ap (λ p. p.0) (run-represent schedule l calls h)

begin_runtime_fault-represent :
    (schedule : Schedule) (l : Lifecycle) (e : ℤ)
    → IsNamed l.observed
    → (begin_runtime_fault (represent l) e).1 ≡ true
    → IsFaulted (spec schedule l (fault_begins e)).0
      × ((begin_runtime_fault (represent l) e).0 ≡ represent (spec schedule l (fault_begins e)).0)
unfolding step spec
begin_runtime_fault-represent schedule l e h t =
    (ground (arith, ap (λ p. p.1) agree), ap (λ p. p.0) agree)
  where
    agree :
        step schedule (represent l) (fault_begins e)
        ≡ (represent (spec schedule l (fault_begins e)).0, (spec schedule l (fault_begins e)).1)
    agree = step-represent schedule l (fault_begins e) h

-- The members stand for a faulted state.
abbrev Faulted : Machine → Type 0
Faulted n = (l : Lifecycle) × IsFaulted l × (n ≡ represent l)

fault-Faulted :
    (schedule : Schedule) (n : Machine) (e : ℤ) (after : List Call) (l : Lifecycle)
    → IsNamed l.observed
    → n ≡ represent l
    → (begin_runtime_fault n e).1 ≡ true
    → NoAttach after
    → Faulted (run schedule (begin_runtime_fault n e).0 after).0
fault-Faulted schedule n e after l h same t quiet =
    let (v, begun) =
      begin_runtime_fault-represent schedule l e h
        (sym (ap (λ k. (begin_runtime_fault k e).1) same) ∙ t) in
    let started = (spec schedule l (fault_begins e)).0 in
    (
      (spec_run schedule started after).0,
      spec_run-IsFaulted schedule started after quiet v,
      ap (λ k. (run schedule k after).0) (ap (λ k. (begin_runtime_fault k e).0) same ∙ begun)
          ∙ run-state schedule started after v.named,
    )

booted-Faulted :
    (schedule : Schedule) (m : Machine) (before after : List Call) (e : ℤ)
    → (begin_runtime_fault (booted schedule m before) e).1 ≡ true
    → NoAttach after
    → Faulted (run schedule (begin_runtime_fault (booted schedule m before) e).0 after).0
booted-Faulted schedule m before after e t quiet =
    let (l, v, same, _) = snapshot-booted schedule m before in
    fault-Faulted schedule (booted schedule m before) e after l v.named same t quiet

-- Once a runtime fault has been taken, at any time after a cold boot, no HID work is accepted as long
-- as no attach is requested, whatever the other calls report, and whether or not the endpoint is ready.
pub begin_runtime_fault_closes :
    (schedule : Schedule) (m : Machine) (before after : List Call) (e : ℤ) (ready : Bool)
    → (begin_runtime_fault (booted schedule m before) e).1 ≡ true
    → NoAttach after
    → accepts_hid (run schedule (begin_runtime_fault (booted schedule m before) e).0 after).0 ready
      ≡ false
begin_runtime_fault_closes schedule m before after e ready t quiet =
    let (l, v, same) = booted-Faulted schedule m before after e t quiet in
    ap (λ k. accepts_hid k ready) same ∙ accepts_hid-represent l ready v.named v.unwanted

complete_runtime_fault-IsLocked :
    (schedule : Schedule) (l : Lifecycle)
    → IsFaulted l
    → IsLocked (spec schedule l (fault_completes true)).0
unfolding spec
complete_runtime_fault-IsLocked schedule l v = ground (arith, v.unwanted, v.faulted)

complete_runtime_fault-represent :
    (schedule : Schedule) (l : Lifecycle)
    → IsFaulted l
    → complete_runtime_fault (represent l) true
      ≡ represent (spec schedule l (fault_completes true)).0
unfolding step
complete_runtime_fault-represent schedule l v =
    ap (λ p. p.0) (step-represent schedule l (fault_completes true) v.named)

-- When the fault ends with the driver uninstalled and no attach was requested meanwhile, no history of
-- calls, attaches included, opens the device again before the next cold boot: it stays without a
-- driver, asks for recovery, wants to be hidden, and accepts no HID work.
pub complete_runtime_fault_locks :
    (schedule : Schedule) (m : Machine) (before after later : List Call) (e : ℤ) (ready : Bool)
    → (begin_runtime_fault (booted schedule m before) e).1 ≡ true
    → NoAttach after
    → (let n = (run schedule (begin_runtime_fault (booted schedule m before) e).0 after).0 in
        let z = (run schedule (complete_runtime_fault n true) later).0 in
        (accepts_hid z ready ≡ false)
        × ((snapshot z).desired ≡ hidden)
        × ((snapshot z).observed ≡ driver_not_installed)
        × ((snapshot z).recovery_required ≡ true))
complete_runtime_fault_locks schedule m before after later e ready t quiet = (
  ap (λ k. accepts_hid k ready) same ∙ accepts_hid-represent locked ready named w.unwanted,
  ap (λ s. s.desired) shown ∙ ap exposure w.unwanted,
  ap (λ s. s.observed) shown ∙ w.absent,
  ap (λ s. s.recovery_required) shown ∙ w.stuck,
)
  where
    faulted : Faulted (run schedule (begin_runtime_fault (booted schedule m before) e).0 after).0
    faulted = booted-Faulted schedule m before after e t quiet

    ended : Lifecycle
    ended = (spec schedule faulted.0 (fault_completes true)).0

    v : IsLocked ended
    v = complete_runtime_fault-IsLocked schedule faulted.0 faulted.1

    locked : Lifecycle
    locked = (spec_run schedule ended later).0

    w : IsLocked locked
    w = spec_run-IsLocked schedule ended later v

    named : IsNamed locked.observed
    named = IsNamed-of_locked locked w

    n : Machine
    n = (run schedule (begin_runtime_fault (booted schedule m before) e).0 after).0

    same : (run schedule (complete_runtime_fault n true) later).0 ≡ represent locked
    same =
        ap (λ k. (run schedule k later).0)
          (ap (λ k. complete_runtime_fault k true) faulted.2
            ∙ complete_runtime_fault-represent schedule faulted.0 faulted.1)
        ∙ run-state schedule ended later (IsNamed-of_locked ended v)

    shown : snapshot (run schedule (complete_runtime_fault n true) later).0 ≡ report locked
    shown = ap snapshot same ∙ snapshot-represent locked named
