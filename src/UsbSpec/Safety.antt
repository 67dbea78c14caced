-- ===== src/UsbSpec/Safety.antt =====
-- What holds of the USB lifecycle over every history of calls from a cold boot.
use s3_hidbot.Common.{◌≡◌, ◌≢◌, ap, sym, subst, ◌∙◌, ◌⊎◌, true, false, List, [], ◌∷◌, arith}
use s3_hidbot.UsbLifecycle.{
  Machine, Snapshot, driver_not_installed, detaching, hidden, exposed, Schedule, Call, attach,
  snapshot, initialize_hidden_boot_policy, run,
}
use s3_hidbot.UsbSpec.Packing.{IsNamed}
use s3_hidbot.UsbSpec.Lifecycle.{
  Lifecycle, cold, report, spec, spec_run, request, offer, attach_verdict, detach_verdict,
}
use s3_hidbot.UsbSpec.Refine.{represent, snapshot-represent, run-cold_boot}

-- An exposure that is hidden leaves the bus; uncertain host delivery stays owed.
pub record IsCoherent (l : Lifecycle) : Type 0 where
  pub named : IsNamed l.observed
  owed : l.uncertain ≡ true → l.safety ≡ true
  gone : l.wanted ≡ false → (l.observed ≡ driver_not_installed) ⊎ (l.observed ≡ detaching)
  present : l.wanted ≡ true → l.observed ≢ detaching

spec-IsCoherent :
    (schedule : Schedule) (l : Lifecycle) (c : Call)
    → IsCoherent l
    → IsCoherent (spec schedule l c).0
unfolding spec request offer attach_verdict detach_verdict
spec-IsCoherent schedule l attach v = grind arith
spec-IsCoherent schedule l c v = grind arith

-- The same of a snapshot, as the public methods give it.
pub record IsConsistent (s : Snapshot) : Type 0 where
  pub named : IsNamed s.observed
  pub owed : s.host_release_uncertain ≡ true → s.safety_pending ≡ true
  pub gone : s.desired ≡ hidden → (s.observed ≡ driver_not_installed) ⊎ (s.observed ≡ detaching)
  pub present : s.desired ≡ exposed → s.observed ≢ detaching

report-IsConsistent : (l : Lifecycle) → IsCoherent l → IsConsistent (report l)
report-IsConsistent l v = ground (arith, v.owed, v.gone, v.present)

spec_run-IsCoherent :
    (schedule : Schedule) (l : Lifecycle) (calls : List Call)
    → IsCoherent l
    → IsCoherent (spec_run schedule l calls).0
unfolding spec_run
spec_run-IsCoherent schedule l [] v = v
spec_run-IsCoherent schedule l (c ∷ calls) v =
    spec_run-IsCoherent schedule (spec schedule l c).0 calls (spec-IsCoherent schedule l c v)

-- The members after a history that begins with a cold boot.
abbrev pub booted : Schedule → Machine → List Call → Machine
booted schedule m calls = (run schedule (initialize_hidden_boot_policy m) calls).0

pub snapshot-booted :
    (schedule : Schedule) (m : Machine) (calls : List Call)
    → (l : Lifecycle) × IsCoherent l
      × (booted schedule m calls ≡ represent l)
      × (snapshot (booted schedule m calls) ≡ report l)
snapshot-booted schedule m calls = (l, v, same, ap snapshot same ∙ snapshot-represent l v.named)
  where
    l : Lifecycle
    l = (spec_run schedule cold calls).0

    v : IsCoherent l
    v = spec_run-IsCoherent schedule cold calls (ground arith)

    same : booted schedule m calls ≡ represent l
    same = ap (λ p. p.0) (run-cold_boot schedule m calls)

-- After any history of calls from a cold boot, the observed state is one of the six enumerators; an
-- uncertain host release is still marked as pending safety work; a device that wants to be hidden has
-- no driver or is detaching; one that wants to be exposed is not detaching.
pub booted-IsConsistent :
    (schedule : Schedule) (m : Machine) (calls : List Call)
    → IsConsistent (snapshot (booted schedule m calls))
booted-IsConsistent schedule m calls =
    let (l, v, _, shown) = snapshot-booted schedule m calls in
    subst IsConsistent (sym shown) (report-IsConsistent l v)
