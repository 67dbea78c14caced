-- ===== src/UsbSpec/Teardown.antt =====
-- The generation advances once for a teardown.
use s3_hidbot.Common.{
  ℕ, ◌≡◌, refl, ap, sym, subst, ◌∙◌, true, false, not, ◌&&◌, List, [], ◌∷◌, if◌then◌else◌, arith,
}
use s3_hidbot.UsbLifecycle.{
  Machine, Schedule, Call, attach, fault_begins, uninstall_begins, next_generation, is_uninstalling,
  begin_uninstall, run, same,
}
use s3_hidbot.UsbSpec.Packing.{IsNamed, packing}
use s3_hidbot.UsbSpec.Lifecycle.{
  Lifecycle, spec, spec_run, request, offer, detach_verdict, is_detaching,
}
use s3_hidbot.UsbSpec.Refine.{represent, run-represent}
use s3_hidbot.UsbSpec.Safety.{booted, snapshot-booted}

-- A new attach or a new runtime fault starts another teardown.
abbrev IsRestart : Call → Type 0
IsRestart attach = Unit {0}
IsRestart (fault_begins e) = Unit {0}
IsRestart _ = ⊥

abbrev pub NoRestart : List Call → Type 0
NoRestart [] = Unit {0}
NoRestart (c ∷ calls) = (¬ IsRestart c) × NoRestart calls

record IsTornDown (g : ℕ) (l : Lifecycle) : Type 0 where
  named : IsNamed l.observed
  unwanted : l.wanted ≡ false
  started : l.teardown ≡ true
  counted : l.generation ≡ g

spec-IsTornDown :
    (schedule : Schedule) (g : ℕ) (l : Lifecycle) (c : Call)
    → ¬ IsRestart c
    → IsTornDown g l
    → IsTornDown g (spec schedule l c).0
unfolding spec request offer detach_verdict
spec-IsTornDown schedule g l attach n v = absurd (n tt)
spec-IsTornDown schedule g l (fault_begins e) n v = absurd (n tt)
spec-IsTornDown schedule g l c n v = grind arith

spec_run-IsTornDown :
    (schedule : Schedule) (g : ℕ) (l : Lifecycle) (calls : List Call)
    → NoRestart calls
    → IsTornDown g l
    → IsTornDown g (spec_run schedule l calls).0
unfolding spec_run
spec_run-IsTornDown schedule g l [] n v = v
spec_run-IsTornDown schedule g l (c ∷ calls) n v =
    spec_run-IsTornDown schedule g (spec schedule l c).0 calls n.1
      (spec-IsTornDown schedule g l c n.0 v)

is_uninstalling-represent :
    (l : Lifecycle)
    → IsNamed l.observed
    → is_uninstalling (represent l) ≡ (not l.wanted && is_detaching l.observed)
unfolding is_uninstalling represent
is_uninstalling-represent l h = simp (packing, h) (ground arith)

generation-represent : (l : Lifecycle) → (represent l).generation ≡ l.generation
unfolding represent
generation-represent l = refl

teardown-represent : (l : Lifecycle) → (represent l).teardown_boundary_started ≡ l.teardown
unfolding represent
teardown-represent l = refl

-- The generation that `begin_uninstall` gives in a state that it accepts.
abbrev boundary : Machine → ℕ
boundary n = if n.teardown_boundary_started then n.generation else next_generation n.generation

begin_uninstall-IsTornDown :
    (schedule : Schedule) (l : Lifecycle)
    → IsNamed l.observed
    → is_uninstalling (represent l) ≡ true
    → IsTornDown (boundary (represent l)) (spec schedule l uninstall_begins).0
      × (begin_uninstall (represent l)
          ≡ (represent (spec schedule l uninstall_begins).0, boundary (represent l)))
unfolding spec begin_uninstall represent
begin_uninstall-IsTornDown schedule l h t = (ground (arith, guard), rw t (ground (arith, guard)))
  where
    guard : (not l.wanted && is_detaching l.observed) ≡ true
    guard = sym (is_uninstalling-represent l h) ∙ t

abbrev CountsOnce : Schedule → List Call → Machine → Type 0
CountsOnce schedule later n =
    ((begin_uninstall n).1 ≡ boundary n)
    × ((run schedule (begin_uninstall n).0 later).0.generation ≡ (begin_uninstall n).1)

represent-CountsOnce :
    (schedule : Schedule) (l : Lifecycle) (later : List Call)
    → IsNamed l.observed
    → is_uninstalling (represent l) ≡ true
    → NoRestart later
    → CountsOnce schedule later (represent l)
represent-CountsOnce schedule l later h t quiet = (
  ap (λ p. p.1) begun,
  ap (λ p. (run schedule p.0 later).0.generation) begun
      ∙ ap (λ p. p.0.generation) (run-represent schedule ended later down.named)
      ∙ generation-represent (spec_run schedule ended later).0
      ∙ (spec_run-IsTornDown schedule (boundary (represent l)) ended later quiet down).counted
      ∙ sym (ap (λ p. p.1) begun),
)
  where
    ended : Lifecycle
    ended = (spec schedule l uninstall_begins).0

    down : IsTornDown (boundary (represent l)) ended
    down = (begin_uninstall-IsTornDown schedule l h t).0

    begun : begin_uninstall (represent l) ≡ (represent ended, boundary (represent l))
    begun = (begin_uninstall-IsTornDown schedule l h t).1

-- A teardown that is accepted advances the generation, by one and wrapping, at its first boundary;
-- after that no call but a new attach or a new runtime fault changes the generation, in particular no
-- further `begin_uninstall`.
pub begin_uninstall_once :
    (schedule : Schedule) (m : Machine) (before later : List Call)
    → is_uninstalling (booted schedule m before) ≡ true
    → NoRestart later
    → (let n = booted schedule m before in
        ((begin_uninstall n).1
          ≡ (if n.teardown_boundary_started then n.generation else next_generation n.generation))
        × ((run schedule (begin_uninstall n).0 later).0.generation ≡ (begin_uninstall n).1))
begin_uninstall_once schedule m before later t quiet =
    let (l, v, same, _) = snapshot-booted schedule m before in
    subst (CountsOnce schedule later) (sym same)
      (represent-CountsOnce schedule l later v.named (sym (ap is_uninstalling same) ∙ t) quiet)
