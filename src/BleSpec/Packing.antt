-- ===== src/BleSpec/Packing.antt =====
-- What is published is what a snapshot shows.
use s3_hidbot.Common.{ℕ, ◌+◌, ◌*◌, ◌/◌, ◌^◌, ◌≡◌, refl, Bool, true, false, arith, if◌then◌else◌}
use s3_hidbot.BleLifecycle.{
  DesiredExposure, hidden, exposed, ObservedState, Snapshot, StateMachine, publish, snapshot, flag,
  has, to_observed, code, is_exposed,
}

-- A snapshot of the given fields, with the other members of `m`.
abbrev pub shown :
    StateMachine → DesiredExposure → ObservedState → Bool → Bool → Bool → Bool → Snapshot
shown m d o s a c r = record {
  desired = d;
  observed = o;
  generation = m.generation;
  stack_ready = s;
  is_advertising = a;
  is_connected = c;
  recovery_required = r;
  last_error = record {
    present = m.error_present;
    operation = m.error_operation;
    code = m.error_code;
  };
}

abbrev bit : Bool → ℕ
bit true = 1
bit false = 0

abbrev packed : ℕ → Bool → Bool → Bool → Bool → Bool → ℕ
packed o d s a c r = o * 2 ^ 5 + flag d 0 + flag s 1 + flag a 2 + flag c 3 + flag r 4

packed-fields :
    (o : ℕ) (d s a c r : Bool)
    → (has (packed o d s a c r) 0 ≡ d)
      × (has (packed o d s a c r) 1 ≡ s)
      × (has (packed o d s a c r) 2 ≡ a)
      × (has (packed o d s a c r) 3 ≡ c)
      × (has (packed o d s a c r) 4 ≡ r)
      × (packed o d s a c r / 2 ^ 5 ≡ o)
packed-fields o d s a c r = ground arith

to_observed-code : (o : ObservedState) → to_observed (code o) ≡ o
to_observed-code o = ground arith

exposure-is_exposed : (d : DesiredExposure) → (if is_exposed d then exposed else hidden) ≡ d
exposure-is_exposed hidden = refl
exposure-is_exposed exposed = refl

pub snapshot-publish :
    (m : StateMachine) (d : DesiredExposure) (o : ObservedState) (s a c r : Bool)
    → snapshot (publish m d o s a c r) ≡ shown m d o s a c r
unfolding snapshot publish
snapshot-publish m d o s a c r =
    let (p, q, u, v, w, n) = packed-fields (code o) (is_exposed d) s a c r in
    rw (p, q, u, v, w, n, to_observed-code o, exposure-is_exposed d) refl
