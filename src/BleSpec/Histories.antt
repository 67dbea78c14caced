-- ===== src/BleSpec/Histories.antt =====
-- What holds after any history of methods.
use s3_hidbot.Common.{◌≡◌, refl, sym, subst, true, false, List, [], ◌∷◌, arith}
use s3_hidbot.BleLifecycle.{
  StateMachine, Snapshot, hidden, uninitialized, fault, initial, snapshot, Method, enables,
  disables, restarts_hidden, initializes_hidden, syncs_hidden, syncs, advertises, disabled,
  connects, disconnects, resets, faults, apply, apply_all, begin_enable, refused, is_unavailable,
}
use s3_hidbot.BleSpec.Packing.{snapshot-publish}
use s3_hidbot.BleSpec.Safety.{
  IsConsistent, Sound, begin_enable-Leaves, begin_disable-Leaves, begin_hidden_restart-Leaves,
  begin_hidden_initialization-Leaves, complete_hidden_sync-Leaves, complete_sync-Leaves,
  complete_advertising-Leaves, observe_connect-Leaves, observe_disconnect-Leaves,
  complete_disable-Leaves, begin_reset_recovery-Leaves, complete_fault-Sound,
}

apply-Sound : (m : StateMachine) (x : Method) → IsConsistent (snapshot m) → Sound m (apply m x)
unfolding apply
apply-Sound m enables g = (begin_enable-Leaves m g).sound
apply-Sound m disables g = (begin_disable-Leaves m g).sound
apply-Sound m restarts_hidden g = (begin_hidden_restart-Leaves m g).sound
apply-Sound m (initializes_hidden n) g = (begin_hidden_initialization-Leaves m n g).sound
apply-Sound m (syncs_hidden n) g = (complete_hidden_sync-Leaves m n g).sound
apply-Sound m (syncs n) g = (complete_sync-Leaves m n g).sound
apply-Sound m (advertises n) g = (complete_advertising-Leaves m n g).sound
apply-Sound m (disabled n) g = (complete_disable-Leaves m n g).sound
apply-Sound m (connects n h) g = (observe_connect-Leaves m n h g).sound
apply-Sound m (disconnects n h e) g = (observe_disconnect-Leaves m n h e g).sound
apply-Sound m (resets n reason) g = (begin_reset_recovery-Leaves m n reason g).sound
apply-Sound m (faults n o e) g = complete_fault-Sound m n o e g

pub apply_all-Sound :
    (m : StateMachine) (xs : List Method) → IsConsistent (snapshot m) → Sound m (apply_all m xs)
unfolding apply_all
apply_all-Sound m [] g = record { consistent = g; faulty = λ e. e }
apply_all-Sound m (x ∷ xs) g =
    let s = apply-Sound m x g in
    let t = apply_all-Sound (apply m x) xs s.consistent in
    record { consistent = t.consistent; faulty = λ e. t.faulty (s.faulty e) }

initial-IsConsistent : IsConsistent (snapshot initial)
unfolding initial
initial-IsConsistent =
    subst IsConsistent (sym (snapshot-publish _ hidden uninitialized false false false false))
      (refl, refl, refl, refl)

-- After any history of methods from the constructor, a snapshot is consistent. Its state is one of the
-- seven that have a name. Advertising and connected are states of an exposed device only, with a ready
-- stack and with exactly the flag of that state; in the other states both flags are clear, but while
-- disabling one of them may still be set. Recovery is required exactly in a fault.
pub built-IsConsistent : (xs : List Method) → IsConsistent (snapshot (apply_all initial xs))
built-IsConsistent xs = (apply_all-Sound initial xs initial-IsConsistent).consistent

faulty_unavailable : (s : Snapshot) → s.observed ≡ fault → is_unavailable s ≡ true
faulty_unavailable s e = ground arith

unavailable_refused :
    (m : StateMachine) → is_unavailable (snapshot m) ≡ true → begin_enable m ≡ (m, refused)
unfolding begin_enable
unavailable_refused m h = rw h refl

-- A fault is final: once a history of methods has led to a fault, every longer history is still in it,
-- and a request to enable is refused and changes nothing.
pub fault_is_final :
    (xs ys : List Method)
    → (snapshot (apply_all initial xs)).observed ≡ fault
    → let m = apply_all (apply_all initial xs) ys in
      ((snapshot m).observed ≡ fault) × (begin_enable m ≡ (m, refused))
fault_is_final xs ys f =
    let m = apply_all (apply_all initial xs) ys in
    let e = (apply_all-Sound (apply_all initial xs) ys (built-IsConsistent xs)).faulty f in
    (e, unavailable_refused m (faulty_unavailable (snapshot m) e))
