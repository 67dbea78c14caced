-- ===== src/BleSpec/Safety.antt =====
-- The states that a history of methods can reach, and what is never left.
use s3_hidbot.Common.{
  ℕ, ℤ, ◌≡◌, refl, sym, ap, subst, ◌∙◌, ◌⊎◌, Bool, true, false, arith, if_holds, not, ◌&&◌, ◌||◌,
  ◌==◌, if◌then◌else◌,
}
use s3_hidbot.BleLifecycle.{
  DesiredExposure, hidden, exposed, ObservedState, uninitialized, enabling, idle, advertising,
  connected, disabling, fault, unnamed, Snapshot, StateMachine, Operation, publish, snapshot, is,
  is_hidden, is_exposed, begin_enable, begin_disable, begin_hidden_restart,
  begin_hidden_initialization, complete_hidden_sync, complete_sync, complete_advertising,
  observe_connect, observe_disconnect, complete_disable, begin_reset_recovery, complete_fault,
  is_unavailable, no_connection,
}
use s3_hidbot.BleSpec.Packing.{snapshot-publish}

-- Which fields belong to which state. While disabling, a flag of the state before may still be set.
abbrev pub Agree : DesiredExposure → ObservedState → Bool → Bool → Bool → Bool → Type 0
Agree d uninitialized s a c r = (d ≡ hidden) × (a ≡ false) × (c ≡ false) × (r ≡ false)
Agree d enabling s a c r = (a ≡ false) × (c ≡ false) × (r ≡ false)
Agree d idle s a c r = (d ≡ hidden) × (a ≡ false) × (c ≡ false) × (r ≡ false)
Agree d advertising s a c r = (d ≡ exposed) × (s ≡ true) × (a ≡ true) × (c ≡ false) × (r ≡ false)
Agree d connected s a c r = (d ≡ exposed) × (s ≡ true) × (a ≡ false) × (c ≡ true) × (r ≡ false)
Agree d disabling s a c r = (d ≡ hidden) × ((a ≡ false) ⊎ (c ≡ false)) × (r ≡ false)
Agree d fault s a c r = (a ≡ false) × (c ≡ false) × (r ≡ true)
Agree d unnamed s a c r = true ≡ false

abbrev pub IsConsistent : Snapshot → Type 0
IsConsistent s =
    Agree s.desired s.observed s.stack_ready s.is_advertising s.is_connected s.recovery_required

-- What a method may leave: a consistent state; and a fault, with its recovery, stays.
pub record Sound (m q : StateMachine) : Type 0 where
  pub consistent : IsConsistent (snapshot q)
  pub faulty : (snapshot m).observed ≡ fault → (snapshot q).observed ≡ fault

unchanged : (m : StateMachine) → IsConsistent (snapshot m) → Sound m m
unchanged m c = record { consistent = c; faulty = λ e. e }

published :
    (m q : StateMachine) (d : DesiredExposure) (o : ObservedState) (s a c r : Bool)
    → Agree d o s a c r
    → ((snapshot m).observed ≡ fault → o ≡ fault)
    → Sound m (publish q d o s a c r)
published m q d o s a c r g f = record {
  consistent = subst IsConsistent (sym (snapshot-publish q d o s a c r)) g;
  faulty = λ e. ap (λ (z : Snapshot). z.observed) (snapshot-publish q d o s a c r) ∙ f e;
}

-- The same of a method that has a result.
pub record Leaves {ℓ} {A : Type ℓ} (m : StateMachine) (p : StateMachine × A) : Type 0 where
  pub sound : Sound m p.0

still {ℓ} : {A : Type ℓ} (m : StateMachine) (x : A) → IsConsistent (snapshot m) → Leaves m (m, x)
still m x c = record { sound = unchanged m c }

posted {ℓ} :
    {A : Type ℓ} (m q : StateMachine) (d : DesiredExposure) (o : ObservedState) (s a c r : Bool)
    (x : A)
    → Agree d o s a c r
    → ((snapshot m).observed ≡ fault → o ≡ fault)
    → Leaves m (publish q d o s a c r, x)
posted m q d o s a c r x g f = record { sound = published m q d o s a c r g f }

pub begin_enable-Leaves : (m : StateMachine) → IsConsistent (snapshot m) → Leaves m (begin_enable m)
unfolding begin_enable
begin_enable-Leaves m g =
    if_holds (Leaves m) (is_unavailable (snapshot m)) _ _ (λ _. still m _ g)
      λ e.
        if_holds (Leaves m)
          (is_exposed (snapshot m).desired
            && (is (snapshot m).observed advertising || is (snapshot m).observed connected))
          _ _ (λ _. still m _ g)
          λ _.
            if_holds (Leaves m)
              (not (is_hidden (snapshot m).desired)
                || (not (is (snapshot m).observed uninitialized)
                    && not (is (snapshot m).observed idle)))
              _ _ (λ _. still m _ g)
              λ _.
                posted m _ exposed enabling _ false false false _ (ground arith) (λ f. ground arith)

disable_flags :
    (d : DesiredExposure) (o : ObservedState) (s a c r : Bool)
    → Agree d o s a c r
    → is o disabling ≡ false
    → (a ≡ false) ⊎ (c ≡ false)
disable_flags d o s a c r g e = ground arith

pub begin_disable-Leaves :
    (m : StateMachine) → IsConsistent (snapshot m) → Leaves m (begin_disable m)
unfolding begin_disable
begin_disable-Leaves m g =
    if_holds (Leaves m) (is_unavailable (snapshot m)) _ _ (λ _. still m _ g)
      λ e.
        if_holds (Leaves m)
          (is_hidden (snapshot m).desired
            && (is (snapshot m).observed uninitialized || is (snapshot m).observed idle))
          _ _ (λ _. still m _ g)
          λ _.
            if_holds (Leaves m) (not (is_exposed (snapshot m).desired)) _ _ (λ _. still m _ g)
              λ _.
                posted m _ hidden disabling _ _ _ false _
                  (refl, disable_flags _ _ _ _ _ _ g (ground arith), refl) (λ f. ground arith)

pub begin_hidden_restart-Leaves :
    (m : StateMachine) → IsConsistent (snapshot m) → Leaves m (begin_hidden_restart m)
unfolding begin_hidden_restart
begin_hidden_restart-Leaves m g =
    if_holds (Leaves m)
      (not (is_hidden (snapshot m).desired)
        || not (is (snapshot m).observed idle)
        || not (snapshot m).stack_ready
        || (snapshot m).is_connected
        || (snapshot m).is_advertising
        || (snapshot m).recovery_required
        || (snapshot m).generation == 4294967295)
      _ _ (λ _. still m _ g)
      λ e. posted m _ hidden disabling false false false false _ (ground arith) (λ f. ground arith)

pub begin_hidden_initialization-Leaves :
    (m : StateMachine) (n : ℕ)
    → IsConsistent (snapshot m)
    → Leaves m (begin_hidden_initialization m n)
unfolding begin_hidden_initialization
begin_hidden_initialization-Leaves m n g =
    if_holds (Leaves m)
      (not ((snapshot m).generation == n)
        || (snapshot m).recovery_required
        || not (is_hidden (snapshot m).desired)
        || not (is (snapshot m).observed disabling))
      _ _ (λ _. still m _ g)
      λ e. posted m _ hidden enabling false false false false _ (ground arith) (λ f. ground arith)

pub complete_hidden_sync-Leaves :
    (m : StateMachine) (n : ℕ) → IsConsistent (snapshot m) → Leaves m (complete_hidden_sync m n)
unfolding complete_hidden_sync
complete_hidden_sync-Leaves m n g =
    if_holds (Leaves m)
      (not ((snapshot m).generation == n)
        || (snapshot m).recovery_required
        || not (is_hidden (snapshot m).desired)
        || (not (is (snapshot m).observed enabling)
            && not (is (snapshot m).observed idle && m.reset_recovery_used)))
      _ _ (λ _. still m _ g)
      λ e. posted m _ hidden idle true false false false _ (ground arith) (λ f. ground arith)

still_enabling :
    (d : DesiredExposure) (o : ObservedState)
    → is o enabling ≡ true
    → Agree d o true false false false
still_enabling d o e = ground arith

pub complete_sync-Leaves :
    (m : StateMachine) (n : ℕ) → IsConsistent (snapshot m) → Leaves m (complete_sync m n)
unfolding complete_sync
complete_sync-Leaves m n g =
    if_holds (Leaves m)
      (not (n == (snapshot m).generation)
        || not (is_exposed (snapshot m).desired)
        || not (is (snapshot m).observed enabling))
      _ _ (λ _. still m _ g)
      λ e.
        posted m _ _ _ true false false false _ (still_enabling _ _ (ground arith))
          (λ f. ground arith)

pub complete_advertising-Leaves :
    (m : StateMachine) (n : ℕ) → IsConsistent (snapshot m) → Leaves m (complete_advertising m n)
unfolding complete_advertising
complete_advertising-Leaves m n g =
    if_holds (Leaves m)
      (not (n == (snapshot m).generation)
        || not (is_exposed (snapshot m).desired)
        || (not (is (snapshot m).observed enabling) && not (is (snapshot m).observed advertising)))
      _ _ (λ _. still m _ g)
      λ e. posted m _ _ advertising true true false false _ (ground arith) (λ f. ground arith)

pub observe_connect-Leaves :
    (m : StateMachine) (n h : ℕ) → IsConsistent (snapshot m) → Leaves m (observe_connect m n h)
unfolding observe_connect
observe_connect-Leaves m n h g =
    if_holds (Leaves m)
      (not (n == (snapshot m).generation)
        || not (is_exposed (snapshot m).desired)
        || not (is (snapshot m).observed advertising))
      _ _ (λ _. still m _ g)
      λ e. posted m _ _ connected true false true false _ (ground arith) (λ f. ground arith)

handle_only {ℓ} :
    {A : Type ℓ} (m : StateMachine) (x : A)
    → IsConsistent (snapshot m)
    → Leaves m (record m { connection_handle = no_connection }, x)
unfolding snapshot
handle_only m x g = record { sound = record { consistent = g; faulty = λ e. e } }

pub observe_disconnect-Leaves :
    (m : StateMachine) (n h : ℕ) (expected : Bool)
    → IsConsistent (snapshot m)
    → Leaves m (observe_disconnect m n h expected)
unfolding observe_disconnect
observe_disconnect-Leaves m n h expected g =
    if_holds (Leaves m) (not (n == (snapshot m).generation) || not (m.connection_handle == h)) _ _
      (λ _. still m _ g)
      λ _.
        if_holds (Leaves m)
          (expected && is_hidden (snapshot m).desired && is (snapshot m).observed disabling) _ _
          (λ _. handle_only m _ g)
          λ _.
            if_holds (Leaves m)
              (not (is_exposed (snapshot m).desired) || not (is (snapshot m).observed connected)) _
              _ (λ _. handle_only m _ g)
              λ e. posted m _ _ enabling true false false false _ (ground arith) (λ f. ground arith)

pub complete_disable-Leaves :
    (m : StateMachine) (n : ℕ) → IsConsistent (snapshot m) → Leaves m (complete_disable m n)
unfolding complete_disable
complete_disable-Leaves m n g =
    if_holds (Leaves m)
      (not (n == (snapshot m).generation)
        || not (is_hidden (snapshot m).desired)
        || not (is (snapshot m).observed disabling))
      _ _ (λ _. still m _ g)
      λ e. posted m _ _ idle _ false false false _ (ground arith) (λ f. ground arith)

recovered :
    (d : DesiredExposure)
    → Agree d (if is_exposed d then enabling else idle) false false false false
recovered hidden = ground arith
recovered exposed = ground arith

pub begin_reset_recovery-Leaves :
    (m : StateMachine) (n : ℕ) (reason : ℤ)
    → IsConsistent (snapshot m)
    → Leaves m (begin_reset_recovery m n reason)
unfolding begin_reset_recovery
begin_reset_recovery-Leaves m n reason g =
    if_holds (Leaves m)
      (not (n == (snapshot m).generation)
        || (snapshot m).recovery_required
        || is (snapshot m).observed fault)
      _ _ (λ _. still m _ g)
      λ e.
        if_holds (Leaves m) (not m.reset_recovery_used) _ _
          (λ _. posted m _ _ _ false false false false _ (recovered _) (λ f. ground arith))
          λ _. posted m _ _ fault false false false true _ (ground arith) (λ f. refl)

pub complete_fault-Sound :
    (m : StateMachine) (n : ℕ) (o : Operation) (error_code : ℤ)
    → IsConsistent (snapshot m)
    → Sound m (complete_fault m n o error_code)
unfolding complete_fault
complete_fault-Sound m n o error_code g =
    if_holds (Sound m) (not (n == (snapshot m).generation)) _ _ (λ _. unchanged m g)
      λ e. published m _ _ fault _ false false true (ground arith) (λ f. refl)
