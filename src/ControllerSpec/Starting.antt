-- ===== src/ControllerSpec/Starting.antt =====
-- An abort that comes while a sequence is started.
use s3_hidbot.Common.{
  ℕ, ℤ, ◌≡◌, ◌≢◌, ◌⊎◌, inl, inr, refl, subst, ◌∙◌, true, false, not, ◌||◌, ◌==◌, List, [], ◌∷◌,
  ◌++◌, arith, Bool-cases, Option-cases, if_holds,
}
use s3_hidbot.HidSequence.{
  Controller, Outside, aborts, aborts_for_release, retires, outside, outside_all, abort_generation,
  abort, abort_for_release, retire_owner, Admission, AdmissionResult, admitted, invalid,
  safety_pending, busy, not_ready, unsupported_operation, is_admitted, is_subset, admit, start,
  parse, owner_low, owner_high,
}

-- What another task does to a reserved sequence: it stays reserved, and its generation is canceled if
-- it was or if it is aborted.
record IsGuarded (generation : ℕ) (c : Controller) : Type 0 where
  reserved : c.reserved_generation ≡ generation
  canceled : c.canceled_generation ≡ generation

abort_generation-reserved :
    (g : ℕ) (c : Controller) → (abort_generation g c).reserved_generation ≡ c.reserved_generation
unfolding abort_generation
abort_generation-reserved g c =
    if_holds (λ (x : Controller). x.reserved_generation ≡ c.reserved_generation)
      (g == 0 || not (c.reserved_generation == g)) _ _ (λ e. refl) (λ e. refl)

abort_generation-canceled :
    (g : ℕ) (c : Controller)
    → ((abort_generation g c).canceled_generation ≡ c.canceled_generation)
      ⊎ ((abort_generation g c).canceled_generation ≡ c.reserved_generation)
unfolding abort_generation
abort_generation-canceled g c =
    if_holds
      (λ (x : Controller).
        (x.canceled_generation ≡ c.canceled_generation)
        ⊎ (x.canceled_generation ≡ c.reserved_generation))
      (g == 0 || not (c.reserved_generation == g)) _ _ (λ e. inl refl) (λ e. inr (ground arith))

outside-reserved :
    (call : Outside) (c : Controller) → (outside call c).reserved_generation ≡ c.reserved_generation
unfolding abort abort_for_release retire_owner
outside-reserved aborts c =
    if_holds (λ (x : Controller). x.reserved_generation ≡ c.reserved_generation)
      (c.reserved_generation == 0) _ _ (λ e. refl)
      (λ e. abort_generation-reserved c.reserved_generation c)
outside-reserved aborts_for_release c = ground arith
outside-reserved (retires owner) c =
    let Kept : Controller → Type 0 = λ x. x.reserved_generation ≡ c.reserved_generation in
    if_holds Kept (owner == 0) _ _ (λ e. refl)
      (λ e.
        if_holds Kept
          (c.status_generation == 0
            || not (c.status_owner_low == owner_low owner)
            || not (c.status_owner_high == owner_high owner))
          _ _ (λ e. refl)
          (λ e. abort_generation-reserved c.status_generation (record c { status_generation = 0 })))

outside-canceled :
    (call : Outside) (c : Controller)
    → ((outside call c).canceled_generation ≡ c.canceled_generation)
      ⊎ ((outside call c).canceled_generation ≡ c.reserved_generation)
unfolding abort abort_for_release retire_owner
outside-canceled aborts c =
    if_holds
      (λ (x : Controller).
        (x.canceled_generation ≡ c.canceled_generation)
        ⊎ (x.canceled_generation ≡ c.reserved_generation))
      (c.reserved_generation == 0) _ _ (λ e. inl refl)
      (λ e. abort_generation-canceled c.reserved_generation c)
outside-canceled aborts_for_release c = ground arith
outside-canceled (retires owner) c =
    let Kept : Controller → Type 0 = λ x.
      (x.canceled_generation ≡ c.canceled_generation)
      ⊎ (x.canceled_generation ≡ c.reserved_generation) in
    if_holds Kept (owner == 0) _ _ (λ e. inl refl)
      (λ e.
        if_holds Kept
          (c.status_generation == 0
            || not (c.status_owner_low == owner_low owner)
            || not (c.status_owner_high == owner_high owner))
          _ _ (λ e. inl refl)
          (λ e. abort_generation-canceled c.status_generation (record c { status_generation = 0 })))

outside-IsGuarded :
    (call : Outside) (generation : ℕ) (c : Controller)
    → IsGuarded generation c
    → IsGuarded generation (outside call c)
outside-IsGuarded call generation c g = record {
  reserved = outside-reserved call c ∙ g.reserved;
  canceled = elim (outside-canceled call c) [ inl e ↦ e ∙ g.canceled | inr e ↦ e ∙ g.reserved ];
}

outside_all-IsGuarded :
    (calls : List Outside) (generation : ℕ) (c : Controller)
    → IsGuarded generation c
    → IsGuarded generation (outside_all calls c)
unfolding outside_all
outside_all-IsGuarded [] generation c g = g
outside_all-IsGuarded (call ∷ calls) generation c g =
    outside_all-IsGuarded calls generation (outside call c) (outside-IsGuarded call generation c g)

abort-IsGuarded :
    (c : Controller) → c.reserved_generation ≢ 0 → IsGuarded c.reserved_generation (abort c)
unfolding abort abort_generation
abort-IsGuarded c n =
    let some_one : (c.reserved_generation == 0) ≡ false = ground (arith, n) in
    let itself : (c.reserved_generation == c.reserved_generation) ≡ true = ground arith in
    record { reserved = rw (some_one, itself) refl; canceled = rw (some_one, itself) refl }

aborted_meanwhile :
    (before after : List Outside) (c : Controller)
    → c.reserved_generation ≢ 0
    → IsGuarded c.reserved_generation (outside_all (before ++ aborts ∷ after) c)
unfolding outside_all
aborted_meanwhile [] after c n =
    outside_all-IsGuarded after c.reserved_generation (abort c) (abort-IsGuarded c n)
aborted_meanwhile (call ∷ before) after c n =
    let same = outside-reserved call c in
    subst (λ g. IsGuarded g (outside_all (before ++ aborts ∷ after) (outside call c))) same
      (aborted_meanwhile before after (outside call c) (rw same n))

-- Where it is admitted, the run will see that it is canceled.
abbrev Told : Controller × AdmissionResult → Type 0
Told r = r.1 ≡ admitted → r.0.cancel_requested ≡ true

-- What the backend refuses is not admitted.
refusal : (result : AdmissionResult) → not (is_admitted result) ≡ true → result ≢ admitted
refusal admitted h k = cc h
refusal invalid h k = cc k
refusal busy h k = cc k
refusal not_ready h k = cc k
refusal safety_pending h k = cc k
refusal unsupported_operation h k = cc k

admit-Told :
    (owner : ℕ) (id : ℤ) (code : List ℕ) (now generation : ℕ) (admission : Admission)
    (c : Controller)
    → c.canceled_generation ≡ generation
    → Told (admit owner id code now generation admission c)
unfolding admit
admit-Told owner id code now generation admission c e =
    if_holds Told (not (is_admitted admission.result)) _ _
      (λ h k. absurd (refusal admission.result h k))
      (λ h. elim (Option-cases (parse code admission.initial)) [
        | inl n ↦ rw n (λ k. cc k)
        | inr (plan, p) ↦ rw p (
            if_holds Told (not (is_subset plan.required_roles admission.authority.active_roles)) _ _
              (λ h k. cc k) (λ h k. ground (arith, e)))
      ])

-- An abort that comes while the backend is asked to admit a sequence, whatever else other tasks do then,
-- is not lost: when the start is still accepted, its run finds the request to cancel.
pub abort_while_starting :
    (owner : ℕ) (id : ℤ) (code : List ℕ) (now : ℕ) (admission : Admission)
    (before after : List Outside) (c : Controller)
    → (start owner id code now admission (before ++ aborts ∷ after) c).1 ≡ admitted
    → (start owner id code now admission (before ++ aborts ∷ after) c).0.cancel_requested ≡ true
unfolding start
abort_while_starting owner id code now admission before after c =
    if_holds Told (not c.initialized || owner == 0) _ _ (λ e k. cc k)
      (λ e. elim (Bool-cases (c.next_generation == 0)) [
        | inl z ↦ rw z (λ k. cc k)
        | inr z ↦ rw z (
            if_holds Told (not (c.reserved_generation == 0)) _ _ (λ e k. cc k)
              (λ e.
                admit-Told owner id code now c.next_generation admission _
                  (aborted_meanwhile before after _ (ground (arith, z))).canceled))
      ])
