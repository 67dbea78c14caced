-- ===== src/PairingSpec/Responses.antt =====
-- The pairing ids, and the responses that are accepted for them.
use s3_hidbot.Common.{
  ℕ, suc, ◌+◌, ◌-◌, ◌^◌, ◌%◌, ◌≤◌, ◌<◌, ◌≡◌, ◌≢◌, ◌⊎◌, inl, inr, refl, Bool, true, false, not, ◌&&◌,
  ◌||◌, ◌==◌, List, [], ◌∷◌, ◌++◌, arith, Bool-cases, IsRising, if_holds, if◌then◌else◌,
}
use s3_hidbot.BlePairing.{
  idle, securing, waiting_input, LastResult, none_recorded, security_policy, PasskeyActionResult,
  Publication, StateMachine, built, publication, publish, store, store_all, own_snapshot, current,
  is_idle, is_waiting, is_accepted, begin_connection, begin_passkey_input,
  reject_unsupported_action, validate_response, consume_response, timeout, complete, fail_closed,
  disconnect, disable, reset,
}
use s3_hidbot.PairingSpec.Torn.{own_snapshot-still}
use s3_hidbot.PairingSpec.Shown.{publish-even}

pub data Call : Type 0 where
  begins asks rejects disconnects : (generation connection : ℕ) → Call
  consumes times_out : (generation connection id : ℕ) → Call
  completes fails : (generation connection : ℕ) (result : LastResult) → Call
  disables resets : Call

unfoldable pub apply : Call → StateMachine → StateMachine
apply (begins generation connection) m = begin_connection generation connection m
apply (asks generation connection) m = (begin_passkey_input generation connection m).0
apply (rejects generation connection) m = (reject_unsupported_action generation connection m).0
apply (consumes generation connection id) m = consume_response generation connection id m
apply (times_out generation connection id) m = (timeout generation connection id m).0
apply (completes generation connection result) m = (complete generation connection result m).0
apply (fails generation connection result) m = fail_closed generation connection result m
apply (disconnects generation connection) m = (disconnect generation connection m).0
apply disables m = disable m
apply resets m = reset m

-- The id whose response the call consumes, if it does.
unfoldable pub consumed : Call → StateMachine → List ℕ
consumed (consumes generation connection id) m =
    if is_accepted (validate_response generation connection id m) then id ∷ [] else []
consumed _ m = []

unfoldable pub consumed_all : List Call → StateMachine → List ℕ
consumed_all [] m = []
consumed_all (call ∷ calls) m = consumed call m ++ consumed_all calls (apply call m)

-- No id that is pending or still to come is below `lower`, and a pending id is before those to come.
record IsFresh (lower : ℕ) (m : StateMachine) : Type 0 where
  even : m.sequence % 2 ≡ 0
  pending : (m.pairing_id ≡ 0) ⊎ (lower ≤ m.pairing_id)
  coming :
      (m.next_pairing_id ≡ 0) ⊎ ((lower ≤ m.next_pairing_id) × (m.pairing_id < m.next_pairing_id))
  small : m.pairing_id < 2 ^ 32
  bounded : m.next_pairing_id < 2 ^ 32

-- A publication without an id.
publish-IsFresh :
    (lower : ℕ) (p : Publication) (m : StateMachine)
    → p.pairing_id ≡ 0
    → IsFresh lower m
    → IsFresh lower (publish p m)
unfolding publish store_all store
publish-IsFresh lower p m z f = record {
  even = publish-even p m f.even;
  pending = inl z;
  coming = ground (arith, f.coming, z);
  small = omega (arith, z);
  bounded = f.bounded;
}

-- A conditional of a publication without an id.
branch-IsFresh {ℓ} :
    {A : Type ℓ} (lower : ℕ) (m : StateMachine) (p : Publication) (test : Bool) (a b : A)
    → p.pairing_id ≡ 0
    → IsFresh lower m
    → let r : StateMachine × A = if test then (m, a) else (publish p m, b) in IsFresh lower r.0
branch-IsFresh lower m p true a b z f = f
branch-IsFresh lower m p false a b z f = publish-IsFresh lower p m z f

started-IsFresh :
    (lower : ℕ) (p : Publication) (m : StateMachine)
    → p.pairing_id ≡ m.next_pairing_id
    → m.next_pairing_id ≢ 0
    → IsFresh lower m
    → IsFresh lower (
        publish p (record m {
          next_pairing_id = if m.next_pairing_id == 2 ^ 32 - 1 then 0 else m.next_pairing_id + 1;
        }))
unfolding publish store_all store
started-IsFresh lower p m z k f = record {
  even =
      publish-even p
        (record m {
          next_pairing_id = if m.next_pairing_id == 2 ^ 32 - 1 then 0 else m.next_pairing_id + 1;
        })
        f.even;
  pending = inr (ground (arith, f.coming, z, k));
  coming = ground (arith, f.coming, f.bounded, z, k);
  small = omega (arith, z, f.bounded);
  bounded = ground (arith, f.bounded);
}

begin_passkey_input-IsFresh :
    (lower generation connection : ℕ) (m : StateMachine)
    → IsFresh lower m
    → IsFresh lower (begin_passkey_input generation connection m).0
unfolding begin_passkey_input
begin_passkey_input-IsFresh lower generation connection m f =
    let Kept : StateMachine × PasskeyActionResult → Type 0 = λ r. IsFresh lower r.0 in
    let old = own_snapshot m in
    let refused =
      publish-IsFresh lower
        (publication idle security_policy generation connection 0 false false true) m refl f in
    if_holds Kept
      (not old.coherent
        || not (old.generation == generation)
        || not (old.connection_handle == connection)
        || is_idle old.live_state)
      _ _ (λ e. f)
      (λ e.
        if_holds Kept (is_waiting old.live_state && not (old.pairing_id == 0)) _ _ (λ e. f)
          (λ e.
            if_holds Kept old.id_exhausted _ _ (λ e. refused)
              (λ e.
                if_holds Kept (m.next_pairing_id == 0) _ _ (λ e. refused)
                  (λ e.
                    started-IsFresh lower
                      (publication waiting_input none_recorded generation connection
                        m.next_pairing_id true false (m.next_pairing_id == 2 ^ 32 - 1))
                      m refl (ground arith) f))))

accepted_id :
    (generation connection id : ℕ) (m : StateMachine)
    → m.sequence % 2 ≡ 0
    → is_accepted (validate_response generation connection id m) ≡ true
    → (m.pairing_id ≡ id) × (1 ≤ id)
unfolding validate_response
accepted_id generation connection id m e h =
    let accepted = rw (own_snapshot-still m e) at h in ground (arith, accepted)

consumed-IsFresh :
    (lower id : ℕ) (p : Publication) (m : StateMachine)
    → p.pairing_id ≡ 0
    → m.pairing_id ≡ id
    → 1 ≤ id
    → IsFresh lower m
    → (lower ≤ id) × (id < 2 ^ 32) × IsFresh (suc id) (publish p m)
unfolding publish store_all store
consumed-IsFresh lower id p m z i l f = (
  ground (arith, f.pending, i, l),
  omega (arith, f.small),
  record {
    even = publish-even p m f.even;
    pending = inl z;
    coming = ground (arith, f.coming, z, i);
    small = omega (arith, z);
    bounded = f.bounded;
  },
)

-- A call consumes nothing, or it consumes the pending id, and only later ids are left.
consumed-cases :
    (lower : ℕ) (call : Call) (m : StateMachine)
    → IsFresh lower m
    → ((consumed call m ≡ []) × IsFresh lower (apply call m))
      ⊎ ((id : ℕ) × (consumed call m ≡ id ∷ [])
          × (lower ≤ id)
          × (id < 2 ^ 32)
          × IsFresh (suc id) (apply call m))
unfolding apply consumed begin_connection reject_unsupported_action consume_response timeout
    complete fail_closed disconnect disable reset
consumed-cases lower (begins generation connection) m f =
    inl (refl, publish-IsFresh lower _ m refl f)
consumed-cases lower (asks generation connection) m f =
    inl (refl, begin_passkey_input-IsFresh lower generation connection m f)
consumed-cases lower (rejects generation connection) m f =
    inl (refl, branch-IsFresh lower m _ (not (current generation connection m)) _ _ refl f)
consumed-cases lower (disconnects generation connection) m f =
    inl (refl, branch-IsFresh lower m _ (not (current generation connection m)) _ _ refl f)
consumed-cases lower (completes generation connection result) m f =
    inl (refl, branch-IsFresh lower m _ (not (current generation connection m)) _ _ refl f)
consumed-cases lower (fails generation connection result) m f =
    inl (refl, publish-IsFresh lower _ m refl f)
consumed-cases lower disables m f = inl (refl, publish-IsFresh lower _ m refl f)
consumed-cases lower resets m f = inl (refl, publish-IsFresh lower _ m refl f)
consumed-cases lower (times_out generation connection id) m f = inl (
  refl,
  branch-IsFresh lower m _ (not (is_accepted (validate_response generation connection id m))) _ _
      refl f,
)
consumed-cases lower (consumes generation connection id) m f =
    elim (Bool-cases (is_accepted (validate_response generation connection id m))) [
      | inl e ↦
          let (i, l) = accepted_id generation connection id m f.even e in
          let old = own_snapshot m in
          let answered =
            publication securing old.last_result generation connection 0 true true
              old.id_exhausted in
          let (k, b, f') = consumed-IsFresh lower id answered m refl i l f in
          inr (id, rw e refl, k, b, rw e f')
      | inr e ↦ inl (rw e refl, rw e f)
    ]

consumed_all-IsRising :
    (calls : List Call) (m : StateMachine) (lower : ℕ)
    → IsFresh lower m
    → IsRising (2 ^ 32) lower (consumed_all calls m)
unfolding consumed_all
consumed_all-IsRising [] m lower f = tt
consumed_all-IsRising (call ∷ calls) m lower f = elim (consumed-cases lower call m f) [
  | inl (e, f') ↦ rw e (consumed_all-IsRising calls (apply call m) lower f')
  | inr (id, e, l, b, f') ↦ rw e (l, b, consumed_all-IsRising calls (apply call m) (suc id) f')
]

built-IsFresh : IsFresh 1 built
built-IsFresh = record {
  even = refl;
  pending = inl refl;
  coming = inr (omega arith, omega arith);
  small = omega arith;
  bounded = omega arith;
}

-- In any history of calls on a new state machine, the ids whose responses are consumed are 32-bit
-- numbers, none 0, and each is greater than those before it: no pairing id is answered twice.
pub answered_once : (calls : List Call) → IsRising (2 ^ 32) 1 (consumed_all calls built)
answered_once calls = consumed_all-IsRising calls built 1 built-IsFresh
