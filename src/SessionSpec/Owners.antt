-- ===== src/SessionSpec/Owners.antt =====
-- The owner ids that the hellos of a history are given.
use s3_hidbot.Common.{
  ℕ, ℤ, suc, ◌+◌, ◌-◌, ◌^◌, ◌≤◌, ◌<◌, ◌≡◌, ◌⊎◌, inl, inr, refl, ap, Bool, not, ◌&&◌, ◌||◌, ◌==◌,
  ltb, List, [], ◌∷◌, ◌++◌, arith, if_holds, IsRising, if◌then◌else◌,
}
use s3_hidbot.ControlSession.{
  ResponseFrame, State, initialize, clear_authority, clear_normal_cache, cached_before,
  refresh_lease, service_lease, activate_hello, revoke_for_takeover,
  revoke_for_lifecycle_invalidation, cache_completed_request, cache_transition_retry,
  clear_transition_retry,
}
use s3_hidbot.SessionSpec.Retries.{Identity, plain, sensitive, complete, sensitive_completed}

-- The calls that change the state of an initialized session.
pub data Call : Type 0 where
  hello : (now : ℕ) (nonce request session : List ℕ) (epoch : ℕ) (response : ResponseFrame) → Call
  completes : (id : ℤ) (kept : Identity) (epoch : ℕ) (response : ResponseFrame) → Call
  refreshes : (now : ℕ) → Call
  services : (now : ℕ) → Call
  takes_over : Call
  invalidates : (epoch : ℕ) → Call
  caches_transition :
      (session : List ℕ) (id : ℤ) (request : List ℕ) (response : ResponseFrame) → Call
  clears_transition : Call

unfoldable pub apply : Call → State → State
apply (hello now nonce request session epoch response) state =
    (activate_hello now nonce request session epoch response state).0
apply (completes id kept epoch response) state = complete id kept epoch response state
apply (refreshes now) state = (refresh_lease now state).0
apply (services now) state = (service_lease now state).0
apply takes_over state = revoke_for_takeover state
apply (invalidates epoch) state = revoke_for_lifecycle_invalidation epoch state
apply (caches_transition session id request response) state =
    cache_transition_retry session id request response state
apply clears_transition state = clear_transition_retry state

-- The owner id that the call gives out, if it does.
unfoldable pub granted : Call → State → List ℕ
granted (hello now nonce request session epoch response) state =
    let (next, opened) = activate_hello now nonce request session epoch response state in
    if opened then next.local_owner_id ∷ [] else []
granted _ state = []

unfoldable pub owners : List Call → State → List ℕ
owners [] state = []
owners (call ∷ calls) state = granted call state ++ owners calls (apply call state)

-- No id is left, or those from `lower` on are.
abbrev IsLeft : ℕ → ℕ → Type 0
IsLeft lower next = (next ≡ 0) ⊎ ((lower ≤ next) × (next < 2 ^ 64))

clear_authority-keeps :
    (state : State) → (clear_authority state).next_local_owner_id ≡ state.next_local_owner_id
unfolding clear_authority clear_normal_cache
clear_authority-keeps state = ground arith

complete-keeps :
    (id : ℤ) (kept : Identity) (epoch : ℕ) (response : ResponseFrame) (state : State)
    → (complete id kept epoch response state).next_local_owner_id ≡ state.next_local_owner_id
unfolding cache_completed_request
complete-keeps id (plain bytes) epoch response state = refl
complete-keeps id (sensitive count digest) epoch response state =
    rw (sensitive_completed id count digest epoch response state) refl

refresh_lease-keeps :
    (now : ℕ) (state : State)
    → (refresh_lease now state).0.next_local_owner_id ≡ state.next_local_owner_id
unfolding refresh_lease
refresh_lease-keeps now state = ground arith

service_lease-keeps :
    (now : ℕ) (state : State)
    → (service_lease now state).0.next_local_owner_id ≡ state.next_local_owner_id
unfolding service_lease
service_lease-keeps now state =
    if_holds (λ (r : State × Bool). r.0.next_local_owner_id ≡ state.next_local_owner_id)
      (not state.active_session || ltb now state.lease_deadline_us) _ _ (λ e. refl)
      (λ e. clear_authority-keeps state)

invalidates-keeps :
    (epoch : ℕ) (state : State)
    → (revoke_for_lifecycle_invalidation epoch state).next_local_owner_id
      ≡ state.next_local_owner_id
unfolding revoke_for_lifecycle_invalidation
invalidates-keeps epoch state =
    if_holds (λ (r : State). r.next_local_owner_id ≡ state.next_local_owner_id)
      ((state.active_session && not (state.session_authority_epoch == epoch))
        || (state.hello_cache.valid && not (state.hello_cache.authority_epoch == epoch))
        || cached_before epoch state.retry_cache)
      _ _ (λ e. clear_authority-keeps state) (λ e. refl)

clears-keeps :
    (state : State) → (clear_transition_retry state).next_local_owner_id ≡ state.next_local_owner_id
unfolding clear_transition_retry
clears-keeps state = ground arith

caches-keeps :
    (session : List ℕ) (id : ℤ) (request : List ℕ) (response : ResponseFrame) (state : State)
    → (cache_transition_retry session id request response state).next_local_owner_id
      ≡ state.next_local_owner_id
unfolding cache_transition_retry
caches-keeps session id request response state = ground arith

-- A hello gives out the next id, if one is left.
hello-cases :
    (now : ℕ) (nonce request session : List ℕ) (epoch : ℕ) (response : ResponseFrame)
    (state : State)
    → let call = hello now nonce request session epoch response in
      let next = state.next_local_owner_id in
      ((next ≡ 0) × (granted call state ≡ []) × (apply call state ≡ state))
      ⊎ ((1 ≤ next)
          × (granted call state ≡ next ∷ [])
          × ((apply call state).next_local_owner_id ≡ (if next == 2 ^ 64 - 1 then 0 else next + 1)))
unfolding granted apply activate_hello clear_normal_cache
hello-cases now nonce request session epoch response state = ground arith

-- What a call does to the ids: it gives out none and keeps the next, or it gives out the next.
kept-cases :
    (call : Call) (state : State)
    → let next = state.next_local_owner_id in
      let after = (apply call state).next_local_owner_id in
      ((granted call state ≡ []) × (after ≡ next))
      ⊎ ((granted call state ≡ next ∷ [])
          × (1 ≤ next)
          × (after ≡ (if next == 2 ^ 64 - 1 then 0 else next + 1)))
unfolding granted apply
kept-cases (hello now nonce request session epoch response) state =
    elim (hello-cases now nonce request session epoch response state) [
      | inl (z, g, a) ↦ inl (g, ap (λ (s : State). s.next_local_owner_id) a)
      | inr (l, g, a) ↦ inr (g, l, a)
    ]
kept-cases (completes id kept epoch response) state =
    inl (refl, complete-keeps id kept epoch response state)
kept-cases (refreshes now) state = inl (refl, refresh_lease-keeps now state)
kept-cases (services now) state = inl (refl, service_lease-keeps now state)
kept-cases takes_over state = inl (refl, clear_authority-keeps state)
kept-cases (invalidates epoch) state = inl (refl, invalidates-keeps epoch state)
kept-cases (caches_transition session id request response) state =
    inl (refl, caches-keeps session id request response state)
kept-cases clears_transition state = inl (refl, clears-keeps state)

after_grant :
    (lower next after : ℕ)
    → IsLeft lower next
    → 1 ≤ next
    → after ≡ (if next == 2 ^ 64 - 1 then 0 else next + 1)
    → (lower ≤ next) × (next < 2 ^ 64) × IsLeft (suc next) after
after_grant lower next after (inl z) l a = absurd (omega arith)
after_grant lower next after (inr (k, b)) l a = ground arith

owners-IsRising :
    (calls : List Call) (state : State) (lower : ℕ)
    → IsLeft lower state.next_local_owner_id
    → IsRising (2 ^ 64) lower (owners calls state)
unfolding owners
owners-IsRising [] state lower left = tt
owners-IsRising (call ∷ calls) state lower left = elim (kept-cases call state) [
  | inl (g, a) ↦ rw g (owners-IsRising calls (apply call state) lower (rw a left))
  | inr (g, l, a) ↦
      let next = state.next_local_owner_id in
      let (k, b, left') = after_grant lower next (apply call state).next_local_owner_id left l a in
      rw g (k, b, owners-IsRising calls (apply call state) (suc next) left')
]

initialize-next :
    (random_bytes : List ℕ) (state : State)
    → (initialize random_bytes state).next_local_owner_id ≡ 1
unfolding initialize clear_normal_cache clear_transition_retry
initialize-next random_bytes state = ground arith

-- After any history of calls on an initialized session, the owner ids that its hellos were given are
-- 64-bit numbers, none 0, and each is greater than all those given before it: no id is used twice.
pub owner_ids_rise :
    (random_bytes : List ℕ) (calls : List Call) (state : State)
    → IsRising (2 ^ 64) 1 (owners calls (initialize random_bytes state))
owner_ids_rise random_bytes calls state =
    owners-IsRising calls (initialize random_bytes state) 1
      (rw (initialize-next random_bytes state) (inr (omega arith, omega arith)))
