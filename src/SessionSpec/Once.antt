-- ===== src/SessionSpec/Once.antt =====
-- A session accepts each request's id at most once.
use s3_hidbot.Common.{
  ℕ, ℤ, pos, negsuc, less, ◌≡◌, ◌⊎◌, inl, inr, refl, sym, subst, if_holds, ltb, ◌||◌, ◌∙◌, Bool,
  true, false, not, ◌&&◌, ◌==◌, List, none, arith, Bool-cases,
}
use s3_hidbot.ControlSession.{
  ResponseFrame, accept_new, RequestCache, normal, State, mismatched, inspect_cache,
  inspect_request, inspect_sensitive_request, cache_completed_request, authority_epoch_matches,
  clear_authority, clear_normal_cache, cached_before, refresh_lease, service_lease,
  revoke_for_takeover, revoke_for_lifecycle_invalidation, clear_transition_retry,
}
use s3_hidbot.SessionSpec.Retries.{
  Identity, plain, sensitive, inspect, complete, sensitive_completed, less_asym, less_irrefl,
}

-- What the session does between two hellos while no transition's response is cached: it completes a
-- request that it accepted, its lease and its authority are served, and a cached transition is cleared.
pub data Step : State → State → Type 0 where
  completed :
      (session : List ℕ) (id : ℤ) (asked : Identity) (epoch : ℕ) (response : ResponseFrame)
      (state : State)
      → inspect session id asked epoch state ≡ (accept_new, none)
      → Step state (complete id asked epoch response state)
  refreshed : (now : ℕ) (state : State) → Step state (refresh_lease now state).0
  serviced : (now : ℕ) (state : State) → Step state (service_lease now state).0
  taken_over : (state : State) → Step state (revoke_for_takeover state)
  invalidated :
      (epoch : ℕ) (state : State) → Step state (revoke_for_lifecycle_invalidation epoch state)
  cleared : (state : State) → Step state (clear_transition_retry state)

pub data Reaches : State → State → Type 0 where
  here : (state : State) → Reaches state state
  later : (state next last : State) → Step state next → Reaches next last → Reaches state last

-- The session is over, or its cache keeps a request with this id or a greater one.
abbrev IsDone : ℤ → State → Type 0
IsDone id state =
    (state.active_session ≡ false)
    ⊎ ((cache : RequestCache) × (state.retry_cache ≡ normal cache)
        × (cache.valid ≡ true)
        × (cache.authority_epoch ≡ state.session_authority_epoch)
        × (less cache.id id ≡ false))

less_trans : (a b c : ℤ) → less b a ≡ false → less b c ≡ true → less a c ≡ true
less_trans (pos a) (pos b) (pos c) h k = ground arith
less_trans (pos a) (pos b) (negsuc c) h k = ground arith
less_trans (pos a) (negsuc b) c h k = ground arith
less_trans (negsuc a) (pos b) (pos c) h k = refl
less_trans (negsuc a) (pos b) (negsuc c) h k = ground arith
less_trans (negsuc a) (negsuc b) (pos c) h k = refl
less_trans (negsuc a) (negsuc b) (negsuc c) h k = ground arith

accepted_mismatched :
    (session : List ℕ) (id : ℤ) (asked : Identity) (epoch : ℕ) (state : State)
    → inspect session id asked epoch state ≡ (accept_new, none)
    → mismatched session epoch state ≡ false
unfolding inspect_request inspect_sensitive_request
accepted_mismatched session id (plain bytes) epoch state h =
    elim (Bool-cases (mismatched session epoch state)) [ inl e ↦ cc (rw e at h) | inr e ↦ e ]
accepted_mismatched session id (sensitive count digest) epoch state h =
    elim (Bool-cases (mismatched session epoch state)) [ inl e ↦ cc (rw e at h) | inr e ↦ e ]

matched_epoch :
    (session : List ℕ) (epoch : ℕ) (state : State)
    → mismatched session epoch state ≡ false
    → state.session_authority_epoch ≡ epoch
matched_epoch session epoch state m = ground arith

matched_active :
    (session : List ℕ) (epoch : ℕ) (state : State)
    → mismatched session epoch state ≡ false
    → state.active_session ≡ true
matched_active session epoch state m = ground arith

cached_newer :
    (id : ℤ) (epoch : ℕ) (cache : RequestCache) (same : Bool)
    → inspect_cache id epoch cache same ≡ (accept_new, none)
    → cache.valid ≡ true
    → cache.authority_epoch ≡ epoch
    → less cache.id id ≡ true
unfolding inspect_cache
cached_newer id epoch cache same h v e = ground arith

accepted_newer :
    (session : List ℕ) (id : ℤ) (asked : Identity) (epoch : ℕ) (state : State)
    (cache : RequestCache)
    → inspect session id asked epoch state ≡ (accept_new, none)
    → state.retry_cache ≡ normal cache
    → cache.valid ≡ true
    → cache.authority_epoch ≡ state.session_authority_epoch
    → less cache.id id ≡ true
unfolding inspect_request inspect_sensitive_request
accepted_newer session id (plain bytes) epoch state cache h r v e =
    let m = accepted_mismatched session id (plain bytes) epoch state h in
    let live = e ∙ matched_epoch session epoch state m in
    cached_newer id epoch cache _ (rw (m, r) at h) v live
accepted_newer session id (sensitive count digest) epoch state cache h r v e =
    let m = accepted_mismatched session id (sensitive count digest) epoch state h in
    let live = e ∙ matched_epoch session epoch state m in
    cached_newer id epoch cache _ (rw (m, r) at h) v live

complete-IsDone :
    (id id' : ℤ) (asked : Identity) (epoch : ℕ) (response : ResponseFrame) (state : State)
    → state.session_authority_epoch ≡ epoch
    → less id' id ≡ false
    → IsDone id (complete id' asked epoch response state)
unfolding cache_completed_request
complete-IsDone id id' (plain bytes) epoch response state e l = inr (_, refl, refl, sym e, l)
complete-IsDone id id' (sensitive count digest) epoch response state e l =
    rw (sensitive_completed id' count digest epoch response state) (inr (_, refl, refl, sym e, l))

clear_authority-ends : (state : State) → (clear_authority state).active_session ≡ false
unfolding clear_authority clear_normal_cache
clear_authority-ends state = ground arith

refresh_lease-IsDone :
    (id : ℤ) (now : ℕ) (state : State) → IsDone id state → IsDone id (refresh_lease now state).0
unfolding refresh_lease
refresh_lease-IsDone id now state done =
    if_holds (λ (r : State × Bool). IsDone id r.0) (not state.active_session) _ _ (λ e. done)
      (λ e. done)

service_lease-IsDone :
    (id : ℤ) (now : ℕ) (state : State) → IsDone id state → IsDone id (service_lease now state).0
unfolding service_lease
service_lease-IsDone id now state done =
    if_holds (λ (r : State × Bool). IsDone id r.0)
      (not state.active_session || ltb now state.lease_deadline_us) _ _ (λ e. done)
      (λ e. inl (clear_authority-ends state))

invalidated-IsDone :
    (id : ℤ) (epoch : ℕ) (state : State)
    → IsDone id state
    → IsDone id (revoke_for_lifecycle_invalidation epoch state)
unfolding revoke_for_lifecycle_invalidation
invalidated-IsDone id epoch state done =
    if_holds (IsDone id)
      ((state.active_session && not (state.session_authority_epoch == epoch))
        || (state.hello_cache.valid && not (state.hello_cache.authority_epoch == epoch))
        || cached_before epoch state.retry_cache)
      _ _ (λ e. inl (clear_authority-ends state)) (λ e. done)

clear_transition_retry-active :
    (state : State) → (clear_transition_retry state).active_session ≡ state.active_session
unfolding clear_transition_retry
clear_transition_retry-active state = ground arith

-- There is no transition to clear where a request is kept.
clear_transition_retry-normal :
    (state : State) (cache : RequestCache)
    → state.retry_cache ≡ normal cache
    → clear_transition_retry state ≡ state
unfolding clear_transition_retry
clear_transition_retry-normal state cache r = ground (arith, r)

clear_transition_retry-IsDone :
    (id : ℤ) (state : State) → IsDone id state → IsDone id (clear_transition_retry state)
clear_transition_retry-IsDone id state (inl over) = inl (clear_transition_retry-active state ∙ over)
clear_transition_retry-IsDone id state (inr (cache, r, v, e, l)) =
    subst (IsDone id) (sym (clear_transition_retry-normal state cache r)) (inr (cache, r, v, e, l))

Step-IsDone : (id : ℤ) (state next : State) → Step state next → IsDone id state → IsDone id next
Step-IsDone id _ _ (completed session id' asked epoch response state h) (inl over) =
    let m = accepted_mismatched session id' asked epoch state h in
    cc (over, matched_active session epoch state m)
Step-IsDone id _ _ (completed session id' asked epoch response state h) (inr (cache, r, v, e, l)) =
    let m = accepted_mismatched session id' asked epoch state h in
    let newer = accepted_newer session id' asked epoch state cache h r v e in
    complete-IsDone id id' asked epoch response state (matched_epoch session epoch state m)
      (less_asym id id' (less_trans id cache.id id' l newer))
Step-IsDone id _ _ (refreshed now state) done = refresh_lease-IsDone id now state done
Step-IsDone id _ _ (serviced now state) done = service_lease-IsDone id now state done
Step-IsDone id _ _ (taken_over state) done = inl (clear_authority-ends state)
Step-IsDone id _ _ (invalidated epoch state) done = invalidated-IsDone id epoch state done
Step-IsDone id _ _ (cleared state) done = clear_transition_retry-IsDone id state done

Reaches-IsDone :
    (id : ℤ) (state last : State) → Reaches state last → IsDone id state → IsDone id last
Reaches-IsDone id _ _ (here state) done = done
Reaches-IsDone id _ _ (later state next last step rest) done =
    Reaches-IsDone id next last rest (Step-IsDone id state next step done)

done-newer :
    (session : List ℕ) (id id' : ℤ) (asked : Identity) (epoch : ℕ) (state : State)
    → IsDone id state
    → inspect session id' asked epoch state ≡ (accept_new, none)
    → less id id' ≡ true
done-newer session id id' asked epoch state (inl over) h =
    cc (
      over,
      matched_active session epoch state (accepted_mismatched session id' asked epoch state h),
    )
done-newer session id id' asked epoch state (inr (cache, r, v, e, l)) h =
    less_trans id cache.id id' l (accepted_newer session id' asked epoch state cache h r v e)

matches_epoch :
    (epoch : ℕ) (state : State)
    → authority_epoch_matches epoch state ≡ true
    → state.session_authority_epoch ≡ epoch
matches_epoch epoch state h = ground arith

-- After a request is completed in the epoch of the session, every request that is accepted later, until
-- the next hello or the next cached transition (whose response takes the place of the completed
-- request's), has a greater id: whatever requests are completed in between, in whatever session and
-- epoch they are asked, and however the lease, a takeover, invalidations and clearings of a transition
-- come between.
pub accepted_once :
    (state last : State) (session : List ℕ) (id id' : ℤ) (kept asked : Identity) (epoch epoch' : ℕ)
    (response : ResponseFrame)
    → authority_epoch_matches epoch state ≡ true
    → Reaches (complete id kept epoch response state) last
    → inspect session id' asked epoch' last ≡ (accept_new, none)
    → less id id' ≡ true
accepted_once state last session id id' kept asked epoch epoch' response m r h =
    let first =
      complete-IsDone id id kept epoch response state (matches_epoch epoch state m)
        (less_irrefl id) in
    done-newer session id id' asked epoch' last
      (Reaches-IsDone id (complete id kept epoch response state) last r first) h
