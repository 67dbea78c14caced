-- ===== src/SessionSpec/Retries.antt =====
-- What the inspection of a request says after a request was completed.
use s3_hidbot.Common.{
  ℕ, ℤ, pos, negsuc, less, ◌≤◌, ◌≡◌, ◌≢◌, ◌⊎◌, inl, inr, refl, ap, Bool, true, false, not, ◌&&◌,
  ◌==◌, List, length, Option, some, none, arith, if◌then◌else◌,
}
use s3_hidbot.ControlSession.{
  ResponseFrame, RequestCacheResult, accept_new, exact_retry, id_conflict, id_stale, RequestCache,
  TransitionRetryCache, RetryCache, normal, transition, State, zeros, mismatched, same_bytes,
  inspect_cache, inspect_request, inspect_sensitive_request, clear_normal_cache,
  cache_completed_request, cache_completed_sensitive_request,
}
use s3_hidbot.SessionSpec.Bytes.{same_bytes_iff, same_bytes_refl, same_request-copy_request}

-- What a request is known by: its bytes, or a payload's length and digest.
pub data Identity : Type 0 where
  plain : List ℕ → Identity
  sensitive : ℕ → List ℕ → Identity

abbrev pub inspect : List ℕ → ℤ → Identity → ℕ → State → RequestCacheResult × Option ResponseFrame
inspect session id (plain bytes) epoch state = inspect_request session id bytes epoch state
inspect session id (sensitive count digest) epoch state =
    inspect_sensitive_request session id count digest epoch state

abbrev pub complete : ℤ → Identity → ℕ → ResponseFrame → State → State
complete id (plain bytes) epoch response state =
    cache_completed_request id bytes epoch response state
complete id (sensitive count digest) epoch response state =
    cache_completed_sensitive_request id count digest epoch response state

-- A request's bytes fit the cache's array.
abbrev pub Fits : Identity → Type 0
Fits (plain bytes) = length bytes ≤ 504
Fits (sensitive _ _) = Unit {0}

pub less_irrefl : (id : ℤ) → less id id ≡ false
less_irrefl (pos n) = ground arith
less_irrefl (negsuc n) = ground arith

pub less_asym : (id id' : ℤ) → less id id' ≡ true → less id' id ≡ false
less_asym (pos n) (pos m) h = ground arith
less_asym (pos n) (negsuc m) h = ground (arith, h)
less_asym (negsuc n) (pos m) h = refl
less_asym (negsuc n) (negsuc m) h = ground arith

same_identity : Identity → Identity → Bool
same_identity (plain kept) (plain asked) = same_bytes kept asked
same_identity (plain _) (sensitive _ _) = false
same_identity (sensitive _ _) (plain _) = false
same_identity (sensitive count digest) (sensitive count' digest') =
    count == count' && same_bytes digest digest'

-- The answer for a later identity, of a cache that keeps this one.
abbrev pub answer : ℤ → ℤ → Bool → ResponseFrame → RequestCacheResult × Option ResponseFrame
answer id id' same response =
    if less id id'
    then (accept_new, none)
    else if less id' id
    then (id_stale, none)
    else if not same
    then (id_conflict, none)
    else (exact_retry, some response)

pub inspect_cache-valid :
    (id' : ℤ) (epoch : ℕ) (cache : RequestCache) (same : Bool)
    → cache.valid ≡ true
    → cache.authority_epoch ≡ epoch
    → inspect_cache id' epoch cache same ≡ answer cache.id id' same cache.response
unfolding inspect_cache
inspect_cache-valid id' epoch cache same v e = ground arith

pub RetryCache-cases :
    (retry : RetryCache)
    → ((cache : RequestCache) × (retry ≡ normal cache))
      ⊎ ((cache : TransitionRetryCache) × (retry ≡ transition cache))
RetryCache-cases (normal cache) = inl (cache, refl)
RetryCache-cases (transition cache) = inr (cache, refl)

-- The completion of a sensitive request leaves nothing of what was cached.
pub sensitive_completed :
    (id : ℤ) (count : ℕ) (digest : List ℕ) (epoch : ℕ) (response : ResponseFrame) (state : State)
    → cache_completed_sensitive_request id count digest epoch response state ≡ record state {
      retry_cache = normal (record {
        valid = true;
        sensitive = true;
        id = id;
        request = zeros 505;
        request_length = count;
        digest = digest;
        authority_epoch = epoch;
        response = response;
      });
    }
unfolding cache_completed_sensitive_request clear_normal_cache
sensitive_completed id count digest epoch response state =
    elim (RetryCache-cases state.retry_cache) [
      | inl (cache, e) ↦ rw e refl
      | inr (cache, e) ↦ rw e refl
    ]

inspect-complete :
    (state : State) (session : List ℕ) (epoch : ℕ) (id id' : ℤ) (kept asked : Identity)
    (response : ResponseFrame)
    → Fits kept
    → mismatched session epoch state ≡ false
    → inspect session id' asked epoch (complete id kept epoch response state)
      ≡ answer id id' (same_identity kept asked) response
unfolding inspect_request inspect_sensitive_request cache_completed_request same_identity
inspect-complete state session epoch id id' (plain bytes) (plain bytes') response f m =
    rw (m, same_request-copy_request bytes bytes' f) (inspect_cache-valid id' epoch _ _ refl refl)
inspect-complete state session epoch id id' (plain bytes) (sensitive count digest) response f m =
    rw m (inspect_cache-valid id' epoch _ _ refl refl)
inspect-complete state session epoch id id' (sensitive count digest) (plain bytes) response f m =
    rw (sensitive_completed id count digest epoch response state, m)
      (inspect_cache-valid id' epoch _ _ refl refl)
inspect-complete state session epoch id id' (sensitive count digest) (sensitive count' digest')
      response f m =
    rw (sensitive_completed id count digest epoch response state, m)
      (inspect_cache-valid id' epoch _ _ refl refl)

same_identity_refl : (kept : Identity) → same_identity kept kept ≡ true
unfolding same_identity
same_identity_refl (plain kept) = same_bytes_refl kept
same_identity_refl (sensitive count digest) = ground (arith, same_bytes_refl digest)

same_identity_sound : (kept asked : Identity) → same_identity kept asked ≡ true → kept ≡ asked
unfolding same_identity
same_identity_sound (plain kept) (plain asked) h = ap plain ((same_bytes_iff kept asked).0 h)
same_identity_sound (plain _) (sensitive _ _) h = cc h
same_identity_sound (sensitive _ _) (plain _) h = cc h
same_identity_sound (sensitive count digest) (sensitive count' digest') h =
    ground (arith, same_bytes_iff digest digest')

-- After a request is completed in the session in force, a request with a greater id is accepted, one
-- with a smaller id is stale, and one with the same id gets the kept response when it is the same
-- request (the same bytes, or a payload of the same length and digest) and is a conflict otherwise. A
-- request's bytes fit the cache's array.
pub completed_answers :
    (state : State) (session : List ℕ) (epoch : ℕ) (id id' : ℤ) (kept asked : Identity)
    (response : ResponseFrame)
    → Fits kept
    → mismatched session epoch state ≡ false
    → let next = inspect session id' asked epoch (complete id kept epoch response state) in
      (less id id' ≡ true → next ≡ (accept_new, none))
      × (less id' id ≡ true → next ≡ (id_stale, none))
      × (id ≡ id' → kept ≡ asked → next ≡ (exact_retry, some response))
      × (id ≡ id' → kept ≢ asked → next ≡ (id_conflict, none))
completed_answers state session epoch id id' kept asked response f m =
    let answered = inspect-complete state session epoch id id' kept asked response f m in
    (
      λ l. rw answered (rw l refl),
      λ l. rw answered (rw (l, less_asym id' id l) refl),
      λ i k. rw answered (rw (← i, ← k, less_irrefl id, same_identity_refl kept) refl),
      λ i k.
          rw answered
            (rw (← i, less_irrefl id) (ground (arith, k, same_identity_sound kept asked))),
    )
