-- ===== src/ControlSession/Requests.antt =====
-- How a hello and a request are told from retries, and how a completed request is kept. The second
-- component of an inspection is the cached response that the caller's pointer is set to, if any.
-- `constant_time_equal` of two digests is the comparison of their 32 bytes.
use s3_hidbot.Common.{
  ℕ, ℤ, less, Bool, true, false, not, ◌&&◌, ◌||◌, ◌==◌, List, length, Option, some, none,
  if◌then◌else◌,
}
use s3_hidbot.ControlSession.Types.{
  ResponseFrame, HelloCacheResult, new_client, exact_hello_retry, nonce_conflict,
  RequestCacheResult, accept_new, exact_retry, id_conflict, id_stale, session_mismatch,
  RequestCache, normal, transition, State, zeros,
}
use s3_hidbot.ControlSession.Storage.{same_bytes, same_token, same_request, copy_request}
use s3_hidbot.ControlSession.Caches.{clear_normal_cache, activate_normal_cache}

unfoldable pub inspect_hello : List ℕ → List ℕ → ℕ → State → HelloCacheResult × Option ResponseFrame
inspect_hello client_nonce request_bytes current_epoch state =
    let cache = state.hello_cache in
    if not cache.valid
      || not (cache.authority_epoch == current_epoch)
      || not (same_token cache.client_nonce client_nonce)
    then (new_client, none)
    else if not (same_request cache.request cache.request_length request_bytes)
    then (nonce_conflict, none)
    else (exact_hello_retry, some cache.response)

-- The request's session is not the one in force.
abbrev pub mismatched : List ℕ → ℕ → State → Bool
mismatched session current_epoch state =
    not state.active_session
    || not (state.session_authority_epoch == current_epoch)
    || not (same_token state.current_session session)

-- The tests of a normal cache, where `same` says whether the request is the one that it keeps.
unfoldable pub inspect_cache :
    ℤ → ℕ → RequestCache → Bool → RequestCacheResult × Option ResponseFrame
inspect_cache id current_epoch cache same =
    if not cache.valid || not (cache.authority_epoch == current_epoch) || less cache.id id
    then (accept_new, none)
    else if less id cache.id
    then (id_stale, none)
    else if not same
    then (id_conflict, none)
    else (exact_retry, some cache.response)

unfoldable pub inspect_request :
    List ℕ → ℤ → List ℕ → ℕ → State → RequestCacheResult × Option ResponseFrame
inspect_request session id request_bytes current_epoch state =
    if mismatched session current_epoch state
    then (session_mismatch, none)
    else elim state.retry_cache [
      | transition _ ↦ (accept_new, none)
      | normal cache ↦
          inspect_cache id current_epoch cache
            (not cache.sensitive && same_request cache.request cache.request_length request_bytes)
    ]

unfoldable pub inspect_sensitive_request :
    List ℕ → ℤ → ℕ → List ℕ → ℕ → State → RequestCacheResult × Option ResponseFrame
inspect_sensitive_request session id payload_length digest current_epoch state =
    if mismatched session current_epoch state
    then (session_mismatch, none)
    else elim state.retry_cache [
      | transition _ ↦ (accept_new, none)
      | normal cache ↦ inspect_cache id current_epoch cache (
          cache.sensitive
          && cache.request_length == payload_length
          && same_bytes cache.digest digest)
    ]

unfoldable pub cache_completed_request : ℤ → List ℕ → ℕ → ResponseFrame → State → State
cache_completed_request id request_bytes authority_epoch response state = record state {
  retry_cache = normal (record {
    valid = true;
    sensitive = false;
    id = id;
    request = copy_request (zeros 505) request_bytes;
    request_length = length request_bytes;
    digest = zeros 32;
    authority_epoch = authority_epoch;
    response = response;
  });
}

unfoldable pub cache_completed_sensitive_request :
    ℤ → ℕ → List ℕ → ℕ → ResponseFrame → State → State
cache_completed_sensitive_request id payload_length digest authority_epoch response state =
    let cleared = clear_normal_cache state in
    record cleared {
      retry_cache = normal (record (activate_normal_cache cleared.retry_cache) {
        valid = true;
        sensitive = true;
        id = id;
        request_length = payload_length;
        digest = digest;
        authority_epoch = authority_epoch;
        response = response;
      });
    }

unfoldable pub inspect_transition_retry : List ℕ → ℤ → List ℕ → State → Option ResponseFrame
inspect_transition_retry session id request_bytes state = elim state.retry_cache [
  | normal _ ↦ none
  | transition cache ↦
      if not cache.active
        || (less cache.id id || less id cache.id)
        || not (same_token cache.session session)
        || not (same_request cache.request cache.request_length request_bytes)
      then none
      else some cache.response
]
