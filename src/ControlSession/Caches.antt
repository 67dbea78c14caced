-- ===== src/ControlSession/Caches.antt =====
-- The union of the retry caches, and the cache of transition retries.
use s3_hidbot.Common.{ℕ, ℤ, true, ◌||◌, ◌==◌, not, ltb, List, length, if◌then◌else◌}
use s3_hidbot.ControlSession.Types.{
  token_hex_length, max_request_bytes, ResponseFrame, RequestCache, RetryCache, normal, transition,
  State, empty_request_cache, empty_transition_cache,
}
use s3_hidbot.ControlSession.Storage.{copy_token, copy_request}

unfoldable pub clear_normal_cache : State → State
clear_normal_cache state = elim state.retry_cache [
  | normal _ ↦ record state { retry_cache = normal empty_request_cache }
  | transition _ ↦ state
]

-- The normal cache that `activate_normal_cache` returns a reference to.
abbrev pub activate_normal_cache : RetryCache → RequestCache
activate_normal_cache (normal cache) = cache
activate_normal_cache (transition _) = empty_request_cache

unfoldable pub clear_transition_retry : State → State
clear_transition_retry state = elim state.retry_cache [
  | normal _ ↦ state
  | transition _ ↦ record state { retry_cache = normal empty_request_cache }
]

unfoldable pub cache_transition_retry : List ℕ → ℤ → List ℕ → ResponseFrame → State → State
cache_transition_retry session id request_bytes response state =
    if not (length session == token_hex_length)
      || ltb max_request_bytes (length request_bytes)
      || response.length == 0
    then state
    else record state {
      retry_cache = transition (record {
        active = true;
        id = id;
        session = copy_token empty_transition_cache.session session;
        request = copy_request empty_transition_cache.request request_bytes;
        request_length = length request_bytes;
        response = response;
      });
    }
