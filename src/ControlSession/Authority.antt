-- ===== src/ControlSession/Authority.antt =====
-- The life of the session: hello, lease, takeover, invalidation. `now` is what the clock returns to
-- the call, 0 when there is no clock.
use s3_hidbot.Common.{
  ℕ, ◌+◌, ◌-◌, ◌^◌, ◌%◌, Bool, true, false, not, ◌&&◌, ◌||◌, ◌==◌, ltb, List, length, set,
  if◌then◌else◌,
}
use s3_hidbot.ControlSession.Types.{
  lease_microseconds, ResponseFrame, RetryCache, normal, transition, State, empty_hello_cache,
}
use s3_hidbot.ControlSession.Storage.{copy_token, copy_request, generate_token}
use s3_hidbot.ControlSession.Caches.{clear_normal_cache, clear_transition_retry}

abbrev pub clear_hello_cache : State → State
clear_hello_cache state = record state { hello_cache = empty_hello_cache }

unfoldable pub clear_authority : State → State
clear_authority state = clear_hello_cache (
    clear_normal_cache (record state {
      active_session = false;
      current_session = set state.current_session 0 0;
      session_authority_epoch = 0;
      local_owner_id = 0;
      lease_deadline_us = 0;
    }))

abbrev pub revoke_for_takeover : State → State
revoke_for_takeover state = clear_authority state

-- The call on an object in any state.
unfoldable pub initialize : List ℕ → State → State
initialize random_bytes state =
    let cleared = clear_hello_cache (
      clear_normal_cache (
        clear_transition_retry (record state {
          active_session = false;
          current_session = set state.current_session 0 0;
          session_authority_epoch = 0;
          local_owner_id = 0;
          next_local_owner_id = 1;
          lease_deadline_us = 0;
        }))) in
    record cleared { boot_id = generate_token random_bytes }

abbrev pub authority_epoch_matches : ℕ → State → Bool
authority_epoch_matches current_epoch state =
    state.active_session && state.session_authority_epoch == current_epoch

-- The sum of 64-bit numbers.
abbrev pub lease_from : ℕ → ℕ
lease_from now = (now + lease_microseconds) % 2 ^ 64

unfoldable pub refresh_lease : ℕ → State → State × Bool
refresh_lease now state =
    if not state.active_session
    then (state, false)
    else (record state { lease_deadline_us = lease_from now }, true)

unfoldable pub service_lease : ℕ → State → State × Bool
service_lease now state =
    if not state.active_session || ltb now state.lease_deadline_us
    then (state, false)
    else (clear_authority state, true)

unfoldable pub activate_hello :
    ℕ → List ℕ → List ℕ → List ℕ → ℕ → ResponseFrame → State → State × Bool
activate_hello now client_nonce request_bytes new_session authority_epoch response state =
    let owner_id = state.next_local_owner_id in
    if owner_id == 0
    then (state, false)
    else (let opened = clear_normal_cache (record state {
      next_local_owner_id = if owner_id == 2 ^ 64 - 1 then 0 else owner_id + 1;
      current_session = copy_token state.current_session new_session;
      active_session = true;
      session_authority_epoch = authority_epoch;
      local_owner_id = owner_id;
      lease_deadline_us = lease_from now;
    }) in
        (
          record opened {
            hello_cache = record {
              valid = true;
              client_nonce = copy_token empty_hello_cache.client_nonce client_nonce;
              request = copy_request empty_hello_cache.request request_bytes;
              request_length = length request_bytes;
              authority_epoch = authority_epoch;
              response = response;
            };
          },
          true,
        ))

-- `retry_cache_.normal` is of another epoch, if it is the member in use.
abbrev pub cached_before : ℕ → RetryCache → Bool
cached_before current_epoch (normal cache) =
    cache.valid && not (cache.authority_epoch == current_epoch)
cached_before current_epoch (transition _) = false

unfoldable pub revoke_for_lifecycle_invalidation : ℕ → State → State
revoke_for_lifecycle_invalidation current_epoch state =
    if (state.active_session && not (state.session_authority_epoch == current_epoch))
      || (state.hello_cache.valid && not (state.hello_cache.authority_epoch == current_epoch))
      || cached_before current_epoch state.retry_cache
    then clear_authority state
    else state
