-- ===== src/SessionSpec/Examples.antt =====
-- Tests of the session, and its theorems applied to one session.
use s3_hidbot.Common.{
  ℕ, ℤ, pos, less, ◌≡◌, ◌≢◌, ◌↔◌, refl, true, false, List, [], ◌∷◌, ◌++◌, some, none, arith, take,
  IsRising, ◌^◌, replicate, length-replicate,
}
use s3_hidbot.ControlSession.{
  new_client, accept_new, exact_retry, id_conflict, id_stale, session_mismatch, State, normal,
  initialize, clear_authority, activate_hello, refresh_lease, same_bytes, inspect_hello,
  inspect_cache, inspect_request, cache_completed_request, clear_normal_cache,
  clear_transition_retry, is_lower_hex_token, generate_token, same_token, empty_request_cache,
  empty_hello_cache, empty_response, mismatched,
}
use s3_hidbot.SessionSpec.Retries.{Identity, plain, inspect, complete, completed_answers}
use s3_hidbot.SessionSpec.Once.{refreshed, here, later, accepted_once}
use s3_hidbot.SessionSpec.Owners.{hello, takes_over, apply, granted, owners, owner_ids_rise}
use s3_hidbot.SessionSpec.Lease.{served, reaches, lease_ends}
use s3_hidbot.SessionSpec.RandomTokens.{tokens_tell_bytes, replicate-AllBytes}

abbrev token : List ℕ
token = replicate 32 b'a'

abbrev random_bytes : List ℕ
random_bytes = replicate 16 171

abbrev blank : State
blank = record {
  boot_id = replicate 33 0;
  current_session = replicate 33 0;
  active_session = false;
  retry_cache = normal empty_request_cache;
  session_authority_epoch = 0;
  local_owner_id = 0;
  next_local_owner_id = 0;
  lease_deadline_us = 0;
  hello_cache = empty_hello_cache;
}

abbrev open_session : State
open_session = record blank {
  current_session = token ++ 0 ∷ [];
  active_session = true;
  session_authority_epoch = 9;
  local_owner_id = 1;
  next_local_owner_id = 2;
  lease_deadline_us = 7;
}

abbrev ask : Identity
ask = plain (b'{' ∷ b'}' ∷ [])

two_owners :
    owners
      (hello 5 token [] token 9 empty_response
        ∷ takes_over
        ∷ hello 6 token [] token 9 empty_response
        ∷ [])
      (initialize random_bytes blank)
    ≡ 1 ∷ 2 ∷ []
unfolding owners granted apply initialize activate_hello clear_normal_cache clear_authority
    clear_transition_retry
two_owners = refl

matched : mismatched token 9 open_session ≡ false
unfolding same_bytes take replicate
matched = refl

accepted : inspect token (pos 4) ask 9 open_session ≡ (accept_new, none)
unfolding inspect_request inspect_cache same_bytes take replicate
accepted = refl

accepted_later :
    inspect token
      (pos 4)
      ask
      9
      (refresh_lease 3 (complete (pos 3) ask 9 empty_response open_session)).0
    ≡ (accept_new, none)
unfolding inspect_request inspect_cache same_bytes take replicate refresh_lease
    cache_completed_request
accepted_later = refl

completed_answers_example :
    let next = inspect token (pos 4) ask 9 (complete (pos 3) ask 9 empty_response open_session) in
    (less (pos 3) (pos 4) ≡ true → next ≡ (accept_new, none))
    × (less (pos 4) (pos 3) ≡ true → next ≡ (id_stale, none))
    × (pos 3 ≡ pos 4 → ask ≡ ask → next ≡ (exact_retry, some empty_response))
    × (pos 3 ≡ pos 4 → ask ≢ ask → next ≡ (id_conflict, none))
completed_answers_example =
    completed_answers open_session token 9 (pos 3) (pos 4) ask ask empty_response (omega arith)
      matched

accepted_once_example : less (pos 3) (pos 4) ≡ true
accepted_once_example =
    accepted_once open_session
      (refresh_lease 3 (complete (pos 3) ask 9 empty_response open_session)).0 token (pos 3) (pos 4)
      ask ask 9 9 empty_response refl
      (later (complete (pos 3) ask 9 empty_response open_session)
        (refresh_lease 3 (complete (pos 3) ask 9 empty_response open_session)).0
        (refresh_lease 3 (complete (pos 3) ask 9 empty_response open_session)).0
        (refreshed 3 (complete (pos 3) ask 9 empty_response open_session))
        (here (refresh_lease 3 (complete (pos 3) ask 9 empty_response open_session)).0))
      accepted_later

owner_ids_rise_example : IsRising (2 ^ 64) 1 (
    owners
      (hello 5 token [] token 9 empty_response
        ∷ takes_over
        ∷ hello 6 token [] token 9 empty_response
        ∷ [])
      (initialize random_bytes blank))
owner_ids_rise_example =
    owner_ids_rise random_bytes
      (hello 5 token [] token 9 empty_response
        ∷ takes_over
        ∷ hello 6 token [] token 9 empty_response
        ∷ [])
      blank

lease_ends_example :
    let leased = (refresh_lease 10 open_session).0 in
    let after = served (20 ∷ 5000011 ∷ []) leased in
    (reaches 5000010 (20 ∷ 5000011 ∷ []) ≡ false → after ≡ leased)
    × (reaches 5000010 (20 ∷ 5000011 ∷ []) ≡ true
        → (after.local_owner_id ≡ 0)
          × ((session : List ℕ) (id : ℤ) (asked : Identity) (epoch : ℕ)
              → inspect session id asked epoch after ≡ (session_mismatch, none))
          × ((nonce request : List ℕ) (epoch : ℕ)
              → inspect_hello nonce request epoch after ≡ (new_client, none)))
lease_ends_example = lease_ends 10 (20 ∷ 5000011 ∷ []) open_session refl (omega arith)

tokens_tell_bytes_example :
    (is_lower_hex_token (take 32 (generate_token random_bytes)) ≡ true)
    × ((same_token (generate_token random_bytes) (take 32 (generate_token random_bytes)) ≡ true)
        ↔ (random_bytes ≡ random_bytes))
tokens_tell_bytes_example =
    let small = replicate-AllBytes 16 171 (omega arith) in
    tokens_tell_bytes random_bytes random_bytes (length-replicate 16 171) (length-replicate 16 171)
      small small
