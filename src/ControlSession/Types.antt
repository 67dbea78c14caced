-- ===== src/ControlSession/Types.antt =====
-- control_session.hpp: the caches and the state of the session.
use s3_hidbot.Common.{ℕ, ℤ, pos, List, Bool, false, replicate}

abbrev pub token_hex_length : ℕ
token_hex_length = 32

abbrev pub max_request_bytes : ℕ
max_request_bytes = 504

abbrev pub max_response_bytes : ℕ
max_response_bytes = 1024

abbrev pub lease_microseconds : ℕ
lease_microseconds = 5000000

-- `bytes` is an array of `max_response_bytes`.
pub record ResponseFrame : Type 0 where
  pub bytes : List ℕ
  pub length : ℕ

pub data HelloCacheResult : Type 0 where
  new_client exact_hello_retry nonce_conflict : HelloCacheResult

pub data RequestCacheResult : Type 0 where
  accept_new exact_retry id_conflict id_stale session_mismatch : RequestCacheResult

-- `client_nonce` is an array of 33 bytes, `request` one of 505.
pub record HelloCache : Type 0 where
  pub valid : Bool
  pub client_nonce : List ℕ
  pub request : List ℕ
  pub request_length : ℕ
  pub authority_epoch : ℕ
  pub response : ResponseFrame

-- `digest` is an array of 32 bytes.
pub record RequestCache : Type 0 where
  pub valid : Bool
  pub sensitive : Bool
  pub id : ℤ
  pub request : List ℕ
  pub request_length : ℕ
  pub digest : List ℕ
  pub authority_epoch : ℕ
  pub response : ResponseFrame

pub record TransitionRetryCache : Type 0 where
  pub active : Bool
  pub id : ℤ
  pub session : List ℕ
  pub request : List ℕ
  pub request_length : ℕ
  pub response : ResponseFrame

-- `retry_cache_kind_` with the member of the union that it names.
pub data RetryCache : Type 0 where
  normal : RequestCache → RetryCache
  transition : TransitionRetryCache → RetryCache

pub record State : Type 0 where
  pub boot_id : List ℕ
  pub current_session : List ℕ
  pub active_session : Bool
  pub retry_cache : RetryCache
  pub session_authority_epoch : ℕ
  pub local_owner_id : ℕ
  pub next_local_owner_id : ℕ
  pub lease_deadline_us : ℕ
  pub hello_cache : HelloCache

-- The members' initial values.
abbrev pub zeros : ℕ → List ℕ
zeros n = replicate n 0

abbrev pub empty_response : ResponseFrame
empty_response = record { bytes = zeros max_response_bytes; length = 0 }

abbrev pub empty_hello_cache : HelloCache
empty_hello_cache = record {
  valid = false;
  client_nonce = zeros 33;
  request = zeros 505;
  request_length = 0;
  authority_epoch = 0;
  response = empty_response;
}

abbrev pub empty_request_cache : RequestCache
empty_request_cache = record {
  valid = false;
  sensitive = false;
  id = pos 0;
  request = zeros 505;
  request_length = 0;
  digest = zeros 32;
  authority_epoch = 0;
  response = empty_response;
}

abbrev pub empty_transition_cache : TransitionRetryCache
empty_transition_cache = record {
  active = false;
  id = pos 0;
  session = zeros 33;
  request = zeros 505;
  request_length = 0;
  response = empty_response;
}
