-- ===== src/ControlSession.antt =====
-- firmware/components/control_session: the session of the control protocol and its retry caches.
--
-- `Types` are the header's types, `Storage` the fixed arrays and tokens, `Caches` the union of the
-- retry caches, `Authority` the session's life, `Requests` how a request is told from its retries.
mod Types
mod Storage
mod Caches
mod Authority
mod Requests
pub use Types.*
pub use Storage.*
pub use Caches.*
pub use Authority.*
pub use Requests.*
unfoldable pub use Storage.{same_bytes, hex_digits, hex_from}
unfoldable pub use Caches.{clear_normal_cache, cache_transition_retry, clear_transition_retry}
unfoldable pub use Authority.{
  clear_authority, initialize, refresh_lease, service_lease, activate_hello,
  revoke_for_lifecycle_invalidation,
}
unfoldable pub use Requests.{
  inspect_hello, inspect_cache, inspect_request, inspect_sensitive_request,
  inspect_transition_retry, cache_completed_request, cache_completed_sensitive_request,
}
