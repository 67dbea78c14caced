-- ===== src/SessionSpec.antt =====
-- What holds of the control session: its tokens, retries, owners and lease.
pub mod Bytes
pub mod Retries
pub mod Once
pub mod Owners
pub mod Lease
pub mod RandomTokens
mod Examples
