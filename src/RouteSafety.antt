-- ===== src/RouteSafety.antt =====
-- What holds of the HID route.
pub mod Callbacks
pub mod Handoff
pub mod Published
pub mod Commit
pub mod Refusal
pub mod Revoke
pub mod Veto
pub mod Retire
pub mod Release
pub mod TwoStages
pub mod Tokens
mod Examples
