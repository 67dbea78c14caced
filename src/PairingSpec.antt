-- ===== src/PairingSpec.antt =====
-- What holds of the pairing's snapshots, ids and responses.
pub mod Torn
pub mod Shown
pub mod Responses
pub mod Exchange
mod Examples
