-- ===== src/BleSpec.antt =====
-- What holds of the BLE lifecycle and of the transaction that stops its stack.
pub mod Packing
pub mod Safety
pub mod Histories
pub mod Recovery
pub mod Stopping
mod Examples
