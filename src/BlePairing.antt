-- ===== src/BlePairing.antt =====
-- firmware/components/ble_pairing: the pairing of a BLE connection with a passkey.
--
-- `Types` are the header's types, `Memory` the atomic members with the stores and loads on them,
-- `Methods` the class's methods.
mod Types
mod Memory
mod Methods
pub use Types.*
pub use Memory.*
pub use Methods.*
unfoldable pub use Memory.{store, store_all, publish, read_attempts, snapshot}
unfoldable pub use Methods.{
  begin_connection, begin_passkey_input, reject_unsupported_action, validate_response,
  consume_response, timeout, complete, fail_closed, disconnect, disable, reset,
}
