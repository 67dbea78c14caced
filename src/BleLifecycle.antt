-- ===== src/BleLifecycle.antt =====
-- firmware/components/ble_lifecycle: the lifecycle of the BLE stack, over its packed byte.
mod Types
mod Members
mod Requests
mod Completions
mod Methods
pub use Types.*
pub use Members.*
pub use Requests.*
pub use Completions.*
pub use Methods.*
unfoldable pub use Members.{initial, publish, advance_generation, clear_error, set_error, snapshot}
unfoldable pub use Requests.{
  begin_enable, begin_disable, begin_hidden_restart, begin_hidden_initialization,
}
unfoldable pub use Completions.{
  complete_hidden_sync, complete_sync, complete_advertising, observe_connect, observe_disconnect,
  complete_disable, begin_reset_recovery, complete_fault,
}
unfoldable pub use Methods.{apply, apply_all}
