-- ===== src/UsbLifecycle.antt =====
-- firmware/components/usb_lifecycle: what the device wants of USB, what it observes of it, and what
-- it still owes to the host it talked to.
--
-- `Types` and `Bits` are the header's enumerations and the packed byte, `Members` the members and
-- private methods, `Requests`, `Completions` and `Observations` the public methods.
mod Types
mod Bits
mod Members
mod Requests
mod Completions
mod Observations
mod Calls
pub use Types.*
pub use Bits.*
pub use Members.*
pub use Requests.*
pub use Completions.*
pub use Observations.*
pub use Calls.*
unfoldable pub use Bits.{encode, has, observed_of, with_observed, set_bits, clear_bits}
unfoldable pub use Members.{
  initialize_hidden_boot_policy, advance_generation, snapshot, desired, observed, set_observed,
  set_recovery_required, clear_last_error, record_error,
}
unfoldable pub use Requests.{
  no_op_response, hand_over, begin_attach, request_attach, begin_detach, request_detach,
}
unfoldable pub use Completions.{
  is_installing, is_uninstalling, complete_install_success, complete_install_clean_failure,
  complete_install_ambiguous_failure, begin_uninstall, complete_uninstall_success,
  complete_uninstall_failure, begin_runtime_fault, update_runtime_fault, complete_runtime_fault,
}
unfoldable pub use Observations.{
  observe_mount, observe_unmount, observe_suspend, observe_resume, mark_release_pending,
  clear_release_pending_if_not_uncertain, mark_release_confirmed, mark_release_uncertain,
  mark_release_uncertain_for_generation, accepts_hid, has_unresolved_prior_generation,
}
unfoldable pub use Calls.{step, run}
