-- ===== src/UsbSpec.antt =====
-- What the USB lifecycle promises, and that the packed machine keeps it.
pub mod Packing
pub mod Lifecycle
pub mod Refine
pub mod Safety
pub mod Faults
pub mod Teardown
mod Examples
