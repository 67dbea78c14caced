-- ===== src/ControllerSpec.antt =====
-- What holds of the controller of a sequence: its word, its ends, and an abort while it starts.
pub mod Word
pub mod Ends
pub mod Aborted
pub mod Untaken
pub mod Release
pub mod Starting
pub mod Waiting
mod Examples
