-- ===== src/SequenceSpec.antt =====
-- What holds of a sequence's text and its plan.
pub mod Decimal
pub mod Tokens
pub mod Text
pub mod Grammar
pub mod Sound
pub mod Plan
mod Examples
