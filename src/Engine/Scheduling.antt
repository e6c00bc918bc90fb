-- ===== src/Engine/Scheduling.antt =====
-- What the moves of the scheduling loop keep.
pub mod Bounds
pub mod Order
pub mod Distinct
pub mod Failure
pub mod Cancellation
pub mod Coverage
pub mod Canary
