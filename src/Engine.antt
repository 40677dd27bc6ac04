-- ===== src/Engine.antt =====
-- internal/engine: the measurement algorithm, with no clock and no I/O.
pub mod Params
pub mod Tracker
pub mod Samples
pub mod Responsiveness
pub mod State
pub mod Interval
pub mod Summary
pub mod Frame
pub mod Ramp
pub mod Phase
pub mod Ascending
pub mod Invariant
pub mod Decisions
pub mod Report
pub mod Rating
pub mod Order
pub mod Reorder
pub mod Bag
