-- ===== src/Linksim.antt =====
-- The simulated link that the engine is tested on: internal/linksim.
pub mod Link
pub mod Loop
pub mod Finish
pub mod Phases
