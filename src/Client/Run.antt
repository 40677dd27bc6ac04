-- ===== src/Client/Run.antt =====
-- A run: `Run`, `run`, `discover`, `warn` and the loop over the directions in run.go, with Result,
-- ResolvedTarget and ProxyInfo of result.go.
--
-- The environment of a run is an argument: what the fetch of the configuration, the probes, the load
-- phases and the clock give, and what the caller's context says at each of the code's tests.
pub mod Discover
pub mod Phases
pub mod Steps
pub mod Core
pub mod Plan
pub mod Loads
pub mod Kept
pub mod Reported
