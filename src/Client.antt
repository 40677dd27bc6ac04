-- ===== src/Client.antt =====
-- The client: a run, its load phases, and the connections that they own.
pub mod Stop
pub mod Bytes
pub mod Connections
pub mod Addresses
pub mod Probe
pub mod Headers
pub mod Idle
pub mod Options
pub mod Report
pub mod Target
pub mod Proxy
pub mod Run
pub mod Buffers
pub mod Flows
pub mod ProbeLoop
pub mod Clock
pub mod LoadPhase
