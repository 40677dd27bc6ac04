-- ===== src/Cmd.antt =====
-- The two command lines: cmd/nqserver and cmd/nq.
pub mod Server
pub mod Serve
pub mod Sign
pub mod HumanBytes
pub mod Nq
pub mod Print
pub mod Version
