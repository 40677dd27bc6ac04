-- ===== src/Server.antt =====
-- server: the reference server.
pub mod Budget
pub mod Handler
pub mod Sign
pub mod Listener
pub mod Certificate
