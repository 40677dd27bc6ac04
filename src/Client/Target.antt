-- ===== src/Client/Target.antt =====
-- The configuration document of a target: `parseServerConfig` and `checkDuplicateKeys` of target.go.
pub mod Keys
pub mod Config
pub mod Pick
pub mod Valid
pub mod Served
