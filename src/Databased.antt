-- ===== src/Databased.antt =====
-- The daemon that keeps checkpoints, secret keys and deals, src/databased.
pub mod Store
pub mod Runtime
pub mod Contents
pub mod Secrets
pub mod Checkpoints
pub mod Examples
pub mod Dangling
