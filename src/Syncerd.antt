-- ===== src/Syncerd.antt =====
-- src/syncerd: the syncers, which watch a chain for the other services.
pub mod Types
pub mod Chunks
pub mod State
mod Examples
