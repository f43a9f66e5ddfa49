-- ===== src/Swapd.antt =====
-- src/swapd: the swap daemon.
pub mod TemporalSafety
pub mod SyncerClient
pub mod StateReport
pub mod Messages
pub mod Runtime
pub mod SwapState
pub mod Handle
