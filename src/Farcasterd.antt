-- ===== src/Farcasterd.antt =====
-- The daemon that starts the others, src/farcasterd.
pub mod Stats
pub mod Runtime
pub mod SyncerStateMachine
