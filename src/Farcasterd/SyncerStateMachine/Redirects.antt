-- ===== src/Farcasterd/SyncerStateMachine/Redirects.antt =====
-- What another service's message does to a request that waits for its syncer to start, in
-- src/farcasterd/syncer_state_machine.rs.
use farcaster_node.Base.{Option, some, Result, ok}
use farcaster_node.Bus.{ServiceId_eq}
use farcaster_node.Farcasterd.Runtime.{SyncerStateMachine, AwaitingSyncer, AwaitingSyncerRequest}

-- The request of `a` once its syncer was asked.
abbrev pub asked : AwaitingSyncer → AwaitingSyncerRequest
asked a = record { source = a.source; syncer = a.syncer; syncer_task_id = a.syncer_task_id }

or_same : SyncerStateMachine → Result (Option SyncerStateMachine) → SyncerStateMachine
or_same s (ok (some t)) = t
or_same s _ = s
