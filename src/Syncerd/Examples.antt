-- ===== src/Syncerd/Examples.antt =====
-- The syncers' state (src/syncerd/syncer_state.rs) at concrete calls.
use farcaster_node.Base.{◌≢◌, refl, lookup, ℕ_discrete, arith, List, [], ◌∷◌, some, true}
use farcaster_node.Base.Panics.{Yields}
use farcaster_node.Bus.{loopback, bitcoin, farcasterd}
use farcaster_node.Syncerd.Types.{all_tasks}
use farcaster_node.Syncerd.State.{SyncerState, new}
use farcaster_node.Syncerd.State.Abort.{abort as abort_tasks}
use farcaster_node.Syncerd.State.AbortForeign.{Same, abort_foreign}
use farcaster_node.Syncerd.State.Owned.{Inv}
use farcaster_node.Syncerd.State.Run.{
  Call, watch_height, watch_transaction, change_height, change_transaction, abort, run,
}
use farcaster_node.Syncerd.State.Total.{all_ids_taken, run_total}

-- Two watched tasks, a new block, a transaction with a confirmation, and an abort of everything.
abbrev calls : List Call
calls =
    watch_height (record { id = 1; lifetime = 100 }) farcasterd
    ∷ watch_transaction (record { id = 2; lifetime = 100; hash = 7 ∷ []; confirmation_bound = 6 })
        farcasterd
    ∷ change_height 10 (1 ∷ [])
    ∷ change_transaction (7 ∷ []) (some (1 ∷ [])) (some 1) (9 ∷ [])
    ∷ abort all_tasks farcasterd true
    ∷ []

run_total_example : Yields (Inv (all_ids_taken calls)) (run calls (new bitcoin))
run_total_example = run_total bitcoin calls (omega arith)

-- The state after `farcasterd` has had a height watched as task 7.
abbrev watching : SyncerState
watching = record (new bitcoin) {
  task_count = 1;
  watch_height = (1, record { id = 7; lifetime = 100 }) ∷ [];
  tasks_sources = (1, farcasterd) ∷ [];
}

farcasterd-loopback : farcasterd ≢ loopback
farcasterd-loopback = λ e. cc e

abort_foreign_example : Same 1 watching (abort_tasks all_tasks loopback true watching)
unfolding lookup ℕ_discrete
abort_foreign_example =
    abort_foreign all_tasks loopback farcasterd true 1 watching refl farcasterd-loopback
