-- ===== src/Lib.antt =====
-- farcaster-node: the daemons of Farcaster, atomic swaps between Bitcoin and Monero.
--
-- The parts. `farcasterd` starts one `swapd` for each swap and one syncer for each chain; `peerd`
-- carries messages to the counterparty, `databased` keeps checkpoints, and all speak over a bus of
-- messages. A `swapd` is a state machine: requests of `farcasterd`, messages of the peer and events of
-- the two syncers drive it, and it answers with messages, tasks for the syncers and transactions. A
-- syncer keeps the tasks that it was given and turns changes of its chain into events for them.
--
-- The modules, with paths from the repository's root:
-- - Base: names of the common libraries, tests on numbers, words of 32 and 64 bits, association lists
--   for the hash maps of the code, and code that may panic (`none` is the panic).
-- - Bus: `ServiceId` of src/service.rs and the chains.
-- - Swapd.TemporalSafety: src/swapd/temporal_safety.rs, function by function. Its subtractions on
--   `u32` wrap around, its countdowns are integers. Swapd.TemporalSafety.Windows has the theorems.
-- - Swapd.SyncerClient: src/swapd/syncer_client.rs, `SyncerTasks` and `SyncerState`: each method that
--   makes a task returns the task and the new state. Its child Broadcasts is about the transactions that
--   are kept for a checkpoint.
-- - Swapd.Messages: the messages, states and checkpoints of src/bus and src/swapd that a swap takes
--   part in. What only the wallet reads is bytes.
-- - Swapd.Runtime: `Runtime` of src/swapd/runtime.rs and the calls that the state machine makes on it.
--   Code on it runs in `Exec`: it takes the runtime with the trace of its effects and returns a value
--   or an error with the new one; what was done before an error stays done. Its children are rules for
--   such code: Rules about what it returns, Plain, Casts and CastsOnce about what it broadcasts, Keeps
--   about what it leaves as it is. Samples has a wallet and a runtime to try them on.
-- - Swapd.SwapState: src/swapd/swap_state.rs. One function for each handler, under its name in the
--   code: Common, Start, Reveal, Bob, BobEnd, Alice, AliceEnd; Next is `SwapStateMachine::next`. Graph
--   is the diagram of states as a relation, with aborts and loops, FollowsStart, FollowsBob, FollowsAlice and Follows hold
--   the handlers against it. Runs, Outcomes and Ranks are about sequences of requests; QuietParts,
--   QuietHandlers, Publishes, PublishBob, PublishAlice and Published are about broadcasts; Refusals is
--   about requests to abort.
-- - Swapd.StateReport: src/swapd/state_report.rs, with its theorems in Laws.
-- - Swapd.Handle: the message handlers of src/swapd/runtime.rs. `Daemon` is the runtime with the state
--   machine, the unhandled message and the last report beside it; a handler takes it and ends in a
--   `Verdict`: it returned, failed with an error, panicked, left the process, or used up the model's
--   fuel. Control has `handle_ctl`, `handle_info` and `handle`. Guards, Reconnects and Restores are
--   about `handle_msg`, `PeerdReconnected` and `Checkpoint`. Kept (with Parts, Start, Bob, Alice and
--   Next), Triples, Debts, Payments, Potential, Stored, Terminates with its child Induction, and
--   Serves are about the calls that the state machine makes on its own.
-- - Syncerd.Types: src/syncerd/types.rs. Syncerd.Chunks: the chunks in which a transaction travels.
-- - Syncerd.State: `SyncerState` of src/syncerd/syncer_state.rs, its operations in the children Watch,
--   Abort, Change, ChangeAddress and ChangeTransaction; Run is any sequence of calls, and Owned,
--   AbortOwned, Sourced, SourcedEntries and Total hold the invariant that every task has a source;
--   AbortForeign is about the tasks that an abort leaves.
--
-- - Farcasterd.Stats: src/farcasterd/stats.rs, and in History all that was reported to it.
-- - Farcasterd.Runtime: the part of src/farcasterd/runtime.rs that is about syncers: which run, which are
--   starting, and the table of requests that wait for them; `Exec` is code on it, as in Swapd.Runtime.
--   CleanUp and Launches are about its `clean_up_after_syncer_usage` and `syncer_up`.
-- - Farcasterd.SyncerStateMachine: src/farcasterd/syncer_state_machine.rs, and how the runtime finds and
--   files its state machines. Ends is about how a request ends, Redirects about
--   who takes its answer over, Tables and Keyed about the table.
-- - Databased.Store: `Database` of src/databased/runtime.rs, over LMDB and the formats as parameters;
--   Contents is what LMDB documents of its calls, as hypotheses. Databased.Runtime: the handlers;
--   Checkpoints is about `Checkpoint` and `RestoreCheckpoint`, Secrets about the stored keys,
--   Dangling about `CleanDanglingDeals`.
--
-- What stands for what. A hash map is an association list whose insertion replaces, a hash set a list
-- without repetition; where the code walks a map, the model walks the list, so the order of events is
-- that of the list. Numbers are natural numbers; task counters and thresholds wrap at 2^32, lifetimes
-- at 2^64. Loops run over lists. The one function with fuel is `execute_state_machine` of Swapd.Handle,
-- which in the code calls itself through the replay of kept events: a call with fuel 0 ends in the
-- verdict `out_of_fuel`, the fuel is the depth of nested calls, and 115 is enough because a call that
-- nests moves the state machine, and the phase that it reaches and what is left to act on in it bound
-- the moves. The wallet, the crates for
-- Bitcoin, Monero and the swap protocol, and whether the bus delivers a message are the fields of
-- `Env`, which every handler takes and about which nothing is assumed. `unwrap` on a missing entry is
-- an error of the step in Swapd and a panic in Syncerd.
--
-- Not modelled: log lines except that of a broadcast, texts of messages except the names of states, the
-- start of a swap's process in src/swapd/runtime.rs, src/swapd/wallet.rs, the connections of the syncers to their servers,
-- the trades, peers and progress messages of src/farcasterd, and the other daemons (src/peerd, src/grpcd, src/walletd, src/cli).
pub mod Base
pub mod Bus
pub mod Syncerd
pub mod Swapd
pub mod Farcasterd
pub mod Databased
