-- ===== src/Swapd/Handle.antt =====
-- The message handlers of src/swapd/runtime.rs around the state machine of a swap.
mod Potential
pub mod Control
mod Reconnects
mod Guards
mod Restores
mod Kept
mod Triples
mod Debts
mod Payments
mod Stored
mod Terminates
mod Serves
mod Examples
use farcaster_node.Base.{
  ℕ, zero, suc, Bool, true, false, not, ◌&&◌, Option, none, some, List, [], ◌∷◌, if◌then◌else◌,
  ◌==◌, lookup, contains_key, same, codes, ◌++◌, ℕ_eq,
}
use farcaster_node.Bus.{
  Bytes, Bytes_eq, Blockchain, bitcoin, monero, ServiceId, ServiceId_eq, farcasterd, peer, swap,
}
use farcaster_node.Syncerd.Types.{
  Task, Event, height_changed, transaction_confirmations, transaction_broadcasted,
  transaction_retrieved, XmrAddressAddendum,
}
use farcaster_node.Swapd.TemporalSafety.{final_tx}
use farcaster_node.Swapd.SyncerClient
use farcaster_node.Swapd.SyncerClient.{
  TxLabel, TxLabel_eq, lock, cancel, buy, acc_lock, SyncerState, handle_height_change,
  handle_tx_confs, watch_tx_btc, watch_addr_xmr,
}
use farcaster_node.Swapd.StateReport
use farcaster_node.Swapd.StateReport.{
  StateReport, StateReport-discrete, generate_progress_update_or_transition,
}
use farcaster_node.Swapd.Messages.{
  Checkpoint, Message, Outcome, PeerMsg, Request, State, p2p, sync_event, other_request, progress,
  swap_outcome, swap_info, success_swap, failure_refund, failure_punish, failure_abort, bob, alice,
  taker_commit, maker_commit, reveal, core_arbitrating_setup, refund_procedure_signatures,
  buy_procedure_signature, deal_not_found, other_peer_msg,
}
use farcaster_node.Swapd.Runtime.{
  Runtime, World, Env, Result, ok, err, Exec, done, fail, gets, modify, guarded, on_syncer, ◌>>=◌,
  ◌>>◌, send_to, send_bitcoin, send_monero, send_peer, watch_height, to_enquirer, complete_client,
}
use farcaster_node.Swapd.SwapState.Next.{next}

-- A message of the peer with the id of its swap. `unaddressed` are the kinds without one (pings,
-- identities, shutdowns), whose `swap_id` panics.
pub data Incoming : Type 0 where
  addressed : Bytes → PeerMsg → Incoming
  abort : Bytes → Incoming
  unaddressed : Incoming

-- The swap daemon: the runtime with its trace, and the fields of `Runtime` beside it.
pub record Daemon : Type 0 where
  pub world : World
  pub swap_state_machine : State
  pub unhandled_peer_message : Option Incoming
  pub latest_state_report : StateReport

-- How a handler ends: it returns, returns an error, panics, leaves the process, or the model's
-- bound on nested calls is used up.
pub data Verdict : Type 0 where
  returned failed panicked exited out_of_fuel : Verdict

abbrev pub Handler : Type 0
Handler = Daemon → Verdict × Daemon

-- `?` between two statements.
abbrev pub after : Verdict × Daemon → Handler → Verdict × Daemon
after (returned, d) h = h d
after (failed, d) h = (failed, d)
after (panicked, d) h = (panicked, d)
after (exited, d) h = (exited, d)
after (out_of_fuel, d) h = (out_of_fuel, d)

infixr 6 ◌then_do◌
unfoldable pub ◌then_do◌ : Handler → Handler → Handler
(h then_do k) d = after (h d) k

unfoldable pub return : Handler
return d = (returned, d)

-- Code on the runtime, within a handler.
abbrev pub ran : {A : Type 0} → Daemon → Result A × World → (A → Handler) → Verdict × Daemon
ran d (ok a, w) k = k a (record d { world = w })
ran d (err, w) k = (failed, record d { world = w })

unfoldable pub run : {A : Type 0} → Exec A → (A → Handler) → Handler
run m k d = ran d (m d.world) k

unfoldable pub perform : Exec (Unit {0}) → Handler
unfolding run return
perform m = run m (λ _. return)

-- The texts of `SwapStateMachine`'s `Display`.
outcome_text : Outcome → Bytes
outcome_text success_swap = codes "Success Swap"
outcome_text failure_refund = codes "Failure Refund"
outcome_text failure_punish = codes "Failure Punish"
outcome_text failure_abort = codes "Failure Abort"

pub display : State → Bytes
unfolding outcome_text
display (State.start_taker bob) = codes "Start Bob Taker"
display (State.start_taker alice) = codes "Start Alice Taker"
display (State.start_maker bob) = codes "Start Bob Maker"
display (State.start_maker alice) = codes "Start Alice Maker"
display (State.bob_init_maker _ _ _) = codes "Bob Init Maker"
display (State.alice_init_maker _ _ _) = codes "Alice Init Maker"
display (State.bob_init_taker _ _) = codes "Bob Init Taker"
display (State.alice_init_taker _ _) = codes "Alice Init Taker"
display (State.bob_taker_maker_commit _ _ _) = codes "Bob Taker Maker Commit"
display (State.alice_taker_maker_commit _ _ _) = codes "Alice Taker Maker Commit"
display (State.bob_reveal _ _ _) = codes "Bob Reveal"
display (State.bob_fee_estimated _ _ _ _) = codes "Bob Fee Estimated"
display (State.bob_funded _ _ _) = codes "Bob Funded"
display (State.bob_refund_procedure_signatures _ _ _ _) = codes "Bob Refund Procedure Signatures"
display (State.bob_accordant_lock _ _ _ _) = codes "Bob Accordant Lock"
display (State.bob_accordant_lock_final _ _ _) = codes "Bob Accordant Lock Final"
display (State.bob_buy_final _) = codes "Bob Buy Final"
display State.bob_buy_sweeping = codes "Bob Buy Sweeping"
display State.bob_canceled = codes "Bob Cancel"
display State.bob_cancel_final = codes "Bob Cancel Final"
display State.bob_abort_awaiting_bitcoin_sweep = codes "Bob Abort Awaiting Bitcoin Sweep"
display (State.alice_reveal _ _ _) = codes "Alice Reveal"
display (State.alice_core_arbitrating_setup _ _ _) = codes "Alice Core Arbitrating Setup"
display (State.alice_arbitrating_lock_final _ _ _) = codes "Alice Abitrating Lock Final"
display (State.alice_accordant_lock _) = codes "Alice Accordant Lock"
display State.alice_buy_procedure_signature = codes "Alice Buy Procedure Signature"
display (State.alice_canceled _) = codes "Alice Cancel"
display (State.alice_refund _) = codes "Alice Refund"
display State.alice_refund_sweeping = codes "Alice Refund Sweeping"
display (State.swap_end outcome) = codes "Swap End: " ++ outcome_text outcome

-- What reaches `execute_state_machine`.
pub data Arrival : Type 0 where
  from_peer : Incoming → Arrival
  control : Request → Arrival
  from_syncer : Event → Arrival
  sync_task : Arrival

unfoldable pub request_of : Arrival → Request
request_of (from_peer (addressed _ m)) = p2p m
request_of (from_peer _) = other_request
request_of (control r) = r
request_of (from_syncer e) = sync_event e
request_of sync_task = other_request

-- What a syncer's event changes before the state machine sees it.
unfoldable pub note_monero : Event → Exec (Unit {0})
note_monero (height_changed h) =
    modify (λ r. record r { syncer_state = handle_height_change h.height monero r.syncer_state })
note_monero (transaction_confirmations c) = modify (λ r. record r {
  syncer_state =
      handle_tx_confs c.id c.confirmations r.temporal_safety.xmr_finality_thr r.syncer_state;
})
note_monero _ = done tt

-- The confirmations of three transactions are kept, to be replayed.
unfoldable pub keep_event : Event → Option TxLabel → SyncerState → SyncerState
keep_event e (some lock) s = record s { lock_tx_confs = some e }
keep_event e (some cancel) s = record s { cancel_tx_confs = some e }
keep_event e (some buy) s = record s { buy_tx_confs = some e }
keep_event e _ s = s

unfoldable pub is_final_watched : Option ℕ → ℕ → Runtime → Bool
is_final_watched none id r = false
is_final_watched (some confs) id r =
    final_tx r.temporal_safety confs bitcoin && contains_key id r.syncer_state.tasks.watched_txs

unfoldable pub note_confirmations : ℕ → Option ℕ → Event → Runtime → Runtime
unfolding is_final_watched
note_confirmations id confs e r =
    let noted = handle_tx_confs id confs r.temporal_safety.btc_finality_thr r.syncer_state in
    record r {
      syncer_state =
          if is_final_watched confs id r
          then keep_event e (lookup id noted.tasks.watched_txs) noted
          else noted;
    }

unfoldable pub retrieve_again : Env → Option (TxLabel × Task) → Exec (Unit {0})
retrieve_again env none = done tt
retrieve_again env (some (_, t)) = send_bitcoin env t

unfoldable pub note_bitcoin : Env → Event → Exec (Unit {0})
unfolding retrieve_again
note_bitcoin env (height_changed h) =
    modify (λ r. record r { syncer_state = handle_height_change h.height bitcoin r.syncer_state })
note_bitcoin env (transaction_retrieved id none) = do
  entry ← gets (λ r. lookup id r.syncer_state.tasks.retrieving_txs)
  retrieve_again env entry
note_bitcoin env (transaction_confirmations c) =
    modify (note_confirmations c.id c.confirmations (transaction_confirmations c))
note_bitcoin env (transaction_broadcasted id _ _) =
    modify (λ r. record r { syncer_state = SyncerClient.transaction_broadcasted id r.syncer_state })
note_bitcoin env _ = done tt

unfoldable pub note_event : Env → ServiceId → Event → Exec (Unit {0})
note_event env source e =
    guarded (λ r. same source r.syncer_state.monero_syncer) (note_monero e)
      (guarded (λ r. same source r.syncer_state.bitcoin_syncer) (note_bitcoin env e) (done tt))

unfoldable pub is_peer : ServiceId → Bool
is_peer (peer _ _) = true
is_peer _ = false

-- The handler that the state machine's own calls go back to, given the source and what arrived.
abbrev pub Executor : Type 0
Executor = ServiceId → Arrival → Handler

unfoldable pub handle_msg : Executor → ServiceId → Incoming → Handler
unfolding is_peer
handle_msg execute source m d =
    if is_peer source && not (same d.world.runtime.peer_service source)
    then (failed, d)
    else elim m [
      | addressed swap_id msg ↦
          if same (swap swap_id) d.world.runtime.identity
          then execute source (from_peer (addressed swap_id msg)) d
          else (failed, d)
      | abort swap_id ↦ (failed, d)
      | unaddressed ↦ (panicked, d)
    ]

unfoldable pub handle_sync : Env → Executor → ServiceId → Event → Handler
handle_sync env execute source e =
    run (note_event env source e) (λ _. execute source (from_syncer e))

unfoldable pub report_potential_state_change : Env → Handler
unfolding display perform
report_potential_state_change env d =
    let r = d.world.runtime in
    let new_report =
      StateReport.new (display d.swap_state_machine) r.temporal_safety r.syncer_state in
    elim (StateReport-discrete d.latest_state_report new_report) [
      | yes _ ↦ (returned, d)
      | no _ ↦
          perform
            (to_enquirer env
              (progress (generate_progress_update_or_transition d.latest_state_report new_report)))
            (record d { latest_state_report = new_report })
    ]

-- A swap that has ended is reported at once, and its outcome sent.
unfoldable pub end_swap : Env → Outcome → Handler
unfolding perform
end_swap env outcome =
    report_potential_state_change env
    then_do perform (send_to env farcasterd (swap_outcome outcome))
    then_do report_potential_state_change env

unset_if : Arrival → Option Incoming → Option Incoming
unset_if (from_peer _) unhandled = none
unset_if _ unhandled = unhandled

-- A handled peer message takes out the unhandled one, of whatever kind both are: the `type_id` that the
-- code compares is that of `std::any::Any`, the same for every `PeerMsg`.
unfoldable pub unset_handled : Arrival → Daemon → Daemon
unfolding unset_if
unset_handled a d = record d { unhandled_peer_message = unset_if a d.unhandled_peer_message }

unfoldable pub retry_if : Executor → ServiceId → Option Incoming → Handler
unfolding return
retry_if execute source none = return
retry_if execute source (some m) = handle_msg execute source m

unfoldable pub retry_unhandled : Executor → ServiceId → Handler
retry_unhandled execute source d = retry_if execute source d.unhandled_peer_message d

unfoldable pub replay_if : Env → Executor → ServiceId → Option Event → Handler
unfolding return
replay_if env execute source none = return
replay_if env execute source (some e) = handle_sync env execute source e

unfoldable pub replay : Env → Executor → ServiceId → (SyncerState → Option Event) → Handler
replay env execute source kept d =
    replay_if env execute source (kept d.world.runtime.syncer_state) d

-- The confirmations are replayed after each move, so that states which can be skipped are.
unfoldable pub replays : Env → Executor → ServiceId → Handler
replays env execute source =
    retry_unhandled execute source
    then_do replay env execute source (λ s. s.buy_tx_confs)
    then_do replay env execute source (λ s. s.lock_tx_confs)
    then_do replay env execute source (λ s. s.cancel_tx_confs)

unfoldable pub keep_unhandled : Arrival → Handler
keep_unhandled (from_peer m) d = (returned, record d { unhandled_peer_message = some m })
keep_unhandled _ d = (returned, d)

pub ended : State → Option Outcome
ended (State.swap_end outcome) = some outcome
ended _ = none

unfoldable pub follow_up : Env → Executor → ServiceId → Arrival → Option Outcome → Handler
follow_up env execute source a (some outcome) d = end_swap env outcome d
follow_up env execute source a none d = replays env execute source (unset_handled a d)

unfoldable pub after_move : Env → Executor → ServiceId → Arrival → State → Handler
after_move env execute source a t d =
    follow_up env execute source a (ended t) (record d { swap_state_machine = t })

unfoldable pub after_next : Env → Executor → ServiceId → Arrival → Option State → Handler
after_next env execute source a none = keep_unhandled a
after_next env execute source a (some t) = after_move env execute source a t

-- `execute_state_machine`, with a bound on the nesting of its own calls.
unfoldable pub execute_state_machine : Env → ℕ → Executor
execute_state_machine env zero source a d = (out_of_fuel, d)
execute_state_machine env (suc fuel) source a d =
    run (next env d.swap_state_machine source (request_of a))
      (after_next env (execute_state_machine env fuel) source a) d
