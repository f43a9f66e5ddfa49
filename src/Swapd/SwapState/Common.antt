-- ===== src/Swapd/SwapState/Common.antt =====
-- What several handlers of src/swapd/swap_state.rs share: aborting, the interruption of a swap whose
-- lock is out, the end of a swap, and the tests of their guards.
use farcaster_node.Base.{
  ℕ, Bool, true, false, ◌&&◌, Option, none, some, lookup, remove, insert, contains_key, same, ℕ_eq,
}
use farcaster_node.Bus.{Bytes, Blockchain, bitcoin, monero, ServiceId, farcasterd}
use farcaster_node.Syncerd.Types.{
  transaction_confirmations, all_tasks, abort_task, sweep_address_task,
}
use farcaster_node.Swapd.TemporalSafety.{final_tx, valid_cancel}
use farcaster_node.Swapd.SyncerClient.{
  TxLabel, TxLabel_eq, lock, cancel, refund, buy, punish, sweep_btc, watch_tx_btc, handle_tx_confs,
}
use farcaster_node.Swapd.Messages.{
  Request, State, abort_swap, sync_event, swap_end, failure_abort, bob_canceled, alice_canceled,
  bob_abort_awaiting_bitcoin_sweep, info_text, failure_text, funding_canceled, funding_completed,
}
use farcaster_node.Swapd.Runtime.{
  Runtime, Env, Exec, done, lift, gets, modify, on_syncer, confirmed, ◌>>=◌, ◌>>◌, send_to,
  send_bitcoin, send_monero, complete_client, broadcast,
}

abbrev pub Step : Type 0
Step = Exec (Option State)

unfoldable pub is_label : TxLabel → Option TxLabel → Bool
is_label label none = false
is_label label (some l) = same l label

-- `watched_txs.get(&id) == Some(&label)`, and the same for addresses.
unfoldable pub watched_tx : TxLabel → ℕ → Runtime → Bool
unfolding is_label
watched_tx label id r = is_label label (lookup id r.syncer_state.tasks.watched_txs)

unfoldable pub watched_addr : TxLabel → ℕ → Runtime → Bool
unfolding is_label
watched_addr label id r = is_label label (lookup id r.syncer_state.tasks.watched_addrs)

unfoldable pub is_sweep : ℕ → Option ℕ → Bool
is_sweep id none = false
is_sweep id (some i) = same i id

unfoldable pub set_awaiting : Bool → Runtime → Runtime
set_awaiting b r = record r { syncer_state = record (r.syncer_state) { awaiting_funding = b } }

unfoldable pub put_tx : TxLabel → Bytes → Exec (Unit {0})
put_tx label tx = modify (λ r. record r { txs = insert label tx r.txs })

-- `remove_entry(..).unwrap()`; that the transaction is missing is an error here.
unfoldable pub take_tx : TxLabel → Exec Bytes
take_tx label = do
  entry ← gets (λ r. lookup label r.txs)
  tx ← lift entry
  modify (λ r. record r { txs = remove label r.txs })
  done tx

unfoldable pub note_confs : ℕ → ℕ → Exec (Unit {0})
note_confs id confs = modify (λ r. record r {
  syncer_state = handle_tx_confs id (some confs) r.temporal_safety.btc_finality_thr r.syncer_state;
})

unfoldable pub remove_txs : Exec (Unit {0})
remove_txs =
    modify
      (λ r. record r { txs = remove punish (remove buy (remove refund (remove cancel r.txs))) })

module _ (env : Env) where
  unfoldable pub watch_bitcoin_tx : TxLabel → Bytes → Exec (Unit {0})
  watch_bitcoin_tx label txid = do t ← on_syncer (watch_tx_btc txid label); send_bitcoin env t

  unfoldable pub handle_abort_swap : ServiceId → Step
  handle_abort_swap source = do
    complete_client env source info_text
    done (some (swap_end failure_abort))

  unfoldable pub handle_abort_impossible : ServiceId → Step
  handle_abort_impossible source = do complete_client env source failure_text; done none

  unfoldable pub handle_bob_abort_swap : ServiceId → Bytes → Step
  handle_bob_abort_swap source wallet = do
    funding_address ← lift (env.funding_address wallet)
    swept ← lift (env.process_get_sweep_bitcoin_address wallet funding_address)
    sweep ← on_syncer (sweep_btc swept.0 false)
    send_bitcoin env (sweep_address_task sweep)
    complete_client env source info_text
    done (some bob_abort_awaiting_bitcoin_sweep)

  -- Broadcasts the cancel transaction, and stays in the state.
  unfoldable pub broadcast_cancel : Step
  broadcast_cancel = do cancel_tx ← take_tx cancel; broadcast env cancel_tx cancel; done none

  unfoldable pub handle_bob_swap_interrupt_after_lock : ServiceId → Request → Step
  unfolding broadcast_cancel
  handle_bob_swap_interrupt_after_lock source abort_swap = handle_abort_impossible source
  handle_bob_swap_interrupt_after_lock source (sync_event (transaction_confirmations c)) =
      confirmed c.confirmations
        (λ confs r.
          final_tx r.temporal_safety confs bitcoin
          && (watched_tx lock c.id r
              && (valid_cancel r.temporal_safety confs && contains_key cancel r.txs)))
        (λ _. broadcast_cancel)
        (confirmed c.confirmations (λ _. watched_tx cancel c.id) (λ _. done (some bob_canceled))
          (done none))
  handle_bob_swap_interrupt_after_lock source _ = done none

  -- Tells farcasterd that no funding is awaited any more, if one was.
  unfoldable pub drop_funding : Bool → Exec (Unit {0})
  drop_funding false = done tt
  drop_funding true = do
    send_to env farcasterd (funding_canceled monero)
    modify (set_awaiting false)

  -- The code's third arm repeats the guard of its first, and is never reached.
  unfoldable pub handle_alice_swap_interrupt_after_lock : ServiceId → Request → Bytes → Step
  unfolding broadcast_cancel drop_funding
  handle_alice_swap_interrupt_after_lock source (sync_event (transaction_confirmations c)) wallet =
      confirmed c.confirmations (λ _. watched_tx cancel c.id)
        (λ _. do
          awaiting ← gets (λ r. r.syncer_state.awaiting_funding)
          drop_funding awaiting
          done (some (alice_canceled wallet)))
        (confirmed c.confirmations
          (λ confs r.
            watched_tx lock c.id r
            && (valid_cancel r.temporal_safety confs && contains_key cancel r.txs))
          (λ _. broadcast_cancel) (done none))
  handle_alice_swap_interrupt_after_lock source abort_swap wallet = handle_abort_impossible source
  handle_alice_swap_interrupt_after_lock source _ wallet = done none

  -- Both syncers drop all tasks of the swap.
  unfoldable pub abort_all : Exec (Unit {0})
  abort_all = do
    send_monero env (abort_task all_tasks false)
    send_bitcoin env (abort_task all_tasks false)

  -- Reports a completed funding that was never reported.
  unfoldable pub complete_funding : Bool → Blockchain → Exec (Unit {0})
  complete_funding false blockchain = done tt
  complete_funding true blockchain = do
    modify (set_awaiting false)
    send_to env farcasterd (funding_completed blockchain)
