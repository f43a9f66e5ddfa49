-- ===== src/Swapd/SwapState/AliceEnd.antt =====
-- Alice's last states in src/swapd/swap_state.rs: the bought swap, and the canceled one, which she
-- punishes or takes back.
use farcaster_node.Base.{ℕ, true, ◌&&◌, Option, none, some, lookup, remove, contains_key, leb, ℕ_eq}
use farcaster_node.Bus.{Bytes, bitcoin, monero, ServiceId}
use farcaster_node.Syncerd.Types.{
  SweepAddress, sweep_address_task, transaction_confirmations, transaction_retrieved, sweep_success,
}
use farcaster_node.Swapd.TemporalSafety.{final_tx, valid_cancel, valid_punish}
use farcaster_node.Swapd.SyncerClient.{
  TxLabel, TxLabel_eq, lock, cancel, refund, punish, buy, funding, acc_lock, retrieve_tx_btc,
  sweep_xmr,
}
use farcaster_node.Swapd.Messages.{
  Request, sync_event, alice_canceled, alice_refund, alice_refund_sweeping, swap_end, success_swap,
  failure_refund, failure_punish,
}
use farcaster_node.Swapd.Runtime.{
  Env, done, lift, gets, modify, on_syncer, guarded, confirmed, ◌>>=◌, ◌>>◌, send_bitcoin,
  send_monero, broadcast, store_keys,
}
use farcaster_node.Swapd.SwapState.Common.{
  Step, watched_tx, is_sweep, take_tx, note_confs, watch_bitcoin_tx, abort_all, remove_txs,
  complete_funding,
}
use farcaster_node.Swapd.SwapState.Bob.{is_retrieving}
use farcaster_node.Swapd.SwapState.BobEnd.{take_txid, take_retrieving}

module _ (env : Env) where
  unfoldable pub try_alice_buy_procedure_signature_to_swap_end : ServiceId → Request → Step
  try_alice_buy_procedure_signature_to_swap_end source (sync_event (transaction_confirmations c)) =
      confirmed c.confirmations
        (λ confs r. final_tx r.temporal_safety confs bitcoin && watched_tx buy c.id r)
        (λ confs. do
          note_confs c.id confs
          abort_all env
          modify (λ r. record r { txs = remove punish (remove cancel r.txs) })
          done (some (swap_end success_swap)))
        (done none)
  try_alice_buy_procedure_signature_to_swap_end source _ = done none

  -- Takes the transaction out, watches it and broadcasts it; Alice stays in the canceled swap.
  unfoldable pub publish : TxLabel → Bytes → Step
  publish label wallet = do
    tx ← take_tx label
    watch_bitcoin_tx env label (env.txid tx)
    broadcast env tx label
    done (some (alice_canceled wallet))

  -- What a final transaction means in a canceled swap, by its label.
  unfoldable pub alice_canceled_confs : Bytes → ℕ → Option TxLabel → Step
  unfolding publish
  alice_canceled_confs wallet confs (some refund) =
      guarded (λ r. contains_key refund r.syncer_state.tasks.txids)
        (do
          txid ← take_txid refund
          t ← on_syncer (retrieve_tx_btc txid refund)
          send_bitcoin env t
          done (some (alice_canceled wallet)))
        (done none)
  alice_canceled_confs wallet confs (some cancel) =
      guarded (λ r. valid_punish r.temporal_safety confs && contains_key punish r.txs)
        (publish punish wallet) (done none)
  alice_canceled_confs wallet confs (some punish) = do
    abort_all env
    remove_txs
    done (some (swap_end failure_punish))
  alice_canceled_confs wallet confs (some lock) =
      guarded (λ r. valid_cancel r.temporal_safety confs && contains_key cancel r.txs)
        (publish cancel wallet) (done none)
  alice_canceled_confs wallet confs (some funding) = done none
  alice_canceled_confs wallet confs (some buy) = done none
  alice_canceled_confs wallet confs (some acc_lock) = done none
  alice_canceled_confs wallet confs none = done none

  -- The refund transaction is there: Alice sweeps if the Monero lock was seen, and is done if not.
  unfoldable pub alice_refunded : Bytes → Bytes → Step
  alice_refunded wallet tx = do
    from_height ← gets (λ r. r.monero_address_creation_height)
    (sweep_addendum, wallet', keys) ← lift (env.process_refund_tx wallet tx from_height)
    store_keys env keys
    guarded (λ r. contains_key acc_lock r.syncer_state.confirmations)
        (do sweep ← on_syncer (sweep_xmr sweep_addendum true); done (some (alice_refund sweep)))
        (do
          awaiting ← gets (λ r. r.syncer_state.awaiting_funding)
          complete_funding env awaiting monero
          abort_all env
          remove_txs
          done (some (swap_end failure_refund)))

  unfoldable pub try_alice_canceled_to_alice_refund_or_alice_punish :
      Bytes → ServiceId → Request → Step
  try_alice_canceled_to_alice_refund_or_alice_punish wallet source
        (sync_event (transaction_confirmations c)) =
      confirmed c.confirmations (λ confs r. final_tx r.temporal_safety confs bitcoin)
        (λ confs. do
          label ← gets (λ r. lookup c.id r.syncer_state.tasks.watched_txs)
          alice_canceled_confs wallet confs label)
        (done none)
  try_alice_canceled_to_alice_refund_or_alice_punish wallet source
        (sync_event (transaction_retrieved id (some tx))) =
      guarded (λ r. is_retrieving refund (lookup id r.syncer_state.tasks.retrieving_txs))
        (do _ ← take_retrieving id; alice_refunded wallet tx) (done none)
  try_alice_canceled_to_alice_refund_or_alice_punish wallet source _ = done none

  unfoldable pub try_alice_refund_to_alice_refund_sweeping :
      SweepAddress → ServiceId → Request → Step
  try_alice_refund_to_alice_refund_sweeping sweep source
        (sync_event (transaction_confirmations c)) =
      confirmed c.confirmations (λ confs r. leb r.temporal_safety.sweep_monero_thr confs)
        (λ _. do send_monero env (sweep_address_task sweep); done (some alice_refund_sweeping))
        (done none)
  try_alice_refund_to_alice_refund_sweeping sweep source _ = done none

  unfoldable pub try_alice_refund_sweeping_to_swap_end : ServiceId → Request → Step
  try_alice_refund_sweeping_to_swap_end source (sync_event (sweep_success id _)) =
      guarded (λ r. is_sweep id r.syncer_state.tasks.sweeping_addr)
        (do
          awaiting ← gets (λ r. r.syncer_state.awaiting_funding)
          complete_funding env awaiting monero
          abort_all env
          remove_txs
          done (some (swap_end failure_refund)))
        (done none)
  try_alice_refund_sweeping_to_swap_end source _ = done none
