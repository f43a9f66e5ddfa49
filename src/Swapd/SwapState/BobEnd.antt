-- ===== src/Swapd/SwapState/BobEnd.antt =====
-- Bob's last states in src/swapd/swap_state.rs: buying and sweeping, the canceled swap, the abort.
use farcaster_node.Base.{
  ℕ, Bool, true, false, ◌&&◌, Option, none, some, List, [], ◌∷◌, leb, lookup, remove, contains_key,
  ℕ_eq,
}
use farcaster_node.Bus.{Bytes, bitcoin, ServiceId, farcasterd}
use farcaster_node.Syncerd.Types.{
  Task, SweepAddress, sweep_address_task, transaction_confirmations, transaction_retrieved,
  sweep_success, task_aborted,
}
use farcaster_node.Swapd.TemporalSafety.{final_tx}
use farcaster_node.Swapd.SyncerClient.{
  TxLabel, TxLabel_eq, cancel, refund, buy, retrieve_tx_btc, sweep_xmr,
}
use farcaster_node.Swapd.Messages.{
  Params, Request, sync_event, bob_accordant_lock_final, bob_buy_final, bob_buy_sweeping,
  bob_cancel_final, swap_end, failure_refund, failure_abort, success_swap, funding_canceled,
}
use farcaster_node.Swapd.Runtime.{
  Runtime, Env, Exec, done, lift, gets, modify, on_syncer, guarded, confirmed, ◌>>=◌, ◌>>◌,
  send_bitcoin, send_monero, complete_client, broadcast, store_keys,
}
use farcaster_node.Swapd.SwapState.Common.{
  Step, watched_tx, is_sweep, take_tx, note_confs, handle_bob_swap_interrupt_after_lock, abort_all,
  remove_txs, complete_funding,
}
use farcaster_node.Swapd.SwapState.Bob.{is_retrieving}

-- `txids.remove_entry(&label).unwrap()`; that the id is missing is an error here.
unfoldable pub take_txid : TxLabel → Exec Bytes
take_txid label = do
  entry ← gets (λ r. lookup label r.syncer_state.tasks.txids)
  txid ← lift entry
  modify (λ r. record r {
    syncer_state = record (r.syncer_state) {
      tasks = record (r.syncer_state.tasks) { txids = remove label r.syncer_state.tasks.txids };
    };
  })
  done txid

-- `retrieving_txs.remove(&id)`.
unfoldable pub take_retrieving : ℕ → Exec (Option (TxLabel × Task))
take_retrieving id = do
  entry ← gets (λ r. lookup id r.syncer_state.tasks.retrieving_txs)
  modify (λ r. record r {
    syncer_state = record (r.syncer_state) {
      tasks = record (r.syncer_state.tasks) {
        retrieving_txs = remove id r.syncer_state.tasks.retrieving_txs;
      };
    };
  })
  done entry

-- `id.len() == 1` and the id is that of the sweep.
is_only_sweep : List ℕ → Runtime → Bool
is_only_sweep (id ∷ []) r = is_sweep id r.syncer_state.tasks.sweeping_addr
is_only_sweep _ r = false

module _ (env : Env) where
  -- The buy transaction is there: its key completes the Monero key, and the sweep is prepared.
  unfoldable pub bob_bought : Bytes → Bytes → Step
  bob_bought wallet tx = do
    from_height ← gets (λ r. r.monero_address_creation_height)
    (sweep_addendum, wallet', keys) ← lift (env.process_buy_tx wallet tx from_height)
    store_keys env keys
    sweep ← on_syncer (sweep_xmr sweep_addendum true)
    done (some (bob_buy_final sweep))

  -- The guard takes the entry out, whatever its label.
  unfoldable pub try_bob_accordant_lock_final_to_bob_buy_final :
      Params → Params → Bytes → ServiceId → Request → Step
  unfolding bob_bought
  try_bob_accordant_lock_final_to_bob_buy_final local_params remote_params wallet source
        (sync_event (transaction_confirmations c)) =
      confirmed c.confirmations
        (λ confs r.
          final_tx r.temporal_safety confs bitcoin
          && (watched_tx buy c.id r && contains_key buy r.syncer_state.tasks.txids))
        (λ confs. do
          note_confs c.id confs
          txid ← take_txid buy
          t ← on_syncer (retrieve_tx_btc txid buy)
          send_bitcoin env t
          done (some (bob_accordant_lock_final local_params remote_params wallet)))
        (handle_bob_swap_interrupt_after_lock env source (sync_event (transaction_confirmations c)))
  try_bob_accordant_lock_final_to_bob_buy_final local_params remote_params wallet source
        (sync_event (transaction_retrieved id (some tx))) =
      do
        entry ← take_retrieving id
        guarded (λ _. is_retrieving buy entry) (bob_bought wallet tx)
            (handle_bob_swap_interrupt_after_lock env source
              (sync_event (transaction_retrieved id (some tx))))
  try_bob_accordant_lock_final_to_bob_buy_final local_params remote_params wallet source request =
      handle_bob_swap_interrupt_after_lock env source request

  unfoldable pub try_bob_buy_final_to_bob_buy_sweeping : SweepAddress → ServiceId → Request → Step
  try_bob_buy_final_to_bob_buy_sweeping sweep source (sync_event (transaction_confirmations c)) =
      confirmed c.confirmations (λ confs r. leb r.temporal_safety.sweep_monero_thr confs)
        (λ _. do send_monero env (sweep_address_task sweep); done (some bob_buy_sweeping))
        (done none)
  try_bob_buy_final_to_bob_buy_sweeping sweep source _ = done none

  unfoldable pub try_bob_cancel_final_to_swap_end : ServiceId → Request → Step
  try_bob_cancel_final_to_swap_end source (sync_event (transaction_confirmations c)) =
      confirmed c.confirmations
        (λ confs r. final_tx r.temporal_safety confs bitcoin && watched_tx refund c.id r)
        (λ confs. do
          note_confs c.id confs
          abort_all env
          remove_txs
          done (some (swap_end failure_refund)))
        (done none)
  try_bob_cancel_final_to_swap_end source _ = done none

  unfoldable pub try_bob_canceled_to_bob_cancel_final : ServiceId → Request → Step
  try_bob_canceled_to_bob_cancel_final source (sync_event (transaction_confirmations c)) =
      confirmed c.confirmations
        (λ confs r.
          final_tx r.temporal_safety confs bitcoin
          && (watched_tx cancel c.id r && contains_key refund r.txs))
        (λ confs. do
          note_confs c.id confs
          refund_tx ← take_tx refund
          broadcast env refund_tx refund
          done (some bob_cancel_final))
        (done none)
  try_bob_canceled_to_bob_cancel_final source _ = done none

  -- The funding is reported as canceled, whether or not the sweep found anything.
  unfoldable pub bob_aborted : Step
  bob_aborted = do
    complete_client env farcasterd (funding_canceled bitcoin)
    done (some (swap_end failure_abort))

  unfoldable pub try_awaiting_sweep_to_swap_end : ServiceId → Request → Step
  unfolding bob_aborted is_only_sweep
  try_awaiting_sweep_to_swap_end source (sync_event (task_aborted ids _)) =
      guarded (is_only_sweep ids) bob_aborted (done none)
  try_awaiting_sweep_to_swap_end source (sync_event (sweep_success id _)) =
      guarded (λ r. is_sweep id r.syncer_state.tasks.sweeping_addr) bob_aborted (done none)
  try_awaiting_sweep_to_swap_end source _ = done none

  unfoldable pub try_bob_buy_sweeping_to_swap_end : ServiceId → Request → Step
  try_bob_buy_sweeping_to_swap_end source (sync_event (sweep_success id _)) =
      guarded (λ r. is_sweep id r.syncer_state.tasks.sweeping_addr)
        (do
          awaiting ← gets (λ r. r.syncer_state.awaiting_funding)
          complete_funding env awaiting bitcoin
          abort_all env
          remove_txs
          done (some (swap_end success_swap)))
        (done none)
  try_bob_buy_sweeping_to_swap_end source _ = done none
