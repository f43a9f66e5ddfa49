-- ===== src/Swapd/SwapState/Bob.antt =====
-- Bob's way from the reveal to the retrieved buy transaction in src/swapd/swap_state.rs.
use farcaster_node.Base.{
  ℕ, Bool, true, false, not, ◌&&◌, Option, none, some, if◌then◌else◌, lookup, remove, contains_key,
  ltb, ◌==◌, ℕ_eq,
}
use farcaster_node.Bus.{Bytes, bitcoin, monero, ServiceId, farcasterd}
use farcaster_node.Syncerd.Chunks.{flatten_chunks}
use farcaster_node.Syncerd.Types.{
  Task, bitcoin_fee_estimation, fee_estimation, address_transaction, transaction_confirmations,
}
use farcaster_node.Swapd.TemporalSafety.{final_tx}
use farcaster_node.Swapd.SyncerClient.{
  TxLabel, TxLabel_eq, funding, lock, cancel, refund, buy, acc_lock, watch_addr_btc, watch_addr_xmr,
  watch_tx_xmr, retrieve_tx_btc, is_watched_addr, abort_task, sweep_xmr,
}
use farcaster_node.Swapd.SyncerClient
use farcaster_node.Swapd.Messages.{
  Params, alice_params, bob_params, CoreArbitratingSetup, BuyProcedureSignature, Request,
  abort_swap, p2p, sync_event, core_arbitrating_setup, refund_procedure_signatures,
  buy_procedure_signature, bob_fee_estimated, bob_funded, bob_refund_procedure_signatures,
  bob_accordant_lock, bob_accordant_lock_final, funding_completed,
}
use farcaster_node.Swapd.Runtime.{
  Env, Exec, done, lift, gets, modify, on_syncer, guarded, confirmed, ◌>>=◌, ◌>>◌, send_to,
  send_bitcoin, send_monero, send_peer, broadcast, checkpoint_state, ask_bob_to_fund,
  report_progress_message,
}
use farcaster_node.Swapd.SwapState.Common.{
  Step, watched_tx, watched_addr, set_awaiting, put_tx, watch_bitcoin_tx, handle_bob_abort_swap,
  handle_bob_swap_interrupt_after_lock,
}

-- The height from which the shared Monero address is looked for, set once.
unfoldable pub set_creation_height : Exec (Unit {0})
set_creation_height = modify (λ r. record r {
  monero_address_creation_height = elim r.monero_address_creation_height [
    | none ↦ some (SyncerClient.height r.syncer_state monero)
    | some h ↦ some h
  ];
})

-- `watched_addrs.remove(&id)`.
unfoldable pub unwatch_addr : ℕ → Exec (Option TxLabel)
unwatch_addr id = do
  label ← gets (λ r. lookup id r.syncer_state.tasks.watched_addrs)
  modify (λ r. record r {
    syncer_state = record (r.syncer_state) {
      tasks = record (r.syncer_state.tasks) {
        watched_addrs = remove id r.syncer_state.tasks.watched_addrs;
      };
    };
  })
  done label

unfoldable pub is_retrieving : TxLabel → Option (TxLabel × Task) → Bool
is_retrieving label none = false
is_retrieving label (some (l, _)) = elim (SyncerClient.TxLabel-discrete l label) [
  | yes _ ↦ true
  | no _ ↦ false
]

module _ (env : Env) where
  -- The watch tasks for lock, cancel and refund.
  unfoldable pub watch_setup : CoreArbitratingSetup → Exec (Unit {0})
  watch_setup setup = do
    watch_bitcoin_tx env lock (env.txid (env.extract_tx setup.lock))
    watch_bitcoin_tx env cancel (env.txid (env.extract_tx setup.cancel))
    watch_bitcoin_tx env refund (env.txid (env.extract_tx setup.refund))

  unfoldable pub try_bob_reveal_to_bob_fee_estimated :
      Params → Params → Bytes → ServiceId → Request → Step
  try_bob_reveal_to_bob_fee_estimated local_params remote_params wallet source
        (sync_event (fee_estimation _ (bitcoin_fee_estimation high_priority _))) =
      do
        funding_address ← lift (env.funding_address wallet)
        amount ← ask_bob_to_fund env high_priority funding_address
        t ← on_syncer (watch_addr_btc funding_address funding)
        send_bitcoin env t
        done (some (bob_fee_estimated local_params amount remote_params wallet))
  try_bob_reveal_to_bob_fee_estimated local_params remote_params wallet source abort_swap =
      handle_bob_abort_swap env source wallet
  try_bob_reveal_to_bob_fee_estimated local_params remote_params wallet source _ = done none

  -- With the right amount: the wallet makes the transactions, which are watched, checkpointed and
  -- sent to Alice.
  unfoldable pub bob_funded_rightly : Params → Params → Bytes → Bytes → Step
  unfolding set_creation_height
  bob_funded_rightly local_params remote_params wallet tx = do
    send_to env farcasterd (funding_completed bitcoin)
    wallet1 ← lift (env.process_funding_tx wallet tx)
    (setup, wallet2) ← lift (env.create_core_arb wallet1)
    watch_setup setup
    set_creation_height
    checkpoint_state env (some (core_arbitrating_setup setup))
        (bob_funded local_params remote_params wallet2)
    send_peer env (core_arbitrating_setup setup)
    done (some (bob_funded local_params remote_params wallet2))

  unfoldable pub try_bob_fee_estimated_to_bob_funded :
      Params → ℕ → Params → Bytes → ServiceId → Request → Step
  unfolding bob_funded_rightly
  try_bob_fee_estimated_to_bob_funded local_params required remote_params wallet source
        (sync_event (address_transaction a)) =
      guarded (λ r. watched_addr funding a.id r && r.syncer_state.awaiting_funding)
        (do
          tx ← lift (env.deserialize (flatten_chunks a.tx))
          modify (set_awaiting false)
          if not (a.amount == required)
              then (do report_progress_message env; handle_bob_abort_swap env source wallet)
              else bob_funded_rightly local_params remote_params wallet tx)
        (done none)
  try_bob_fee_estimated_to_bob_funded local_params required remote_params wallet source abort_swap =
      handle_bob_abort_swap env source wallet
  try_bob_fee_estimated_to_bob_funded local_params required remote_params wallet source _ =
      done none

  -- Watches the shared Monero address, if the parameters are in their roles.
  unfoldable pub watch_acc_lock : Params → Params → Exec (Unit {0})
  watch_acc_lock (bob_params b) (alice_params a) =
      let (spend, view) = env.aggregate_xmr_spend_view a b in
      do t ← on_syncer (watch_addr_xmr spend view acc_lock none); send_monero env t
  watch_acc_lock _ _ = done tt

  unfoldable pub try_bob_funded_to_bob_refund_procedure_signature :
      Params → Params → Bytes → ServiceId → Request → Step
  unfolding watch_acc_lock
  try_bob_funded_to_bob_refund_procedure_signature local_params remote_params wallet source
        (p2p (refund_procedure_signatures refund_proc)) =
      do
        (buy_sig, txs, wallet') ← lift (env.handle_refund_procedure_signatures wallet refund_proc)
        watch_acc_lock local_params remote_params
        put_tx cancel txs.cancel_tx
        put_tx refund txs.refund_tx
        watch_bitcoin_tx env buy (env.txid (env.extract_tx buy_sig.buy))
        _ ← on_syncer (SyncerClient.broadcast txs.lock_tx)
        checkpoint_state env none
            (bob_refund_procedure_signatures local_params remote_params wallet' buy_sig)
        broadcast env txs.lock_tx lock
        done (some (bob_refund_procedure_signatures local_params remote_params wallet' buy_sig))
  try_bob_funded_to_bob_refund_procedure_signature local_params remote_params wallet source
        abort_swap =
      handle_bob_abort_swap env source wallet
  try_bob_funded_to_bob_refund_procedure_signature local_params remote_params wallet source _ =
      done none

  -- The Monero lock has been seen: its address is no longer watched, the transaction is.
  unfoldable pub follow_acc_lock : Option TxLabel → ℕ → Bytes → Exec (Unit {0})
  follow_acc_lock none id hash = done tt
  follow_acc_lock (some label) id hash = do
    t ← on_syncer (watch_tx_xmr hash label)
    send_monero env t
    send_monero env (abort_task id)

  unfoldable pub try_bob_refund_procedure_signatures_to_bob_accordant_lock :
      Params → Params → Bytes → BuyProcedureSignature → ServiceId → Request → Step
  unfolding unwatch_addr follow_acc_lock
  try_bob_refund_procedure_signatures_to_bob_accordant_lock local_params remote_params wallet
        buy_sig source (sync_event (address_transaction a)) =
      guarded
        (λ r.
          contains_key a.id r.syncer_state.tasks.watched_addrs
          && (is_watched_addr acc_lock r.syncer_state
              && (watched_addr acc_lock a.id r && a.incoming)))
        (guarded (λ r. ltb a.amount r.accordant_amount) (done none)
          (do
            label ← unwatch_addr a.id
            follow_acc_lock label a.id a.hash
            done (some (bob_accordant_lock local_params remote_params wallet buy_sig))))
        (handle_bob_swap_interrupt_after_lock env source (sync_event (address_transaction a)))
  try_bob_refund_procedure_signatures_to_bob_accordant_lock local_params remote_params wallet
        buy_sig source request =
      handle_bob_swap_interrupt_after_lock env source request

  unfoldable pub try_bob_accordant_lock_to_bob_accordant_lock_final :
      Params → Params → Bytes → BuyProcedureSignature → ServiceId → Request → Step
  try_bob_accordant_lock_to_bob_accordant_lock_final local_params remote_params wallet buy_sig
        source (sync_event (transaction_confirmations c)) =
      confirmed c.confirmations
        (λ confs r. final_tx r.temporal_safety confs monero && watched_tx acc_lock c.id r)
        (λ _. do
          send_peer env (buy_procedure_signature buy_sig)
          done (some (bob_accordant_lock_final local_params remote_params wallet)))
        (handle_bob_swap_interrupt_after_lock env source (sync_event (transaction_confirmations c)))
  try_bob_accordant_lock_to_bob_accordant_lock_final local_params remote_params wallet buy_sig
        source request =
      handle_bob_swap_interrupt_after_lock env source request
