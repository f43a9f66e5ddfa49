-- ===== src/Swapd/SwapState/Alice.antt =====
-- Alice's way from the reveal to the buy transaction in src/swapd/swap_state.rs.
use farcaster_node.Base.{ℕ, Bool, true, false, ◌&&◌, Option, none, some, if◌then◌else◌, ltb}
use farcaster_node.Bus.{Bytes, bitcoin, monero, ServiceId, farcasterd}
use farcaster_node.Syncerd.Types.{
  AddressTransaction, Event, address_transaction, transaction_confirmations, empty,
}
use farcaster_node.Swapd.TemporalSafety.{final_tx, valid_cancel, stop_funding_before_cancel}
use farcaster_node.Swapd.SyncerClient.{
  TxLabel, lock, cancel, punish, buy, acc_lock, watch_addr_xmr, watch_tx_xmr, abort_task,
}
use farcaster_node.Swapd.Messages.{
  Params, alice_params, bob_params, MoneroFundingInfo, Request, abort_swap, p2p, sync_event,
  core_arbitrating_setup, refund_procedure_signatures, buy_procedure_signature,
  alice_core_arbitrating_setup, alice_arbitrating_lock_final, alice_accordant_lock,
  alice_buy_procedure_signature, alice_canceled, funding_canceled, funding_completed,
  monero_funding_info,
}
use farcaster_node.Swapd.Runtime.{
  Runtime, Env, Exec, done, lift, gets, modify, on_syncer, guarded, confirmed, ◌>>=◌, ◌>>◌, send_to,
  send_monero, send_peer, broadcast, checkpoint_state, report_progress_message, to_enquirer,
}
use farcaster_node.Swapd.SwapState.Common.{
  Step, watched_tx, watched_addr, set_awaiting, put_tx, watch_bitcoin_tx, handle_abort_swap,
  handle_alice_swap_interrupt_after_lock,
}
use farcaster_node.Swapd.SwapState.Bob.{watch_setup, set_creation_height, unwatch_addr}

-- The lock's confirmations, as last seen.
abbrev confs_of_event : Option Event → Option ℕ
confs_of_event (some (transaction_confirmations c)) = c.confirmations
confs_of_event _ = none

unfoldable pub lock_confirmations : Runtime → Option ℕ
lock_confirmations r = confs_of_event r.syncer_state.lock_tx_confs

module _ (env : Env) where
  unfoldable pub try_alice_reveal_to_alice_core_arbitrating_setup :
      Params → Params → Bytes → ServiceId → Request → Step
  try_alice_reveal_to_alice_core_arbitrating_setup local_params remote_params wallet source
        (p2p (core_arbitrating_setup setup)) =
      do
        watch_setup env setup
        (refund_sigs, txs, wallet') ← lift (env.handle_core_arbitrating_setup wallet setup)
        put_tx cancel txs.cancel_tx
        put_tx punish txs.punish_tx
        checkpoint_state env (some (refund_procedure_signatures refund_sigs))
            (alice_core_arbitrating_setup local_params remote_params wallet')
        send_peer env (refund_procedure_signatures refund_sigs)
        done (some (alice_core_arbitrating_setup local_params remote_params wallet'))
  try_alice_reveal_to_alice_core_arbitrating_setup local_params remote_params wallet source
        abort_swap =
      handle_abort_swap env source
  try_alice_reveal_to_alice_core_arbitrating_setup local_params remote_params wallet source _ =
      done none

  -- The lock is final: the shared Monero address is made and watched.
  unfoldable pub alice_lock_final : Params → Params → Bytes → Step
  unfolding set_creation_height
  alice_lock_final (alice_params a) (bob_params b) wallet =
      let (spend, view) = env.aggregate_xmr_spend_view a b in
      do
        set_creation_height
        info ← gets (λ r. record {
          swap_id = r.swap_id;
          address = env.address_from_viewpair spend view;
          amount = r.accordant_amount;
        })
        from_height ← gets (λ r. r.monero_address_creation_height)
        t ← on_syncer (watch_addr_xmr spend view acc_lock from_height)
        send_monero env t
        done (some (alice_arbitrating_lock_final wallet info info.amount))
  alice_lock_final _ _ wallet = done none

  unfoldable pub try_alice_core_arbitrating_setup_to_alice_arbitrating_lock_final :
      Params → Params → Bytes → ServiceId → Request → Step
  unfolding alice_lock_final
  try_alice_core_arbitrating_setup_to_alice_arbitrating_lock_final local_params remote_params wallet
        source (sync_event (transaction_confirmations c)) =
      confirmed c.confirmations
        (λ confs r. final_tx r.temporal_safety confs bitcoin && watched_tx lock c.id r)
        (λ _. alice_lock_final local_params remote_params wallet)
        (handle_alice_swap_interrupt_after_lock env source
          (sync_event (transaction_confirmations c)) wallet)
  try_alice_core_arbitrating_setup_to_alice_arbitrating_lock_final local_params remote_params wallet
        source request =
      handle_alice_swap_interrupt_after_lock env source request wallet

  unfoldable pub complete_monero_funding : Bool → Exec (Unit {0})
  complete_monero_funding false = done tt
  complete_monero_funding true = do
    send_to env farcasterd (funding_completed monero)
    modify (set_awaiting false)

  unfoldable pub abort_watch : Option TxLabel → ℕ → Exec (Unit {0})
  abort_watch none id = done tt
  abort_watch (some _) id = send_monero env (abort_task id)

  -- The Monero lock is there: what follows depends on its amount.
  unfoldable pub alice_funded : Bytes → ℕ → AddressTransaction → Step
  unfolding complete_monero_funding abort_watch unwatch_addr
  alice_funded wallet required a = do
    t ← on_syncer (watch_tx_xmr a.hash acc_lock)
    awaiting ← gets (λ r. r.syncer_state.awaiting_funding)
    complete_monero_funding awaiting
    send_monero env t
    label ← unwatch_addr a.id
    abort_watch label a.id
    if ltb a.amount required
        then (do report_progress_message env; done (some (alice_accordant_lock wallet)))
        else if ltb required a.amount
        then (do report_progress_message env; done (some (alice_canceled wallet)))
        else done (some (alice_accordant_lock wallet))

  unfoldable pub try_alice_arbitrating_lock_final_to_alice_accordant_lock :
      Bytes → MoneroFundingInfo → ℕ → ServiceId → Request → Step
  unfolding alice_funded
  try_alice_arbitrating_lock_final_to_alice_accordant_lock wallet info required source
        (sync_event (empty id)) =
      guarded (watched_addr acc_lock id)
        (do
          modify (set_awaiting true)
          to_enquirer env (monero_funding_info info)
          done (some (alice_arbitrating_lock_final wallet info required)))
        (handle_alice_swap_interrupt_after_lock env source (sync_event (empty id)) wallet)
  try_alice_arbitrating_lock_final_to_alice_accordant_lock wallet info required source
        (sync_event (transaction_confirmations c)) =
      confirmed c.confirmations
        (λ confs r.
          final_tx r.temporal_safety confs bitcoin
          && (watched_tx lock c.id r
              && (stop_funding_before_cancel r.temporal_safety confs
                  && r.syncer_state.awaiting_funding)))
        (λ _. do
          send_to env farcasterd (funding_canceled monero)
          modify (set_awaiting false)
          done (some (alice_arbitrating_lock_final wallet info required)))
        (handle_alice_swap_interrupt_after_lock env source
          (sync_event (transaction_confirmations c)) wallet)
  try_alice_arbitrating_lock_final_to_alice_accordant_lock wallet info required source
        (sync_event (address_transaction a)) =
      guarded (λ r. watched_addr acc_lock a.id r && a.incoming) (alice_funded wallet required a)
        (handle_alice_swap_interrupt_after_lock env source (sync_event (address_transaction a))
          wallet)
  try_alice_arbitrating_lock_final_to_alice_accordant_lock wallet info required source request =
      handle_alice_swap_interrupt_after_lock env source request wallet

  unfoldable pub try_alice_accordant_lock_to_alice_buy_procedure_signature :
      Bytes → ServiceId → Request → Step
  try_alice_accordant_lock_to_alice_buy_procedure_signature wallet source
        (p2p (buy_procedure_signature buy_sig)) =
      do
        watch_bitcoin_tx env buy (env.txid (env.extract_tx buy_sig.buy))
        (txs, wallet') ← lift (env.handle_buy_procedure_signature wallet buy_sig)
        put_tx cancel txs.cancel_tx
        put_tx buy txs.buy_tx
        lock_confs ← gets lock_confirmations
        confirmed lock_confs (λ confs r. valid_cancel r.temporal_safety confs)
            (λ _. do broadcast env txs.cancel_tx cancel; done (some (alice_canceled wallet')))
            (do
              broadcast env txs.buy_tx buy
              checkpoint_state env none alice_buy_procedure_signature
              done (some alice_buy_procedure_signature))
  try_alice_accordant_lock_to_alice_buy_procedure_signature wallet source request =
      handle_alice_swap_interrupt_after_lock env source request wallet
