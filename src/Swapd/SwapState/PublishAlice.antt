-- ===== src/Swapd/SwapState/PublishAlice.antt =====
-- The handlers of src/swapd/swap_state.rs with which Alice broadcasts.
use farcaster_node.Base.{ℕ, ◌≡◌, refl, Option, none, some, lookup, ℕ_eq}
use farcaster_node.Bus.{Bytes, ServiceId}
use farcaster_node.Syncerd.Types.{
  transaction_confirmations, TransactionConfirmations, transaction_retrieved, address_transaction,
  empty,
}
use farcaster_node.Swapd.Messages.{
  Params, MoneroFundingInfo, Request, p2p, sync_event, buy_procedure_signature, alice_params,
  bob_params,
}
use farcaster_node.Swapd.SyncerClient.{
  TxLabel, funding, lock, buy, cancel, refund, punish, acc_lock, TxLabel-discrete,
}
use farcaster_node.Swapd.Runtime.{World, Env}
use farcaster_node.Swapd.Runtime.Casts.{Quiet, Casts, quiet_rules, quiet_calls}
use farcaster_node.Swapd.Runtime.CastsOnce.{
  casts_rules, Casts-Quiet, Casts-guarded, Casts-confirmed, Casts-gets,
}
use farcaster_node.Swapd.SwapState.Common.{is_label, watched_tx}
use farcaster_node.Swapd.SwapState.Alice.{
  alice_lock_final, alice_funded, try_alice_core_arbitrating_setup_to_alice_arbitrating_lock_final,
  try_alice_arbitrating_lock_final_to_alice_accordant_lock,
  try_alice_accordant_lock_to_alice_buy_procedure_signature,
}
use farcaster_node.Swapd.SwapState.AliceEnd.{
  alice_canceled_confs, alice_refunded, publish, try_alice_canceled_to_alice_refund_or_alice_punish,
}
use farcaster_node.Swapd.SwapState.QuietParts.{quiet_parts}
use farcaster_node.Swapd.SwapState.Graph
use farcaster_node.Base.{sym, ◌∙◌, insert, refl}
use farcaster_node.Swapd.SyncerClient.{watch_tx_btc, new_task, new_taskid, TxLabel_eq}
use farcaster_node.Swapd.Runtime.{send_bitcoin, on_syncer}
use farcaster_node.Swapd.Runtime.Casts.{Quiet-lift}
use farcaster_node.Swapd.SwapState.Alice.{lock_confirmations}
use farcaster_node.Swapd.SwapState.Common.{watch_bitcoin_tx, put_tx}
use farcaster_node.Swapd.SwapState.Publishes.{too_late, holds-late_by}
use farcaster_node.Swapd.SwapState.QuietParts.{Quiet-watch_bitcoin_tx, Quiet-put_tx}
use farcaster_node.Swapd.Runtime.Keeps.{
  Keeps, keeps_rules, Keeps-bind, Keeps-on_syncer, Keeps-modify, Keeps-lift, Casts-keeping,
  Casts-decided,
}
use farcaster_node.Swapd.SwapState.Publishes.{May, Casts-alice_interrupt, and_left}

module _ (env : Env) (source : ServiceId) where
  Quiet-alice_lock_final : (l r : Params) (wallet : Bytes) → Quiet (alice_lock_final env l r wallet)
  unfolding alice_lock_final
  Quiet-alice_lock_final (alice_params a) (bob_params b) wallet =
      search (quiet_rules, quiet_calls, quiet_parts) depth 20
  Quiet-alice_lock_final (alice_params a) (alice_params b) wallet = search (quiet_rules) depth 20
  Quiet-alice_lock_final (bob_params a) r wallet = search (quiet_rules) depth 20

  pub Casts-arbitrating_final :
      (l r : Params) (wallet : Bytes) (q : Request) (w : World)
      → Casts
          (May w.runtime Graph.alice_core_arbitrating_setup q)
          (try_alice_core_arbitrating_setup_to_alice_arbitrating_lock_final env l r wallet source q)
          w
  unfolding try_alice_core_arbitrating_setup_to_alice_arbitrating_lock_final
  Casts-arbitrating_final l r wallet (sync_event (transaction_confirmations c)) w =
      Casts-confirmed _ _ _ _ _ w (λ _ _ _. Casts-Quiet _ _ w (Quiet-alice_lock_final l r wallet))
        (Casts-alice_interrupt env source _ _ wallet w Graph.alice_set_up)
  Casts-arbitrating_final l r wallet q w =
      Casts-alice_interrupt env source _ q wallet w Graph.alice_set_up

  pub Casts-funding :
      (wallet : Bytes) (i : MoneroFundingInfo) (m : ℕ) (q : Request) (w : World)
      → Casts
          (May w.runtime Graph.alice_arbitrating_lock_final q)
          (try_alice_arbitrating_lock_final_to_alice_accordant_lock env wallet i m source q)
          w
  unfolding try_alice_arbitrating_lock_final_to_alice_accordant_lock alice_funded
  Casts-funding wallet i m (sync_event (empty k)) w =
      Casts-guarded _ _ _ _ w
        (λ _. Casts-Quiet _ _ w (search (quiet_rules, quiet_calls, quiet_parts) depth 20))
        (Casts-alice_interrupt env source _ _ wallet w Graph.alice_lock_final)
  Casts-funding wallet i m (sync_event (transaction_confirmations c)) w =
      Casts-confirmed _ _ _ _ _ w
        (λ _ _ _. Casts-Quiet _ _ w (search (quiet_rules, quiet_calls, quiet_parts) depth 20))
        (Casts-alice_interrupt env source _ _ wallet w Graph.alice_lock_final)
  Casts-funding wallet i m (sync_event (address_transaction a)) w =
      Casts-guarded _ _ _ _ w
        (λ _. Casts-Quiet _ _ w (search (quiet_rules, quiet_calls, quiet_parts) depth 20))
        (Casts-alice_interrupt env source _ _ wallet w Graph.alice_lock_final)
  Casts-funding wallet i m q w =
      Casts-alice_interrupt env source _ q wallet w Graph.alice_lock_final

  Keeps-watch_bitcoin_tx :
      (l : TxLabel) (txid : Bytes) → Keeps too_late (watch_bitcoin_tx env l txid)
  unfolding watch_bitcoin_tx send_bitcoin watch_tx_btc new_task new_taskid too_late
      lock_confirmations
  Keeps-watch_bitcoin_tx l txid =
      Keeps-bind too_late (on_syncer (watch_tx_btc txid l)) _
        (Keeps-on_syncer too_late (watch_tx_btc txid l) (λ r. refl))
        (λ t. search (keeps_rules) depth 20)

  Keeps-put_tx : (l : TxLabel) (tx : Bytes) → Keeps too_late (put_tx l tx)
  unfolding put_tx too_late lock_confirmations
  Keeps-put_tx l tx = Keeps-modify too_late (λ r. record r { txs = insert l tx r.txs }) (λ r. refl)

  pub Casts-buy :
      (wallet : Bytes) (q : Request) (w : World)
      → Casts
          (May w.runtime Graph.alice_accordant_lock q)
          (try_alice_accordant_lock_to_alice_buy_procedure_signature env wallet source q)
          w
  unfolding try_alice_accordant_lock_to_alice_buy_procedure_signature too_late
  Casts-buy wallet (p2p (buy_procedure_signature b)) w =
      Casts-keeping _ too_late _ _ w (Quiet-watch_bitcoin_tx env _ _) (Keeps-watch_bitcoin_tx _ _)
        (λ _ w1 e1.
          Casts-keeping _ too_late _ _ w1 (Quiet-lift _) (Keeps-lift too_late _) (λ _ w2 e2.
            Casts-keeping _ too_late _ _ w2 (Quiet-put_tx _ _) (Keeps-put_tx _ _) (λ _ w3 e3.
              Casts-keeping _ too_late _ _ w3 (Quiet-put_tx _ _) (Keeps-put_tx _ _) (λ _ w4 e4.
                let same_view = e4 ∙ e3 ∙ e2 ∙ e1 in
                Casts-gets _ _ _ w4 (
                  Casts-decided _ _ _ _ _ w4
                    (λ n late.
                      let due =
                        May.cancel_signed {b = b}
                          (sym same_view ∙ sym (holds-late_by _ w4.runtime) ∙ late) in
                      search (casts_rules, quiet_rules, quiet_calls, quiet_parts, due) depth 40)
                    (λ early.
                      let due =
                        May.buy_signed {b = b}
                          (sym same_view ∙ sym (holds-late_by _ w4.runtime) ∙ early) in
                      search (casts_rules, quiet_rules, quiet_calls, quiet_parts, due) depth
                        40))))))
  Casts-buy wallet q w = Casts-alice_interrupt env source _ q wallet w Graph.alice_locked

  Casts-publish :
      (P : TxLabel → Type 0) (label : TxLabel) (wallet : Bytes) (w : World)
      → P label
      → Casts P (publish env label wallet) w
  unfolding publish
  Casts-publish P label wallet w h =
      search (casts_rules, quiet_rules, quiet_calls, quiet_parts) depth 40

  Casts-canceled_confs :
      (wallet : Bytes) (c : TransactionConfirmations) (n : ℕ) (w : World)
      → c.confirmations ≡ some n
      → (label : Option TxLabel) → lookup c.id w.runtime.syncer_state.tasks.watched_txs ≡ label
      → Casts
          (May w.runtime Graph.alice_canceled (sync_event (transaction_confirmations c)))
          (alice_canceled_confs env wallet n label)
          w
  unfolding alice_canceled_confs watched_tx is_label TxLabel-discrete
  Casts-canceled_confs wallet c n w e (some cancel) h =
      Casts-guarded _ _ _ _ w
        (λ t. Casts-publish _ punish wallet w (May.punish_due n e (rw h refl) (and_left _ _ t)))
        (Casts-Quiet _ _ w (search (quiet_rules) depth 20))
  Casts-canceled_confs wallet c n w e (some lock) h =
      Casts-guarded _ _ _ _ w
        (λ t. Casts-publish _ cancel wallet w (May.cancel_again n e (rw h refl) (and_left _ _ t)))
        (Casts-Quiet _ _ w (search (quiet_rules) depth 20))
  Casts-canceled_confs wallet c n w e (some refund) h =
      Casts-Quiet _ _ w (search (quiet_rules, quiet_calls, quiet_parts) depth 20)
  Casts-canceled_confs wallet c n w e (some punish) h =
      Casts-Quiet _ _ w (search (quiet_rules, quiet_calls, quiet_parts) depth 20)
  Casts-canceled_confs wallet c n w e (some funding) h =
      Casts-Quiet _ _ w (search (quiet_rules) depth 20)
  Casts-canceled_confs wallet c n w e (some buy) h =
      Casts-Quiet _ _ w (search (quiet_rules) depth 20)
  Casts-canceled_confs wallet c n w e (some acc_lock) h =
      Casts-Quiet _ _ w (search (quiet_rules) depth 20)
  Casts-canceled_confs wallet c n w e none h = Casts-Quiet _ _ w (search (quiet_rules) depth 20)

  pub Casts-canceled :
      (wallet : Bytes) (q : Request) (w : World)
      → Casts
          (May w.runtime Graph.alice_canceled q)
          (try_alice_canceled_to_alice_refund_or_alice_punish env wallet source q)
          w
  unfolding try_alice_canceled_to_alice_refund_or_alice_punish alice_refunded
  Casts-canceled wallet (sync_event (transaction_confirmations c)) w =
      Casts-confirmed _ c.confirmations _ _ _ w
        (λ n e t. Casts-gets _ _ _ w (Casts-canceled_confs wallet c n w e _ refl))
        (Casts-Quiet _ _ w (search (quiet_rules) depth 20))
  Casts-canceled wallet (sync_event (transaction_retrieved i (some t))) w =
      Casts-Quiet _ _ w (search (quiet_rules, quiet_calls, quiet_parts) depth 20)
  Casts-canceled wallet _ w = Casts-Quiet _ _ w (search (quiet_rules) depth 20)
