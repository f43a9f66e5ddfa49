-- ===== src/Swapd/SwapState/PublishBob.antt =====
-- The handlers of src/swapd/swap_state.rs that broadcast, in the states of a swap whose lock is out.
use farcaster_node.Base.{ℕ, Option, some}
use farcaster_node.Bus.{Bytes, ServiceId}
use farcaster_node.Syncerd.Types.{
  transaction_confirmations, transaction_retrieved, address_transaction,
}
use farcaster_node.Swapd.Messages.{
  Params, BuyProcedureSignature, Request, abort_swap, p2p, sync_event, refund_procedure_signatures,
}
use farcaster_node.Swapd.SyncerClient.{refund}
use farcaster_node.Swapd.Runtime.{World, Env}
use farcaster_node.Swapd.Runtime.Casts.{Quiet, Casts, quiet_rules, quiet_calls, Quiet-done}
use farcaster_node.Swapd.Runtime.CastsOnce.{
  casts_rules, Casts-Quiet, Casts-guarded, Casts-confirmed, Casts-after, Casts-before,
  Casts-broadcast,
}
use farcaster_node.Swapd.SwapState.Common.{handle_bob_swap_interrupt_after_lock}
use farcaster_node.Swapd.SwapState.Bob.{
  try_bob_funded_to_bob_refund_procedure_signature,
  try_bob_refund_procedure_signatures_to_bob_accordant_lock,
  try_bob_accordant_lock_to_bob_accordant_lock_final,
}
use farcaster_node.Swapd.SwapState.BobEnd.{
  bob_bought, try_bob_accordant_lock_final_to_bob_buy_final, try_bob_canceled_to_bob_cancel_final,
}
use farcaster_node.Swapd.SwapState.QuietParts.{quiet_parts, Quiet-note_confs, Quiet-take_tx}
use farcaster_node.Swapd.SwapState.Graph
use farcaster_node.Swapd.SwapState.Publishes.{May, Casts-bob_interrupt, and_left, and_right}

module _ (env : Env) (source : ServiceId) where
  pub Casts-refund_signed :
      (l r : Params) (wallet : Bytes) (q : Request) (w : World)
      → Casts
          (May w.runtime Graph.bob_funded q)
          (try_bob_funded_to_bob_refund_procedure_signature env l r wallet source q)
          w
  unfolding try_bob_funded_to_bob_refund_procedure_signature
  Casts-refund_signed l r wallet (p2p (refund_procedure_signatures s)) w =
      search (casts_rules, quiet_rules, quiet_calls, quiet_parts, May.lock_signed) depth 40
  Casts-refund_signed l r wallet abort_swap w =
      Casts-Quiet _ _ w (search (quiet_rules, quiet_calls, quiet_parts) depth 20)
  Casts-refund_signed l r wallet _ w =
      Casts-Quiet _ _ w (search (quiet_rules, quiet_calls, quiet_parts) depth 20)

  pub Casts-lock_seen :
      (l r : Params) (wallet : Bytes) (b : BuyProcedureSignature) (q : Request) (w : World)
      → Casts
          (May w.runtime Graph.bob_refund_procedure_signatures q)
          (try_bob_refund_procedure_signatures_to_bob_accordant_lock env l r wallet b source q)
          w
  unfolding try_bob_refund_procedure_signatures_to_bob_accordant_lock
  Casts-lock_seen l r wallet b (sync_event (address_transaction a)) w =
      Casts-guarded _ _ _ _ w
        (λ _. Casts-Quiet _ _ w (search (quiet_rules, quiet_calls, quiet_parts) depth 20))
        (Casts-bob_interrupt env source _ _ w Graph.bob_signed)
  Casts-lock_seen l r wallet b q w = Casts-bob_interrupt env source _ q w Graph.bob_signed

  pub Casts-lock_final :
      (l r : Params) (wallet : Bytes) (b : BuyProcedureSignature) (q : Request) (w : World)
      → Casts
          (May w.runtime Graph.bob_accordant_lock q)
          (try_bob_accordant_lock_to_bob_accordant_lock_final env l r wallet b source q)
          w
  unfolding try_bob_accordant_lock_to_bob_accordant_lock_final
  Casts-lock_final l r wallet b (sync_event (transaction_confirmations c)) w =
      Casts-confirmed _ _ _ _ _ w
        (λ _ _ _. Casts-Quiet _ _ w (search (quiet_rules, quiet_calls, quiet_parts) depth 20))
        (Casts-bob_interrupt env source _ _ w Graph.bob_locked)
  Casts-lock_final l r wallet b q w = Casts-bob_interrupt env source _ q w Graph.bob_locked

  Quiet-bob_bought : (wallet tx : Bytes) → Quiet (bob_bought env wallet tx)
  unfolding bob_bought
  Quiet-bob_bought wallet tx = search (quiet_rules, quiet_calls, quiet_parts) depth 20

  Quiet-retrieved :
      (i : ℕ) (t : Option Bytes)
      → Quiet
          (handle_bob_swap_interrupt_after_lock env source (sync_event (transaction_retrieved i t)))
  unfolding handle_bob_swap_interrupt_after_lock
  Quiet-retrieved i t = search (quiet_rules) depth 20

  pub Casts-buy_seen :
      (l r : Params) (wallet : Bytes) (q : Request) (w : World)
      → Casts
          (May w.runtime Graph.bob_accordant_lock_final q)
          (try_bob_accordant_lock_final_to_bob_buy_final env l r wallet source q)
          w
  unfolding try_bob_accordant_lock_final_to_bob_buy_final
  Casts-buy_seen l r wallet (sync_event (transaction_confirmations c)) w =
      Casts-confirmed _ _ _ _ _ w
        (λ _ _ _. Casts-Quiet _ _ w (search (quiet_rules, quiet_calls, quiet_parts) depth 20))
        (Casts-bob_interrupt env source _ _ w Graph.bob_lock_final)
  Casts-buy_seen l r wallet (sync_event (transaction_retrieved i (some t))) w =
      Casts-Quiet _ _ w
        (search (quiet_rules, quiet_calls, quiet_parts, Quiet-bob_bought, Quiet-retrieved) depth 20)
  Casts-buy_seen l r wallet q w = Casts-bob_interrupt env source _ q w Graph.bob_lock_final

  pub Casts-refund :
      (q : Request) (w : World)
      → Casts
          (May w.runtime Graph.bob_canceled q)
          (try_bob_canceled_to_bob_cancel_final env source q)
          w
  unfolding try_bob_canceled_to_bob_cancel_final
  Casts-refund (sync_event (transaction_confirmations c)) w =
      Casts-confirmed _ c.confirmations _ _ _ w
        (λ n e t. Casts-after _ _ _ w (Quiet-note_confs c.id n) (λ _ w1.
          Casts-after _ _ _ w1 (Quiet-take_tx refund) (λ tx w2.
            Casts-before _ _ _ w2
              (Casts-broadcast _ env tx refund w2
                (May.refund_due n e (and_left _ _ (and_right _ _ t)) (and_left _ _ t)))
              (λ _. Quiet-done _))))
        (Casts-Quiet _ _ w (search (quiet_rules) depth 20))
  Casts-refund _ w = Casts-Quiet _ _ w (search (quiet_rules) depth 20)
