-- ===== src/Swapd/Handle/Kept/Alice.antt =====
-- Alice's handlers after the reveal in src/swapd/swap_state.rs on the confirmations kept for a replay.
use farcaster_node.Base.{ℕ, Option, none, some}
use farcaster_node.Bus.{Bytes, ServiceId}
use farcaster_node.Syncerd.Types.{
  SweepAddress, transaction_confirmations, transaction_retrieved, sweep_success,
  address_transaction, empty,
}
use farcaster_node.Swapd.Messages.{
  Params, MoneroFundingInfo, State, Request, abort_swap, p2p, sync_event, core_arbitrating_setup,
  buy_procedure_signature, alice_params, bob_params,
}
use farcaster_node.Swapd.SyncerClient.{
  TxLabel, funding, lock, buy, cancel, refund, punish, acc_lock,
}
use farcaster_node.Swapd.Runtime.{Env}
use farcaster_node.Swapd.Runtime.Keeps.{Keeps}
use farcaster_node.Swapd.Handle.Kept.{kept, kept_rules, kept_calls}
use farcaster_node.Swapd.Handle.Kept.Parts.{kept_parts}
use farcaster_node.Swapd.SwapState.Common.{
  handle_abort_swap, handle_abort_impossible, handle_alice_swap_interrupt_after_lock,
}
use farcaster_node.Swapd.SwapState.Alice.{
  try_alice_reveal_to_alice_core_arbitrating_setup,
  try_alice_core_arbitrating_setup_to_alice_arbitrating_lock_final,
  try_alice_arbitrating_lock_final_to_alice_accordant_lock,
  try_alice_accordant_lock_to_alice_buy_procedure_signature,
}
use farcaster_node.Swapd.SwapState.AliceEnd.{
  alice_canceled_confs, alice_refunded, publish, try_alice_buy_procedure_signature_to_swap_end,
  try_alice_canceled_to_alice_refund_or_alice_punish, try_alice_refund_to_alice_refund_sweeping,
  try_alice_refund_sweeping_to_swap_end,
}
use farcaster_node.Swapd.SwapState.Next.{next}

module _ (env : Env) (source : ServiceId) where
  pub alice_reveal-Keeps :
      (l : Params) (r : Params) (w : Bytes) (q : Request)
      → Keeps kept (next env (State.alice_reveal l r w) source q)
  unfolding next try_alice_reveal_to_alice_core_arbitrating_setup handle_abort_swap
  alice_reveal-Keeps l r w (p2p (core_arbitrating_setup s)) =
      search (kept_rules, kept_calls, kept_parts) depth 20
  alice_reveal-Keeps l r w abort_swap = search (kept_rules, kept_calls, kept_parts) depth 20
  alice_reveal-Keeps l r w _ = search (kept_rules, kept_calls, kept_parts) depth 20

  pub alice_core_arbitrating_setup-Keeps :
      (l : Params) (r : Params) (w : Bytes) (q : Request)
      → Keeps kept (next env (State.alice_core_arbitrating_setup l r w) source q)
  unfolding next try_alice_core_arbitrating_setup_to_alice_arbitrating_lock_final
      handle_alice_swap_interrupt_after_lock handle_abort_impossible
  alice_core_arbitrating_setup-Keeps (alice_params a) (bob_params b) w
        (sync_event (transaction_confirmations c)) =
      search (kept_rules, kept_calls, kept_parts) depth 20
  alice_core_arbitrating_setup-Keeps (alice_params a) (alice_params b) w
        (sync_event (transaction_confirmations c)) =
      search (kept_rules, kept_calls, kept_parts) depth 20
  alice_core_arbitrating_setup-Keeps (bob_params a) r w (sync_event (transaction_confirmations c)) =
      search (kept_rules, kept_calls, kept_parts) depth 20
  alice_core_arbitrating_setup-Keeps l r w abort_swap =
      search (kept_rules, kept_calls, kept_parts) depth 20
  alice_core_arbitrating_setup-Keeps l r w _ = search (kept_rules, kept_calls, kept_parts) depth 20

  pub alice_arbitrating_lock_final-Keeps :
      (w : Bytes) (i : MoneroFundingInfo) (m : ℕ) (q : Request)
      → Keeps kept (next env (State.alice_arbitrating_lock_final w i m) source q)
  unfolding next try_alice_arbitrating_lock_final_to_alice_accordant_lock
      handle_alice_swap_interrupt_after_lock handle_abort_impossible
  alice_arbitrating_lock_final-Keeps w i m (sync_event (empty k)) =
      search (kept_rules, kept_calls, kept_parts) depth 20
  alice_arbitrating_lock_final-Keeps w i m (sync_event (transaction_confirmations c)) =
      search (kept_rules, kept_calls, kept_parts) depth 20
  alice_arbitrating_lock_final-Keeps w i m (sync_event (address_transaction a)) =
      search (kept_rules, kept_calls, kept_parts) depth 20
  alice_arbitrating_lock_final-Keeps w i m abort_swap =
      search (kept_rules, kept_calls, kept_parts) depth 20
  alice_arbitrating_lock_final-Keeps w i m _ = search (kept_rules, kept_calls, kept_parts) depth 20

  pub alice_accordant_lock-Keeps :
      (w : Bytes) (q : Request) → Keeps kept (next env (State.alice_accordant_lock w) source q)
  unfolding next try_alice_accordant_lock_to_alice_buy_procedure_signature
      handle_alice_swap_interrupt_after_lock handle_abort_impossible
  alice_accordant_lock-Keeps w (p2p (buy_procedure_signature b)) =
      search (kept_rules, kept_calls, kept_parts) depth 20
  alice_accordant_lock-Keeps w (sync_event (transaction_confirmations c)) =
      search (kept_rules, kept_calls, kept_parts) depth 20
  alice_accordant_lock-Keeps w abort_swap = search (kept_rules, kept_calls, kept_parts) depth 20
  alice_accordant_lock-Keeps w _ = search (kept_rules, kept_calls, kept_parts) depth 20

  pub alice_buy_procedure_signature-Keeps :
      (q : Request) → Keeps kept (next env State.alice_buy_procedure_signature source q)
  unfolding next try_alice_buy_procedure_signature_to_swap_end
  alice_buy_procedure_signature-Keeps (sync_event (transaction_confirmations c)) =
      search (kept_rules, kept_calls, kept_parts) depth 20
  alice_buy_procedure_signature-Keeps _ = search (kept_rules, kept_calls, kept_parts) depth 20

  alice_canceled_confs-Keeps :
      (w : Bytes) (n : ℕ) (label : Option TxLabel) → Keeps kept (alice_canceled_confs env w n label)
  unfolding alice_canceled_confs publish
  alice_canceled_confs-Keeps w n (some refund) =
      search (kept_rules, kept_calls, kept_parts) depth 20
  alice_canceled_confs-Keeps w n (some cancel) =
      search (kept_rules, kept_calls, kept_parts) depth 20
  alice_canceled_confs-Keeps w n (some punish) =
      search (kept_rules, kept_calls, kept_parts) depth 20
  alice_canceled_confs-Keeps w n (some lock) = search (kept_rules, kept_calls, kept_parts) depth 20
  alice_canceled_confs-Keeps w n (some funding) =
      search (kept_rules, kept_calls, kept_parts) depth 20
  alice_canceled_confs-Keeps w n (some buy) = search (kept_rules, kept_calls, kept_parts) depth 20
  alice_canceled_confs-Keeps w n (some acc_lock) =
      search (kept_rules, kept_calls, kept_parts) depth 20
  alice_canceled_confs-Keeps w n none = search (kept_rules, kept_calls, kept_parts) depth 20

  pub alice_canceled-Keeps :
      (w : Bytes) (q : Request) → Keeps kept (next env (State.alice_canceled w) source q)
  unfolding next try_alice_canceled_to_alice_refund_or_alice_punish alice_refunded
  alice_canceled-Keeps w (sync_event (transaction_confirmations c)) =
      search (kept_rules, kept_calls, kept_parts, alice_canceled_confs-Keeps) depth 20
  alice_canceled-Keeps w (sync_event (transaction_retrieved i (some t))) =
      search (kept_rules, kept_calls, kept_parts) depth 20
  alice_canceled-Keeps w _ = search (kept_rules, kept_calls, kept_parts) depth 20

  pub alice_refund-Keeps :
      (s : SweepAddress) (q : Request) → Keeps kept (next env (State.alice_refund s) source q)
  unfolding next try_alice_refund_to_alice_refund_sweeping
  alice_refund-Keeps s (sync_event (transaction_confirmations c)) =
      search (kept_rules, kept_calls, kept_parts) depth 20
  alice_refund-Keeps s _ = search (kept_rules, kept_calls, kept_parts) depth 20

  pub alice_refund_sweeping-Keeps :
      (q : Request) → Keeps kept (next env State.alice_refund_sweeping source q)
  unfolding next try_alice_refund_sweeping_to_swap_end
  alice_refund_sweeping-Keeps (sync_event (sweep_success i t)) =
      search (kept_rules, kept_calls, kept_parts) depth 20
  alice_refund_sweeping-Keeps _ = search (kept_rules, kept_calls, kept_parts) depth 20
