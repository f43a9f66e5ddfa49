-- ===== src/Swapd/SwapState/FollowsAlice.antt =====
-- Alice's handlers after the reveal in src/swapd/swap_state.rs against the diagram of states.
use farcaster_node.Base.{ℕ, Option, none, some}
use farcaster_node.Bus.{Bytes, ServiceId}
use farcaster_node.Syncerd.Types.{
  SweepAddress, transaction_confirmations, transaction_retrieved, sweep_success,
  address_transaction, empty,
}
use farcaster_node.Swapd.Messages.{
  Params, MoneroFundingInfo, State, Request, abort_swap, p2p, sync_event, core_arbitrating_setup,
  buy_procedure_signature, alice_params, bob_params,
}
use farcaster_node.Swapd.SyncerClient.{
  TxLabel, funding, lock, buy, cancel, refund, punish, acc_lock,
}
use farcaster_node.Swapd.Runtime.{Env}
use farcaster_node.Swapd.Runtime.Rules.{Returns, returns_rules}
use farcaster_node.Swapd.SwapState.Common.{
  handle_abort_swap, handle_abort_impossible, handle_alice_swap_interrupt_after_lock,
}
use farcaster_node.Swapd.SwapState.Alice.{
  try_alice_reveal_to_alice_core_arbitrating_setup,
  try_alice_core_arbitrating_setup_to_alice_arbitrating_lock_final,
  try_alice_arbitrating_lock_final_to_alice_accordant_lock,
  try_alice_accordant_lock_to_alice_buy_procedure_signature,
}
use farcaster_node.Swapd.SwapState.AliceEnd.{
  alice_canceled_confs, alice_refunded, publish, try_alice_buy_procedure_signature_to_swap_end,
  try_alice_canceled_to_alice_refund_or_alice_punish, try_alice_refund_to_alice_refund_sweeping,
  try_alice_refund_sweeping_to_swap_end,
}
use farcaster_node.Swapd.SwapState.Next.{next}
use farcaster_node.Swapd.SwapState.Graph.{Follows, edges}

module _ (env : Env) (source : ServiceId) where
  pub alice_reveal-Follows :
      (l : Params) (r : Params) (w : Bytes) (q : Request)
      → Returns (Follows (State.alice_reveal l r w)) (next env (State.alice_reveal l r w) source q)
  unfolding next try_alice_reveal_to_alice_core_arbitrating_setup handle_abort_swap
  alice_reveal-Follows l r w (p2p (core_arbitrating_setup s)) =
      search (returns_rules, edges) depth 20
  alice_reveal-Follows l r w abort_swap = search (returns_rules, edges) depth 20
  alice_reveal-Follows l r w _ = search (returns_rules, edges) depth 20

  pub alice_core_arbitrating_setup-Follows :
      (l : Params) (r : Params) (w : Bytes) (q : Request)
      → Returns
          (Follows (State.alice_core_arbitrating_setup l r w))
          (next env (State.alice_core_arbitrating_setup l r w) source q)
  unfolding next try_alice_core_arbitrating_setup_to_alice_arbitrating_lock_final
      handle_alice_swap_interrupt_after_lock handle_abort_impossible
  alice_core_arbitrating_setup-Follows (alice_params a) (bob_params b) w
        (sync_event (transaction_confirmations c)) =
      search (returns_rules, edges) depth 20
  alice_core_arbitrating_setup-Follows (alice_params a) (alice_params b) w
        (sync_event (transaction_confirmations c)) =
      search (returns_rules, edges) depth 20
  alice_core_arbitrating_setup-Follows (bob_params a) r w
        (sync_event (transaction_confirmations c)) =
      search (returns_rules, edges) depth 20
  alice_core_arbitrating_setup-Follows l r w abort_swap = search (returns_rules, edges) depth 20
  alice_core_arbitrating_setup-Follows l r w _ = search (returns_rules, edges) depth 20

  pub alice_arbitrating_lock_final-Follows :
      (w : Bytes) (i : MoneroFundingInfo) (m : ℕ) (q : Request)
      → Returns
          (Follows (State.alice_arbitrating_lock_final w i m))
          (next env (State.alice_arbitrating_lock_final w i m) source q)
  unfolding next try_alice_arbitrating_lock_final_to_alice_accordant_lock
      handle_alice_swap_interrupt_after_lock handle_abort_impossible
  alice_arbitrating_lock_final-Follows w i m (sync_event (empty k)) =
      search (returns_rules, edges) depth 20
  alice_arbitrating_lock_final-Follows w i m (sync_event (transaction_confirmations c)) =
      search (returns_rules, edges) depth 20
  alice_arbitrating_lock_final-Follows w i m (sync_event (address_transaction a)) =
      search (returns_rules, edges) depth 20
  alice_arbitrating_lock_final-Follows w i m abort_swap = search (returns_rules, edges) depth 20
  alice_arbitrating_lock_final-Follows w i m _ = search (returns_rules, edges) depth 20

  pub alice_accordant_lock-Follows :
      (w : Bytes) (q : Request)
      → Returns
          (Follows (State.alice_accordant_lock w))
          (next env (State.alice_accordant_lock w) source q)
  unfolding next try_alice_accordant_lock_to_alice_buy_procedure_signature
      handle_alice_swap_interrupt_after_lock handle_abort_impossible
  alice_accordant_lock-Follows w (p2p (buy_procedure_signature b)) =
      search (returns_rules, edges) depth 20
  alice_accordant_lock-Follows w (sync_event (transaction_confirmations c)) =
      search (returns_rules, edges) depth 20
  alice_accordant_lock-Follows w abort_swap = search (returns_rules, edges) depth 20
  alice_accordant_lock-Follows w _ = search (returns_rules, edges) depth 20

  pub alice_buy_procedure_signature-Follows :
      (q : Request)
      → Returns
          (Follows State.alice_buy_procedure_signature)
          (next env State.alice_buy_procedure_signature source q)
  unfolding next try_alice_buy_procedure_signature_to_swap_end
  alice_buy_procedure_signature-Follows (sync_event (transaction_confirmations c)) =
      search (returns_rules, edges) depth 20
  alice_buy_procedure_signature-Follows _ = search (returns_rules, edges) depth 20

  alice_canceled_confs-Follows :
      (w : Bytes) (n : ℕ) (label : Option TxLabel)
      → Returns (Follows (State.alice_canceled w)) (alice_canceled_confs env w n label)
  unfolding alice_canceled_confs publish
  alice_canceled_confs-Follows w n (some refund) = search (returns_rules, edges) depth 20
  alice_canceled_confs-Follows w n (some cancel) = search (returns_rules, edges) depth 20
  alice_canceled_confs-Follows w n (some punish) = search (returns_rules, edges) depth 20
  alice_canceled_confs-Follows w n (some lock) = search (returns_rules, edges) depth 20
  alice_canceled_confs-Follows w n (some funding) = search (returns_rules, edges) depth 20
  alice_canceled_confs-Follows w n (some buy) = search (returns_rules, edges) depth 20
  alice_canceled_confs-Follows w n (some acc_lock) = search (returns_rules, edges) depth 20
  alice_canceled_confs-Follows w n none = search (returns_rules, edges) depth 20

  pub alice_canceled-Follows :
      (w : Bytes) (q : Request)
      → Returns (Follows (State.alice_canceled w)) (next env (State.alice_canceled w) source q)
  unfolding next try_alice_canceled_to_alice_refund_or_alice_punish alice_refunded
  alice_canceled-Follows w (sync_event (transaction_confirmations c)) =
      search (returns_rules, edges, alice_canceled_confs-Follows) depth 20
  alice_canceled-Follows w (sync_event (transaction_retrieved i (some t))) =
      search (returns_rules, edges) depth 20
  alice_canceled-Follows w _ = search (returns_rules, edges) depth 20

  pub alice_refund-Follows :
      (s : SweepAddress) (q : Request)
      → Returns (Follows (State.alice_refund s)) (next env (State.alice_refund s) source q)
  unfolding next try_alice_refund_to_alice_refund_sweeping
  alice_refund-Follows s (sync_event (transaction_confirmations c)) =
      search (returns_rules, edges) depth 20
  alice_refund-Follows s _ = search (returns_rules, edges) depth 20

  pub alice_refund_sweeping-Follows :
      (q : Request)
      → Returns
          (Follows State.alice_refund_sweeping)
          (next env State.alice_refund_sweeping source q)
  unfolding next try_alice_refund_sweeping_to_swap_end
  alice_refund_sweeping-Follows (sync_event (sweep_success i t)) =
      search (returns_rules, edges) depth 20
  alice_refund_sweeping-Follows _ = search (returns_rules, edges) depth 20
