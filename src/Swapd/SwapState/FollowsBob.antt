-- ===== src/Swapd/SwapState/FollowsBob.antt =====
-- Bob's handlers after the lock in src/swapd/swap_state.rs against the diagram of states.
use farcaster_node.Base.{some}
use farcaster_node.Bus.{Bytes, ServiceId}
use farcaster_node.Syncerd.Types.{
  SweepAddress, transaction_confirmations, transaction_retrieved, sweep_success, task_aborted,
  address_transaction,
}
use farcaster_node.Swapd.Messages.{
  Params, BuyProcedureSignature, State, Request, abort_swap, sync_event,
}
use farcaster_node.Swapd.Runtime.{Env}
use farcaster_node.Swapd.Runtime.Rules.{Returns, returns_rules}
use farcaster_node.Swapd.SwapState.Common.{
  handle_abort_impossible, handle_bob_swap_interrupt_after_lock,
}
use farcaster_node.Swapd.SwapState.Bob.{
  try_bob_refund_procedure_signatures_to_bob_accordant_lock,
  try_bob_accordant_lock_to_bob_accordant_lock_final,
}
use farcaster_node.Swapd.SwapState.BobEnd.{
  try_bob_accordant_lock_final_to_bob_buy_final, try_bob_buy_final_to_bob_buy_sweeping,
  try_bob_buy_sweeping_to_swap_end, try_bob_canceled_to_bob_cancel_final,
  try_bob_cancel_final_to_swap_end, try_awaiting_sweep_to_swap_end,
}
use farcaster_node.Swapd.SwapState.Next.{next}
use farcaster_node.Swapd.SwapState.Graph.{Follows, edges}

module _ (env : Env) (source : ServiceId) where
  pub bob_refund_procedure_signatures-Follows :
      (l : Params) (r : Params) (w : Bytes) (b : BuyProcedureSignature) (q : Request)
      → Returns
          (Follows (State.bob_refund_procedure_signatures l r w b))
          (next env (State.bob_refund_procedure_signatures l r w b) source q)
  unfolding next try_bob_refund_procedure_signatures_to_bob_accordant_lock
      handle_bob_swap_interrupt_after_lock handle_abort_impossible
  bob_refund_procedure_signatures-Follows l r w b (sync_event (address_transaction a)) =
      search (returns_rules, edges) depth 20
  bob_refund_procedure_signatures-Follows l r w b (sync_event (transaction_confirmations c)) =
      search (returns_rules, edges) depth 20
  bob_refund_procedure_signatures-Follows l r w b abort_swap =
      search (returns_rules, edges) depth 20
  bob_refund_procedure_signatures-Follows l r w b _ = search (returns_rules, edges) depth 20

  pub bob_accordant_lock-Follows :
      (l : Params) (r : Params) (w : Bytes) (b : BuyProcedureSignature) (q : Request)
      → Returns
          (Follows (State.bob_accordant_lock l r w b))
          (next env (State.bob_accordant_lock l r w b) source q)
  unfolding next try_bob_accordant_lock_to_bob_accordant_lock_final
      handle_bob_swap_interrupt_after_lock handle_abort_impossible
  bob_accordant_lock-Follows l r w b (sync_event (transaction_confirmations c)) =
      search (returns_rules, edges) depth 20
  bob_accordant_lock-Follows l r w b abort_swap = search (returns_rules, edges) depth 20
  bob_accordant_lock-Follows l r w b _ = search (returns_rules, edges) depth 20

  pub bob_accordant_lock_final-Follows :
      (l : Params) (r : Params) (w : Bytes) (q : Request)
      → Returns
          (Follows (State.bob_accordant_lock_final l r w))
          (next env (State.bob_accordant_lock_final l r w) source q)
  unfolding next try_bob_accordant_lock_final_to_bob_buy_final handle_bob_swap_interrupt_after_lock
      handle_abort_impossible
  bob_accordant_lock_final-Follows l r w (sync_event (transaction_confirmations c)) =
      search (returns_rules, edges) depth 20
  bob_accordant_lock_final-Follows l r w (sync_event (transaction_retrieved i (some t))) =
      search (returns_rules, edges) depth 20
  bob_accordant_lock_final-Follows l r w abort_swap = search (returns_rules, edges) depth 20
  bob_accordant_lock_final-Follows l r w _ = search (returns_rules, edges) depth 20

  pub bob_buy_final-Follows :
      (s : SweepAddress) (q : Request)
      → Returns (Follows (State.bob_buy_final s)) (next env (State.bob_buy_final s) source q)
  unfolding next try_bob_buy_final_to_bob_buy_sweeping
  bob_buy_final-Follows s (sync_event (transaction_confirmations c)) =
      search (returns_rules, edges) depth 20
  bob_buy_final-Follows s _ = search (returns_rules, edges) depth 20

  pub bob_buy_sweeping-Follows :
      (q : Request)
      → Returns (Follows State.bob_buy_sweeping) (next env State.bob_buy_sweeping source q)
  unfolding next try_bob_buy_sweeping_to_swap_end
  bob_buy_sweeping-Follows (sync_event (sweep_success i t)) = search (returns_rules, edges) depth 20
  bob_buy_sweeping-Follows _ = search (returns_rules, edges) depth 20

  pub bob_canceled-Follows :
      (q : Request) → Returns (Follows State.bob_canceled) (next env State.bob_canceled source q)
  unfolding next try_bob_canceled_to_bob_cancel_final
  bob_canceled-Follows (sync_event (transaction_confirmations c)) =
      search (returns_rules, edges) depth 20
  bob_canceled-Follows _ = search (returns_rules, edges) depth 20

  pub bob_cancel_final-Follows :
      (q : Request)
      → Returns (Follows State.bob_cancel_final) (next env State.bob_cancel_final source q)
  unfolding next try_bob_cancel_final_to_swap_end
  bob_cancel_final-Follows (sync_event (transaction_confirmations c)) =
      search (returns_rules, edges) depth 20
  bob_cancel_final-Follows _ = search (returns_rules, edges) depth 20

  pub bob_abort_awaiting_bitcoin_sweep-Follows :
      (q : Request)
      → Returns
          (Follows State.bob_abort_awaiting_bitcoin_sweep)
          (next env State.bob_abort_awaiting_bitcoin_sweep source q)
  unfolding next try_awaiting_sweep_to_swap_end
  bob_abort_awaiting_bitcoin_sweep-Follows (sync_event (task_aborted i e)) =
      search (returns_rules, edges) depth 20
  bob_abort_awaiting_bitcoin_sweep-Follows (sync_event (sweep_success i t)) =
      search (returns_rules, edges) depth 20
  bob_abort_awaiting_bitcoin_sweep-Follows _ = search (returns_rules, edges) depth 20
