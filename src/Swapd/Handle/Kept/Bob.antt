-- ===== src/Swapd/Handle/Kept/Bob.antt =====
-- Bob's handlers after the lock in src/swapd/swap_state.rs on the confirmations kept for a replay.
use farcaster_node.Base.{some}
use farcaster_node.Bus.{Bytes, ServiceId}
use farcaster_node.Syncerd.Types.{
  SweepAddress, transaction_confirmations, transaction_retrieved, sweep_success, task_aborted,
  address_transaction,
}
use farcaster_node.Swapd.Messages.{
  Params, BuyProcedureSignature, State, Request, abort_swap, sync_event,
}
use farcaster_node.Swapd.Runtime.{Env}
use farcaster_node.Swapd.Runtime.Keeps.{Keeps}
use farcaster_node.Swapd.Handle.Kept.{kept, kept_rules, kept_calls}
use farcaster_node.Swapd.Handle.Kept.Parts.{kept_parts}
use farcaster_node.Swapd.SwapState.Common.{
  handle_abort_impossible, handle_bob_swap_interrupt_after_lock,
}
use farcaster_node.Swapd.SwapState.Bob.{
  try_bob_refund_procedure_signatures_to_bob_accordant_lock,
  try_bob_accordant_lock_to_bob_accordant_lock_final,
}
use farcaster_node.Swapd.SwapState.BobEnd.{
  try_bob_accordant_lock_final_to_bob_buy_final, try_bob_buy_final_to_bob_buy_sweeping,
  try_bob_buy_sweeping_to_swap_end, try_bob_canceled_to_bob_cancel_final,
  try_bob_cancel_final_to_swap_end, try_awaiting_sweep_to_swap_end,
}
use farcaster_node.Swapd.SwapState.Next.{next}

module _ (env : Env) (source : ServiceId) where
  pub bob_refund_procedure_signatures-Keeps :
      (l : Params) (r : Params) (w : Bytes) (b : BuyProcedureSignature) (q : Request)
      → Keeps kept (next env (State.bob_refund_procedure_signatures l r w b) source q)
  unfolding next try_bob_refund_procedure_signatures_to_bob_accordant_lock
      handle_bob_swap_interrupt_after_lock handle_abort_impossible
  bob_refund_procedure_signatures-Keeps l r w b (sync_event (address_transaction a)) =
      search (kept_rules, kept_calls, kept_parts) depth 20
  bob_refund_procedure_signatures-Keeps l r w b (sync_event (transaction_confirmations c)) =
      search (kept_rules, kept_calls, kept_parts) depth 20
  bob_refund_procedure_signatures-Keeps l r w b abort_swap =
      search (kept_rules, kept_calls, kept_parts) depth 20
  bob_refund_procedure_signatures-Keeps l r w b _ =
      search (kept_rules, kept_calls, kept_parts) depth 20

  pub bob_accordant_lock-Keeps :
      (l : Params) (r : Params) (w : Bytes) (b : BuyProcedureSignature) (q : Request)
      → Keeps kept (next env (State.bob_accordant_lock l r w b) source q)
  unfolding next try_bob_accordant_lock_to_bob_accordant_lock_final
      handle_bob_swap_interrupt_after_lock handle_abort_impossible
  bob_accordant_lock-Keeps l r w b (sync_event (transaction_confirmations c)) =
      search (kept_rules, kept_calls, kept_parts) depth 20
  bob_accordant_lock-Keeps l r w b abort_swap = search (kept_rules, kept_calls, kept_parts) depth 20
  bob_accordant_lock-Keeps l r w b _ = search (kept_rules, kept_calls, kept_parts) depth 20

  pub bob_accordant_lock_final-Keeps :
      (l : Params) (r : Params) (w : Bytes) (q : Request)
      → Keeps kept (next env (State.bob_accordant_lock_final l r w) source q)
  unfolding next try_bob_accordant_lock_final_to_bob_buy_final handle_bob_swap_interrupt_after_lock
      handle_abort_impossible
  bob_accordant_lock_final-Keeps l r w (sync_event (transaction_confirmations c)) =
      search (kept_rules, kept_calls, kept_parts) depth 20
  bob_accordant_lock_final-Keeps l r w (sync_event (transaction_retrieved i (some t))) =
      search (kept_rules, kept_calls, kept_parts) depth 20
  bob_accordant_lock_final-Keeps l r w abort_swap =
      search (kept_rules, kept_calls, kept_parts) depth 20
  bob_accordant_lock_final-Keeps l r w _ = search (kept_rules, kept_calls, kept_parts) depth 20

  pub bob_buy_final-Keeps :
      (s : SweepAddress) (q : Request) → Keeps kept (next env (State.bob_buy_final s) source q)
  unfolding next try_bob_buy_final_to_bob_buy_sweeping
  bob_buy_final-Keeps s (sync_event (transaction_confirmations c)) =
      search (kept_rules, kept_calls, kept_parts) depth 20
  bob_buy_final-Keeps s _ = search (kept_rules, kept_calls, kept_parts) depth 20

  pub bob_buy_sweeping-Keeps : (q : Request) → Keeps kept (next env State.bob_buy_sweeping source q)
  unfolding next try_bob_buy_sweeping_to_swap_end
  bob_buy_sweeping-Keeps (sync_event (sweep_success i t)) =
      search (kept_rules, kept_calls, kept_parts) depth 20
  bob_buy_sweeping-Keeps _ = search (kept_rules, kept_calls, kept_parts) depth 20

  pub bob_canceled-Keeps : (q : Request) → Keeps kept (next env State.bob_canceled source q)
  unfolding next try_bob_canceled_to_bob_cancel_final
  bob_canceled-Keeps (sync_event (transaction_confirmations c)) =
      search (kept_rules, kept_calls, kept_parts) depth 20
  bob_canceled-Keeps _ = search (kept_rules, kept_calls, kept_parts) depth 20

  pub bob_cancel_final-Keeps : (q : Request) → Keeps kept (next env State.bob_cancel_final source q)
  unfolding next try_bob_cancel_final_to_swap_end
  bob_cancel_final-Keeps (sync_event (transaction_confirmations c)) =
      search (kept_rules, kept_calls, kept_parts) depth 20
  bob_cancel_final-Keeps _ = search (kept_rules, kept_calls, kept_parts) depth 20

  pub bob_abort_awaiting_bitcoin_sweep-Keeps :
      (q : Request) → Keeps kept (next env State.bob_abort_awaiting_bitcoin_sweep source q)
  unfolding next try_awaiting_sweep_to_swap_end
  bob_abort_awaiting_bitcoin_sweep-Keeps (sync_event (task_aborted i e)) =
      search (kept_rules, kept_calls, kept_parts) depth 20
  bob_abort_awaiting_bitcoin_sweep-Keeps (sync_event (sweep_success i t)) =
      search (kept_rules, kept_calls, kept_parts) depth 20
  bob_abort_awaiting_bitcoin_sweep-Keeps _ = search (kept_rules, kept_calls, kept_parts) depth 20
