-- ===== src/Swapd/SwapState/QuietHandlers.antt =====
-- The handlers of src/swapd/swap_state.rs that broadcast nothing.
use farcaster_node.Base.{ℕ}
use farcaster_node.Bus.{Bytes, ServiceId}
use farcaster_node.Syncerd.Types.{
  SweepAddress, transaction_confirmations, sweep_success, task_aborted, address_transaction,
  fee_estimation, bitcoin_fee_estimation,
}
use farcaster_node.Swapd.Messages.{
  Params, Request, SwapRole, take_swap, make_swap, abort_swap, p2p, sync_event, deal_not_found,
  maker_commit, reveal, core_arbitrating_setup,
}
use farcaster_node.Swapd.Runtime.{Env}
use farcaster_node.Swapd.Runtime.Casts.{Quiet, quiet_rules, quiet_calls}
use farcaster_node.Swapd.SwapState.Start.{
  attempt_transition_to_init_taker, attempt_transition_to_init_maker,
  try_bob_init_taker_to_bob_taker_maker_commit, try_alice_init_taker_to_alice_taker_maker_commit,
}
use farcaster_node.Swapd.SwapState.Reveal.{
  attempt_transition_to_bob_reveal, attempt_transition_to_alice_reveal,
}
use farcaster_node.Swapd.SwapState.Bob.{
  bob_funded_rightly, try_bob_reveal_to_bob_fee_estimated, try_bob_fee_estimated_to_bob_funded,
}
use farcaster_node.Swapd.SwapState.BobEnd.{
  bob_aborted, try_bob_buy_final_to_bob_buy_sweeping, try_bob_buy_sweeping_to_swap_end,
  try_bob_cancel_final_to_swap_end, try_awaiting_sweep_to_swap_end,
}
use farcaster_node.Swapd.SwapState.Alice.{try_alice_reveal_to_alice_core_arbitrating_setup}
use farcaster_node.Swapd.SwapState.AliceEnd.{
  try_alice_buy_procedure_signature_to_swap_end, try_alice_refund_to_alice_refund_sweeping,
  try_alice_refund_sweeping_to_swap_end,
}
use farcaster_node.Swapd.SwapState.QuietParts.{quiet_parts}

module _ (env : Env) (source : ServiceId) where
  pub Quiet-init_taker :
      (r : SwapRole) (q : Request) → Quiet (attempt_transition_to_init_taker env r source q)
  unfolding attempt_transition_to_init_taker
  Quiet-init_taker r (take_swap i) = search (quiet_rules, quiet_calls, quiet_parts) depth 20
  Quiet-init_taker r abort_swap = search (quiet_rules, quiet_calls, quiet_parts) depth 20
  Quiet-init_taker r _ = search (quiet_rules, quiet_calls, quiet_parts) depth 20

  pub Quiet-init_maker :
      (r : SwapRole) (q : Request) → Quiet (attempt_transition_to_init_maker env r source q)
  unfolding attempt_transition_to_init_maker
  Quiet-init_maker r (make_swap i c) = search (quiet_rules, quiet_calls, quiet_parts) depth 20
  Quiet-init_maker r abort_swap = search (quiet_rules, quiet_calls, quiet_parts) depth 20
  Quiet-init_maker r _ = search (quiet_rules, quiet_calls, quiet_parts) depth 20

  pub Quiet-bob_init :
      (l : Params) (w : Bytes) (q : Request)
      → Quiet (try_bob_init_taker_to_bob_taker_maker_commit env l w source q)
  unfolding try_bob_init_taker_to_bob_taker_maker_commit
  Quiet-bob_init l w (p2p deal_not_found) = search (quiet_rules, quiet_calls, quiet_parts) depth 20
  Quiet-bob_init l w (p2p (maker_commit c)) =
      search (quiet_rules, quiet_calls, quiet_parts) depth 20
  Quiet-bob_init l w abort_swap = search (quiet_rules, quiet_calls, quiet_parts) depth 20
  Quiet-bob_init l w _ = search (quiet_rules, quiet_calls, quiet_parts) depth 20

  pub Quiet-alice_init :
      (l : Params) (w : Bytes) (q : Request)
      → Quiet (try_alice_init_taker_to_alice_taker_maker_commit env l w source q)
  unfolding try_alice_init_taker_to_alice_taker_maker_commit
  Quiet-alice_init l w (p2p deal_not_found) =
      search (quiet_rules, quiet_calls, quiet_parts) depth 20
  Quiet-alice_init l w (p2p (maker_commit c)) =
      search (quiet_rules, quiet_calls, quiet_parts) depth 20
  Quiet-alice_init l w abort_swap = search (quiet_rules, quiet_calls, quiet_parts) depth 20
  Quiet-alice_init l w _ = search (quiet_rules, quiet_calls, quiet_parts) depth 20

  pub Quiet-to_bob_reveal :
      (l : Params) (c w : Bytes) (q : Request)
      → Quiet (attempt_transition_to_bob_reveal env l c w source q)
  unfolding attempt_transition_to_bob_reveal
  Quiet-to_bob_reveal l c w (p2p (reveal r)) =
      search (quiet_rules, quiet_calls, quiet_parts) depth 20
  Quiet-to_bob_reveal l c w abort_swap = search (quiet_rules, quiet_calls, quiet_parts) depth 20
  Quiet-to_bob_reveal l c w _ = search (quiet_rules, quiet_calls, quiet_parts) depth 20

  pub Quiet-to_alice_reveal :
      (l : Params) (c : Bytes) (w : Bytes) (q : Request)
      → Quiet (attempt_transition_to_alice_reveal env l c w source q)
  unfolding attempt_transition_to_alice_reveal
  Quiet-to_alice_reveal l c w (p2p (reveal r)) =
      search (quiet_rules, quiet_calls, quiet_parts) depth 20
  Quiet-to_alice_reveal l c w abort_swap = search (quiet_rules, quiet_calls, quiet_parts) depth 20
  Quiet-to_alice_reveal l c w _ = search (quiet_rules, quiet_calls, quiet_parts) depth 20

  pub Quiet-estimated :
      (l r : Params) (w : Bytes) (q : Request)
      → Quiet (try_bob_reveal_to_bob_fee_estimated env l r w source q)
  unfolding try_bob_reveal_to_bob_fee_estimated
  Quiet-estimated l r w (sync_event (fee_estimation i (bitcoin_fee_estimation h n))) =
      search (quiet_rules, quiet_calls, quiet_parts) depth 20
  Quiet-estimated l r w abort_swap = search (quiet_rules, quiet_calls, quiet_parts) depth 20
  Quiet-estimated l r w _ = search (quiet_rules, quiet_calls, quiet_parts) depth 20

  pub Quiet-funded :
      (l : Params) (m : ℕ) (r : Params) (w : Bytes) (q : Request)
      → Quiet (try_bob_fee_estimated_to_bob_funded env l m r w source q)
  unfolding try_bob_fee_estimated_to_bob_funded bob_funded_rightly
  Quiet-funded l m r w (sync_event (address_transaction a)) =
      search (quiet_rules, quiet_calls, quiet_parts) depth 20
  Quiet-funded l m r w abort_swap = search (quiet_rules, quiet_calls, quiet_parts) depth 20
  Quiet-funded l m r w _ = search (quiet_rules, quiet_calls, quiet_parts) depth 20

  pub Quiet-bob_buy_final :
      (s : SweepAddress) (q : Request)
      → Quiet (try_bob_buy_final_to_bob_buy_sweeping env s source q)
  unfolding try_bob_buy_final_to_bob_buy_sweeping
  Quiet-bob_buy_final s (sync_event (transaction_confirmations c)) =
      search (quiet_rules, quiet_calls, quiet_parts) depth 20
  Quiet-bob_buy_final s _ = search (quiet_rules, quiet_calls, quiet_parts) depth 20

  pub Quiet-bob_buy_sweeping : (q : Request) → Quiet (try_bob_buy_sweeping_to_swap_end env source q)
  unfolding try_bob_buy_sweeping_to_swap_end
  Quiet-bob_buy_sweeping (sync_event (sweep_success i t)) =
      search (quiet_rules, quiet_calls, quiet_parts) depth 20
  Quiet-bob_buy_sweeping _ = search (quiet_rules, quiet_calls, quiet_parts) depth 20

  pub Quiet-bob_cancel_final : (q : Request) → Quiet (try_bob_cancel_final_to_swap_end env source q)
  unfolding try_bob_cancel_final_to_swap_end
  Quiet-bob_cancel_final (sync_event (transaction_confirmations c)) =
      search (quiet_rules, quiet_calls, quiet_parts) depth 20
  Quiet-bob_cancel_final _ = search (quiet_rules, quiet_calls, quiet_parts) depth 20

  pub Quiet-awaiting_sweep : (q : Request) → Quiet (try_awaiting_sweep_to_swap_end env source q)
  unfolding try_awaiting_sweep_to_swap_end bob_aborted
  Quiet-awaiting_sweep (sync_event (task_aborted i m)) =
      search (quiet_rules, quiet_calls, quiet_parts) depth 20
  Quiet-awaiting_sweep (sync_event (sweep_success i t)) =
      search (quiet_rules, quiet_calls, quiet_parts) depth 20
  Quiet-awaiting_sweep _ = search (quiet_rules, quiet_calls, quiet_parts) depth 20

  pub Quiet-alice_set_up :
      (l : Params) (r : Params) (w : Bytes) (q : Request)
      → Quiet (try_alice_reveal_to_alice_core_arbitrating_setup env l r w source q)
  unfolding try_alice_reveal_to_alice_core_arbitrating_setup
  Quiet-alice_set_up l r w (p2p (core_arbitrating_setup s)) =
      search (quiet_rules, quiet_calls, quiet_parts) depth 20
  Quiet-alice_set_up l r w abort_swap = search (quiet_rules, quiet_calls, quiet_parts) depth 20
  Quiet-alice_set_up l r w _ = search (quiet_rules, quiet_calls, quiet_parts) depth 20

  pub Quiet-alice_buy :
      (q : Request) → Quiet (try_alice_buy_procedure_signature_to_swap_end env source q)
  unfolding try_alice_buy_procedure_signature_to_swap_end
  Quiet-alice_buy (sync_event (transaction_confirmations c)) =
      search (quiet_rules, quiet_calls, quiet_parts) depth 20
  Quiet-alice_buy _ = search (quiet_rules, quiet_calls, quiet_parts) depth 20

  pub Quiet-alice_refund :
      (s : SweepAddress) (q : Request)
      → Quiet (try_alice_refund_to_alice_refund_sweeping env s source q)
  unfolding try_alice_refund_to_alice_refund_sweeping
  Quiet-alice_refund s (sync_event (transaction_confirmations c)) =
      search (quiet_rules, quiet_calls, quiet_parts) depth 20
  Quiet-alice_refund s _ = search (quiet_rules, quiet_calls, quiet_parts) depth 20

  pub Quiet-alice_refund_sweeping :
      (q : Request) → Quiet (try_alice_refund_sweeping_to_swap_end env source q)
  unfolding try_alice_refund_sweeping_to_swap_end
  Quiet-alice_refund_sweeping (sync_event (sweep_success i t)) =
      search (quiet_rules, quiet_calls, quiet_parts) depth 20
  Quiet-alice_refund_sweeping _ = search (quiet_rules, quiet_calls, quiet_parts) depth 20
