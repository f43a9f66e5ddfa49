-- ===== src/Swapd/SwapState/Next.antt =====
-- `SwapStateMachine::next` of src/swapd/swap_state.rs.
use farcaster_node.Base.{none}
use farcaster_node.Bus.{ServiceId}
use farcaster_node.Swapd.Messages.{
  Request, State, start_taker, start_maker, bob_init_maker, alice_init_maker, bob_init_taker,
  alice_init_taker, bob_taker_maker_commit, alice_taker_maker_commit, bob_reveal, bob_fee_estimated,
  bob_funded, bob_refund_procedure_signatures, bob_accordant_lock, bob_accordant_lock_final,
  bob_buy_final, bob_buy_sweeping, bob_canceled, bob_cancel_final, bob_abort_awaiting_bitcoin_sweep,
  alice_reveal, alice_core_arbitrating_setup, alice_arbitrating_lock_final, alice_accordant_lock,
  alice_buy_procedure_signature, alice_canceled, alice_refund, alice_refund_sweeping, swap_end,
}
use farcaster_node.Swapd.Runtime.{Env, done}
use farcaster_node.Swapd.SwapState.Common.{Step}
use farcaster_node.Swapd.SwapState.Start.{
  attempt_transition_to_init_taker, attempt_transition_to_init_maker,
  try_bob_init_taker_to_bob_taker_maker_commit, try_alice_init_taker_to_alice_taker_maker_commit,
}
use farcaster_node.Swapd.SwapState.Reveal.{
  attempt_transition_to_bob_reveal, attempt_transition_to_alice_reveal,
}
use farcaster_node.Swapd.SwapState.Bob.{
  try_bob_reveal_to_bob_fee_estimated, try_bob_fee_estimated_to_bob_funded,
  try_bob_funded_to_bob_refund_procedure_signature,
  try_bob_refund_procedure_signatures_to_bob_accordant_lock,
  try_bob_accordant_lock_to_bob_accordant_lock_final,
}
use farcaster_node.Swapd.SwapState.BobEnd.{
  try_bob_accordant_lock_final_to_bob_buy_final, try_bob_buy_final_to_bob_buy_sweeping,
  try_bob_buy_sweeping_to_swap_end, try_bob_canceled_to_bob_cancel_final,
  try_bob_cancel_final_to_swap_end, try_awaiting_sweep_to_swap_end,
}
use farcaster_node.Swapd.SwapState.Alice.{
  try_alice_reveal_to_alice_core_arbitrating_setup,
  try_alice_core_arbitrating_setup_to_alice_arbitrating_lock_final,
  try_alice_arbitrating_lock_final_to_alice_accordant_lock,
  try_alice_accordant_lock_to_alice_buy_procedure_signature,
}
use farcaster_node.Swapd.SwapState.AliceEnd.{
  try_alice_buy_procedure_signature_to_swap_end, try_alice_canceled_to_alice_refund_or_alice_punish,
  try_alice_refund_to_alice_refund_sweeping, try_alice_refund_sweeping_to_swap_end,
}

module _ (env : Env) where
  unfoldable pub next : State → ServiceId → Request → Step
  next (start_taker role) = attempt_transition_to_init_taker env role
  next (start_maker role) = attempt_transition_to_init_maker env role
  next (bob_init_taker l w) = try_bob_init_taker_to_bob_taker_maker_commit env l w
  next (alice_init_taker l w) = try_alice_init_taker_to_alice_taker_maker_commit env l w
  next (bob_taker_maker_commit l c w) = attempt_transition_to_bob_reveal env l c w
  next (alice_taker_maker_commit l c w) = attempt_transition_to_alice_reveal env l c w
  next (bob_init_maker l c w) = attempt_transition_to_bob_reveal env l c w
  next (alice_init_maker l c w) = attempt_transition_to_alice_reveal env l c w
  next (bob_reveal l r w) = try_bob_reveal_to_bob_fee_estimated env l r w
  next (bob_fee_estimated l a r w) = try_bob_fee_estimated_to_bob_funded env l a r w
  next (bob_funded l r w) = try_bob_funded_to_bob_refund_procedure_signature env l r w
  next (bob_refund_procedure_signatures l r w b) =
      try_bob_refund_procedure_signatures_to_bob_accordant_lock env l r w b
  next (bob_accordant_lock l r w b) = try_bob_accordant_lock_to_bob_accordant_lock_final env l r w b
  next (bob_accordant_lock_final l r w) = try_bob_accordant_lock_final_to_bob_buy_final env l r w
  next (bob_buy_final sweep) = try_bob_buy_final_to_bob_buy_sweeping env sweep
  next bob_buy_sweeping = try_bob_buy_sweeping_to_swap_end env
  next bob_canceled = try_bob_canceled_to_bob_cancel_final env
  next bob_cancel_final = try_bob_cancel_final_to_swap_end env
  next bob_abort_awaiting_bitcoin_sweep = try_awaiting_sweep_to_swap_end env
  next (alice_reveal l r w) = try_alice_reveal_to_alice_core_arbitrating_setup env l r w
  next (alice_core_arbitrating_setup l r w) =
      try_alice_core_arbitrating_setup_to_alice_arbitrating_lock_final env l r w
  next (alice_arbitrating_lock_final w i a) =
      try_alice_arbitrating_lock_final_to_alice_accordant_lock env w i a
  next (alice_accordant_lock w) = try_alice_accordant_lock_to_alice_buy_procedure_signature env w
  next alice_buy_procedure_signature = try_alice_buy_procedure_signature_to_swap_end env
  next (alice_canceled w) = try_alice_canceled_to_alice_refund_or_alice_punish env w
  next (alice_refund sweep) = try_alice_refund_to_alice_refund_sweeping env sweep
  next alice_refund_sweeping = try_alice_refund_sweeping_to_swap_end env
  next (swap_end _) = λ source request. done none
