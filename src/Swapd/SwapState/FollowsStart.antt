-- ===== src/Swapd/SwapState/FollowsStart.antt =====
-- The first handlers of src/swapd/swap_state.rs against the diagram of states.
use farcaster_node.Base.{ℕ}
use farcaster_node.Bus.{Bytes, ServiceId}
use farcaster_node.Syncerd.Types.{address_transaction, fee_estimation, bitcoin_fee_estimation}
use farcaster_node.Swapd.Messages.{
  Params, State, Request, SwapRole, bob, alice, take_swap, make_swap, abort_swap, p2p, sync_event,
  deal_not_found, maker_commit, reveal, refund_procedure_signatures,
}
use farcaster_node.Swapd.Runtime.{Env}
use farcaster_node.Swapd.Runtime.Rules.{Returns, returns_rules}
use farcaster_node.Swapd.SwapState.Common.{handle_abort_swap, handle_bob_abort_swap}
use farcaster_node.Swapd.SwapState.Start.{
  attempt_transition_to_init_taker, attempt_transition_to_init_maker,
  try_bob_init_taker_to_bob_taker_maker_commit, try_alice_init_taker_to_alice_taker_maker_commit,
}
use farcaster_node.Swapd.SwapState.Reveal.{
  attempt_transition_to_bob_reveal, attempt_transition_to_alice_reveal,
}
use farcaster_node.Swapd.SwapState.Bob.{
  try_bob_reveal_to_bob_fee_estimated, try_bob_fee_estimated_to_bob_funded,
  try_bob_funded_to_bob_refund_procedure_signature,
}
use farcaster_node.Swapd.SwapState.Next.{next}
use farcaster_node.Swapd.SwapState.Graph.{Follows, edges}

module _ (env : Env) (source : ServiceId) where
  pub start_taker-Follows :
      (r : SwapRole) (q : Request)
      → Returns (Follows (State.start_taker r)) (next env (State.start_taker r) source q)
  unfolding next attempt_transition_to_init_taker handle_abort_swap
  start_taker-Follows bob (take_swap i) = search (returns_rules, edges) depth 20
  start_taker-Follows alice (take_swap i) = search (returns_rules, edges) depth 20
  start_taker-Follows r abort_swap = search (returns_rules, edges) depth 20
  start_taker-Follows r _ = search (returns_rules, edges) depth 20

  pub start_maker-Follows :
      (r : SwapRole) (q : Request)
      → Returns (Follows (State.start_maker r)) (next env (State.start_maker r) source q)
  unfolding next attempt_transition_to_init_maker handle_abort_swap
  start_maker-Follows bob (make_swap i c) = search (returns_rules, edges) depth 20
  start_maker-Follows alice (make_swap i c) = search (returns_rules, edges) depth 20
  start_maker-Follows r abort_swap = search (returns_rules, edges) depth 20
  start_maker-Follows r _ = search (returns_rules, edges) depth 20

  pub bob_init_taker-Follows :
      (l : Params) (w : Bytes) (q : Request)
      → Returns (Follows (State.bob_init_taker l w)) (next env (State.bob_init_taker l w) source q)
  unfolding next try_bob_init_taker_to_bob_taker_maker_commit handle_bob_abort_swap
  bob_init_taker-Follows l w (p2p deal_not_found) = search (returns_rules, edges) depth 20
  bob_init_taker-Follows l w (p2p (maker_commit c)) = search (returns_rules, edges) depth 20
  bob_init_taker-Follows l w abort_swap = search (returns_rules, edges) depth 20
  bob_init_taker-Follows l w _ = search (returns_rules, edges) depth 20

  pub alice_init_taker-Follows :
      (l : Params) (w : Bytes) (q : Request)
      → Returns
          (Follows (State.alice_init_taker l w))
          (next env (State.alice_init_taker l w) source q)
  unfolding next try_alice_init_taker_to_alice_taker_maker_commit handle_abort_swap
  alice_init_taker-Follows l w (p2p deal_not_found) = search (returns_rules, edges) depth 20
  alice_init_taker-Follows l w (p2p (maker_commit c)) = search (returns_rules, edges) depth 20
  alice_init_taker-Follows l w abort_swap = search (returns_rules, edges) depth 20
  alice_init_taker-Follows l w _ = search (returns_rules, edges) depth 20

  pub bob_init_maker-Follows :
      (l : Params) (c : Bytes) (w : Bytes) (q : Request)
      → Returns
          (Follows (State.bob_init_maker l c w))
          (next env (State.bob_init_maker l c w) source q)
  unfolding next attempt_transition_to_bob_reveal handle_bob_abort_swap
  bob_init_maker-Follows l c w (p2p (reveal m)) = search (returns_rules, edges) depth 20
  bob_init_maker-Follows l c w abort_swap = search (returns_rules, edges) depth 20
  bob_init_maker-Follows l c w _ = search (returns_rules, edges) depth 20

  pub bob_taker_maker_commit-Follows :
      (l : Params) (c : Bytes) (w : Bytes) (q : Request)
      → Returns
          (Follows (State.bob_taker_maker_commit l c w))
          (next env (State.bob_taker_maker_commit l c w) source q)
  unfolding next attempt_transition_to_bob_reveal handle_bob_abort_swap
  bob_taker_maker_commit-Follows l c w (p2p (reveal m)) = search (returns_rules, edges) depth 20
  bob_taker_maker_commit-Follows l c w abort_swap = search (returns_rules, edges) depth 20
  bob_taker_maker_commit-Follows l c w _ = search (returns_rules, edges) depth 20

  pub alice_init_maker-Follows :
      (l : Params) (c : Bytes) (w : Bytes) (q : Request)
      → Returns
          (Follows (State.alice_init_maker l c w))
          (next env (State.alice_init_maker l c w) source q)
  unfolding next attempt_transition_to_alice_reveal handle_abort_swap
  alice_init_maker-Follows l c w (p2p (reveal m)) = search (returns_rules, edges) depth 20
  alice_init_maker-Follows l c w abort_swap = search (returns_rules, edges) depth 20
  alice_init_maker-Follows l c w _ = search (returns_rules, edges) depth 20

  pub alice_taker_maker_commit-Follows :
      (l : Params) (c : Bytes) (w : Bytes) (q : Request)
      → Returns
          (Follows (State.alice_taker_maker_commit l c w))
          (next env (State.alice_taker_maker_commit l c w) source q)
  unfolding next attempt_transition_to_alice_reveal handle_abort_swap
  alice_taker_maker_commit-Follows l c w (p2p (reveal m)) = search (returns_rules, edges) depth 20
  alice_taker_maker_commit-Follows l c w abort_swap = search (returns_rules, edges) depth 20
  alice_taker_maker_commit-Follows l c w _ = search (returns_rules, edges) depth 20

  pub bob_reveal-Follows :
      (l : Params) (r : Params) (w : Bytes) (q : Request)
      → Returns (Follows (State.bob_reveal l r w)) (next env (State.bob_reveal l r w) source q)
  unfolding next try_bob_reveal_to_bob_fee_estimated handle_bob_abort_swap
  bob_reveal-Follows l r w (sync_event (fee_estimation i (bitcoin_fee_estimation h j))) =
      search (returns_rules, edges) depth 20
  bob_reveal-Follows l r w abort_swap = search (returns_rules, edges) depth 20
  bob_reveal-Follows l r w _ = search (returns_rules, edges) depth 20

  pub bob_fee_estimated-Follows :
      (l : Params) (m : ℕ) (r : Params) (w : Bytes) (q : Request)
      → Returns
          (Follows (State.bob_fee_estimated l m r w))
          (next env (State.bob_fee_estimated l m r w) source q)
  unfolding next try_bob_fee_estimated_to_bob_funded handle_bob_abort_swap
  bob_fee_estimated-Follows l m r w (sync_event (address_transaction a)) =
      search (returns_rules, edges) depth 20
  bob_fee_estimated-Follows l m r w abort_swap = search (returns_rules, edges) depth 20
  bob_fee_estimated-Follows l m r w _ = search (returns_rules, edges) depth 20

  pub bob_funded-Follows :
      (l : Params) (r : Params) (w : Bytes) (q : Request)
      → Returns (Follows (State.bob_funded l r w)) (next env (State.bob_funded l r w) source q)
  unfolding next try_bob_funded_to_bob_refund_procedure_signature handle_bob_abort_swap
  bob_funded-Follows l r w (p2p (refund_procedure_signatures s)) =
      search (returns_rules, edges) depth 20
  bob_funded-Follows l r w abort_swap = search (returns_rules, edges) depth 20
  bob_funded-Follows l r w _ = search (returns_rules, edges) depth 20
