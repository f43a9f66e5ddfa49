-- ===== src/Swapd/SwapState/Follows.antt =====
-- `next` of src/swapd/swap_state.rs as a whole against the relation of its states.
use farcaster_node.Base.{◌≡◌, subst, none, some}
use farcaster_node.Bus.{ServiceId}
use farcaster_node.Swapd.Messages.{Request, State}
use farcaster_node.Swapd.Runtime.{Env, World, ok}
use farcaster_node.Swapd.Runtime.Rules.{Returns, Post, Returns-done}
use farcaster_node.Swapd.SwapState.Next.{next}
use farcaster_node.Swapd.SwapState.Graph.{Follows, phase, ◌⟶◌}
use farcaster_node.Swapd.SwapState.FollowsStart
use farcaster_node.Swapd.SwapState.FollowsBob
use farcaster_node.Swapd.SwapState.FollowsAlice

module _ (env : Env) (source : ServiceId) where
  pub every_state : (s : State) (q : Request) → Returns (Follows s) (next env s source q)
  unfolding next
  every_state (State.start_taker r) q = FollowsStart.start_taker-Follows env source r q
  every_state (State.start_maker r) q = FollowsStart.start_maker-Follows env source r q
  every_state (State.bob_init_taker l w) q = FollowsStart.bob_init_taker-Follows env source l w q
  every_state (State.alice_init_taker l w) q =
      FollowsStart.alice_init_taker-Follows env source l w q
  every_state (State.bob_init_maker l c w) q =
      FollowsStart.bob_init_maker-Follows env source l c w q
  every_state (State.bob_taker_maker_commit l c w) q =
      FollowsStart.bob_taker_maker_commit-Follows env source l c w q
  every_state (State.alice_init_maker l c w) q =
      FollowsStart.alice_init_maker-Follows env source l c w q
  every_state (State.alice_taker_maker_commit l c w) q =
      FollowsStart.alice_taker_maker_commit-Follows env source l c w q
  every_state (State.bob_reveal l r w) q = FollowsStart.bob_reveal-Follows env source l r w q
  every_state (State.bob_fee_estimated l m r w) q =
      FollowsStart.bob_fee_estimated-Follows env source l m r w q
  every_state (State.bob_funded l r w) q = FollowsStart.bob_funded-Follows env source l r w q
  every_state (State.bob_refund_procedure_signatures l r w b) q =
      FollowsBob.bob_refund_procedure_signatures-Follows env source l r w b q
  every_state (State.bob_accordant_lock l r w b) q =
      FollowsBob.bob_accordant_lock-Follows env source l r w b q
  every_state (State.bob_accordant_lock_final l r w) q =
      FollowsBob.bob_accordant_lock_final-Follows env source l r w q
  every_state (State.bob_buy_final s) q = FollowsBob.bob_buy_final-Follows env source s q
  every_state State.bob_buy_sweeping q = FollowsBob.bob_buy_sweeping-Follows env source q
  every_state State.bob_canceled q = FollowsBob.bob_canceled-Follows env source q
  every_state State.bob_cancel_final q = FollowsBob.bob_cancel_final-Follows env source q
  every_state State.bob_abort_awaiting_bitcoin_sweep q =
      FollowsBob.bob_abort_awaiting_bitcoin_sweep-Follows env source q
  every_state (State.alice_reveal l r w) q = FollowsAlice.alice_reveal-Follows env source l r w q
  every_state (State.alice_core_arbitrating_setup l r w) q =
      FollowsAlice.alice_core_arbitrating_setup-Follows env source l r w q
  every_state (State.alice_arbitrating_lock_final w i m) q =
      FollowsAlice.alice_arbitrating_lock_final-Follows env source w i m q
  every_state (State.alice_accordant_lock w) q =
      FollowsAlice.alice_accordant_lock-Follows env source w q
  every_state State.alice_buy_procedure_signature q =
      FollowsAlice.alice_buy_procedure_signature-Follows env source q
  every_state (State.alice_canceled w) q = FollowsAlice.alice_canceled-Follows env source w q
  every_state (State.alice_refund s) q = FollowsAlice.alice_refund-Follows env source s q
  every_state State.alice_refund_sweeping q =
      FollowsAlice.alice_refund_sweeping-Follows env source q
  every_state (State.swap_end o) q = Returns-done (Follows (State.swap_end o)) none tt

  -- A request that moves the swap from `s` to `t` moves it along an edge of `⟶`: one of the diagram, an
  -- abort before the lock, or one of the three loops of states that only renew their data.
  pub next-follows :
      (s t : State) (q : Request) (w w' : World)
      → next env s source q w ≡ (ok (some t), w')
      → phase s ⟶ phase t
  next-follows s t q w w' e = subst (λ r. Post (Follows s) r.0) e ((every_state s q).at w)
