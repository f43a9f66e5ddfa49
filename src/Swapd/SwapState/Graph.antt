-- ===== src/Swapd/SwapState/Graph.antt =====
-- The diagram of states above `SwapStateMachine` in src/swapd/swap_state.rs, as a relation, with what
-- the diagram does not draw: the aborts, which the comments on the states name, and three loops, of
-- states that only renew their data. `BobRefund` of the diagram is the state `BobCancelFinal`. The
-- return from `AliceArbitratingLockFinal` to `AliceCoreArbitratingSetup` that a comment names is in
-- neither the diagram nor the relation.
use farcaster_node.Base.{Option, none, some}
use farcaster_node.Swapd.Messages.{State, SwapRole, bob, alice, Outcome}

-- The states without their data.
pub data Phase : Type 0 where
  start_taker start_maker : SwapRole → Phase
  init_maker init_taker taker_maker_commit reveal : SwapRole → Phase
  bob_fee_estimated bob_funded bob_refund_procedure_signatures bob_accordant_lock : Phase
  bob_accordant_lock_final bob_buy_final bob_buy_sweeping bob_canceled bob_cancel_final : Phase
  bob_abort_awaiting_bitcoin_sweep : Phase
  alice_core_arbitrating_setup alice_arbitrating_lock_final alice_accordant_lock : Phase
  alice_buy_procedure_signature alice_canceled alice_refund alice_refund_sweeping : Phase
  swap_end : Outcome → Phase

abbrev pub phase : State → Phase
phase (State.start_taker r) = start_taker r
phase (State.start_maker r) = start_maker r
phase (State.bob_init_maker _ _ _) = init_maker bob
phase (State.alice_init_maker _ _ _) = init_maker alice
phase (State.bob_init_taker _ _) = init_taker bob
phase (State.alice_init_taker _ _) = init_taker alice
phase (State.bob_taker_maker_commit _ _ _) = taker_maker_commit bob
phase (State.alice_taker_maker_commit _ _ _) = taker_maker_commit alice
phase (State.bob_reveal _ _ _) = reveal bob
phase (State.bob_fee_estimated _ _ _ _) = bob_fee_estimated
phase (State.bob_funded _ _ _) = bob_funded
phase (State.bob_refund_procedure_signatures _ _ _ _) = bob_refund_procedure_signatures
phase (State.bob_accordant_lock _ _ _ _) = bob_accordant_lock
phase (State.bob_accordant_lock_final _ _ _) = bob_accordant_lock_final
phase (State.bob_buy_final _) = bob_buy_final
phase State.bob_buy_sweeping = bob_buy_sweeping
phase State.bob_canceled = bob_canceled
phase State.bob_cancel_final = bob_cancel_final
phase State.bob_abort_awaiting_bitcoin_sweep = bob_abort_awaiting_bitcoin_sweep
phase (State.alice_reveal _ _ _) = reveal alice
phase (State.alice_core_arbitrating_setup _ _ _) = alice_core_arbitrating_setup
phase (State.alice_arbitrating_lock_final _ _ _) = alice_arbitrating_lock_final
phase (State.alice_accordant_lock _) = alice_accordant_lock
phase State.alice_buy_procedure_signature = alice_buy_procedure_signature
phase (State.alice_canceled _) = alice_canceled
phase (State.alice_refund _) = alice_refund
phase State.alice_refund_sweeping = alice_refund_sweeping
phase (State.swap_end o) = swap_end o

-- Before its lock a swap can be aborted: by Bob with a sweep of his funding, by Alice, and before the
-- roles are taken up, at once.
pub data CanAbort : SwapRole → Phase → Type 0 where
  bob_taken : CanAbort bob (init_taker bob)
  bob_made : CanAbort bob (init_maker bob)
  bob_committed : CanAbort bob (taker_maker_commit bob)
  bob_revealed : CanAbort bob (reveal bob)
  bob_estimated : CanAbort bob bob_fee_estimated
  bob_paid : CanAbort bob bob_funded
  start_take : {r : SwapRole} → CanAbort alice (start_taker r)
  start_make : {r : SwapRole} → CanAbort alice (start_maker r)
  alice_taken : CanAbort alice (init_taker alice)
  alice_made : CanAbort alice (init_maker alice)
  alice_committed : CanAbort alice (taker_maker_commit alice)
  alice_revealed : CanAbort alice (reveal alice)

pub data Locked : SwapRole → Phase → Type 0 where
  bob_signed : Locked bob bob_refund_procedure_signatures
  bob_locked : Locked bob bob_accordant_lock
  bob_lock_final : Locked bob bob_accordant_lock_final
  alice_set_up : Locked alice alice_core_arbitrating_setup
  alice_lock_final : Locked alice alice_arbitrating_lock_final
  alice_locked : Locked alice alice_accordant_lock

-- `retrieve_buy`, `await_funding` and `stay_canceled` are the loops.
infix 40 ◌⟶◌
pub data ◌⟶◌ : Phase → Phase → Type 0 where
  take : {r : SwapRole} → start_taker r ⟶ init_taker r
  make : {r : SwapRole} → start_maker r ⟶ init_maker r
  commit : {r : SwapRole} → init_taker r ⟶ taker_maker_commit r
  reveal_taker : {r : SwapRole} → taker_maker_commit r ⟶ reveal r
  reveal_maker : {r : SwapRole} → init_maker r ⟶ reveal r
  estimate : reveal bob ⟶ bob_fee_estimated
  fund : bob_fee_estimated ⟶ bob_funded
  sign_refund : bob_funded ⟶ bob_refund_procedure_signatures
  lock_seen : bob_refund_procedure_signatures ⟶ bob_accordant_lock
  lock_final : bob_accordant_lock ⟶ bob_accordant_lock_final
  retrieve_buy : bob_accordant_lock_final ⟶ bob_accordant_lock_final
  buy_seen : bob_accordant_lock_final ⟶ bob_buy_final
  sweep_buy : bob_buy_final ⟶ bob_buy_sweeping
  end_buy : bob_buy_sweeping ⟶ swap_end Outcome.success_swap
  set_up : reveal alice ⟶ alice_core_arbitrating_setup
  arbitrating_final : alice_core_arbitrating_setup ⟶ alice_arbitrating_lock_final
  await_funding : alice_arbitrating_lock_final ⟶ alice_arbitrating_lock_final
  fund_monero : alice_arbitrating_lock_final ⟶ alice_accordant_lock
  sign_buy : alice_accordant_lock ⟶ alice_buy_procedure_signature
  end_sale : alice_buy_procedure_signature ⟶ swap_end Outcome.success_swap
  cancel_bob : {p : Phase} → Locked bob p → p ⟶ bob_canceled
  cancel_alice : {p : Phase} → Locked alice p → p ⟶ alice_canceled
  stay_canceled : alice_canceled ⟶ alice_canceled
  refund_bob : bob_canceled ⟶ bob_cancel_final
  end_refund : bob_cancel_final ⟶ swap_end Outcome.failure_refund
  refund_alice : alice_canceled ⟶ alice_refund
  sweep_refund : alice_refund ⟶ alice_refund_sweeping
  end_sweep : alice_refund_sweeping ⟶ swap_end Outcome.failure_refund
  end_unfunded : alice_canceled ⟶ swap_end Outcome.failure_refund
  end_punish : alice_canceled ⟶ swap_end Outcome.failure_punish
  abort_alice : {p : Phase} → CanAbort alice p → p ⟶ swap_end Outcome.failure_abort
  abort_bob : {p : Phase} → CanAbort bob p → p ⟶ bob_abort_awaiting_bitcoin_sweep
  end_abort : bob_abort_awaiting_bitcoin_sweep ⟶ swap_end Outcome.failure_abort

pub ruleset edges = (
  take, make, commit, reveal_taker, reveal_maker, estimate, fund, sign_refund, lock_seen,
  lock_final, retrieve_buy, buy_seen, sweep_buy, end_buy, set_up, arbitrating_final, await_funding,
  fund_monero, sign_buy, end_sale, cancel_bob, cancel_alice, stay_canceled, refund_bob, end_refund,
  refund_alice, sweep_refund, end_sweep, end_unfunded, end_punish, abort_alice, abort_bob,
  end_abort, bob_taken, bob_made, bob_committed, bob_revealed, bob_estimated, bob_paid, start_take,
  start_make, alice_taken, alice_made, alice_committed, alice_revealed, bob_signed, bob_locked,
  bob_lock_final, alice_set_up, alice_lock_final, alice_locked,
)

-- A handler's result is no transition, or one along an edge.
abbrev pub Follows : State → Option State → Type 0
Follows s none = Unit
Follows s (some t) = phase s ⟶ phase t
