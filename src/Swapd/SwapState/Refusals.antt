-- ===== src/Swapd/SwapState/Refusals.antt =====
-- Requests to abort a swap in src/swapd/swap_state.rs.
use farcaster_node.Base.{
  Bool-cases, Option, if◌then◌else◌, inl, inr, none, refl, some, subst, ◌∷◌, ◌≡◌,
}
use farcaster_node.Bus.{ServiceId}
use farcaster_node.Swapd.Messages.{
  State, send, SwapRole, bob, alice, abort_swap, failure_text, failure_abort,
}
use farcaster_node.Swapd.Runtime.{
  World, Env, Result, ok, err, ◌>>=◌, complete_client, send_to, try_send, or_error, reply_dest,
}
use farcaster_node.Swapd.Runtime.Rules.{Post, Returns, returns_rules}
use farcaster_node.Swapd.SwapState.Common.{
  handle_abort_swap, handle_bob_abort_swap, handle_abort_impossible,
  handle_bob_swap_interrupt_after_lock, handle_alice_swap_interrupt_after_lock,
}
use farcaster_node.Swapd.SwapState.Start.{
  attempt_transition_to_init_taker, attempt_transition_to_init_maker,
  try_bob_init_taker_to_bob_taker_maker_commit, try_alice_init_taker_to_alice_taker_maker_commit,
}
use farcaster_node.Swapd.SwapState.Reveal.{
  attempt_transition_to_bob_reveal, attempt_transition_to_alice_reveal,
}
use farcaster_node.Swapd.SwapState.Bob.{
  try_bob_reveal_to_bob_fee_estimated, try_bob_fee_estimated_to_bob_funded,
  try_bob_funded_to_bob_refund_procedure_signature,
  try_bob_refund_procedure_signatures_to_bob_accordant_lock,
  try_bob_accordant_lock_to_bob_accordant_lock_final,
}
use farcaster_node.Swapd.SwapState.BobEnd.{
  try_bob_accordant_lock_final_to_bob_buy_final, try_bob_buy_final_to_bob_buy_sweeping,
  try_bob_buy_sweeping_to_swap_end, try_bob_canceled_to_bob_cancel_final,
  try_bob_cancel_final_to_swap_end, try_awaiting_sweep_to_swap_end,
}
use farcaster_node.Swapd.SwapState.Alice.{
  try_alice_reveal_to_alice_core_arbitrating_setup,
  try_alice_core_arbitrating_setup_to_alice_arbitrating_lock_final,
  try_alice_arbitrating_lock_final_to_alice_accordant_lock,
  try_alice_accordant_lock_to_alice_buy_procedure_signature,
}
use farcaster_node.Swapd.SwapState.AliceEnd.{
  try_alice_buy_procedure_signature_to_swap_end, try_alice_canceled_to_alice_refund_or_alice_punish,
  try_alice_refund_to_alice_refund_sweeping, try_alice_refund_sweeping_to_swap_end,
}
use farcaster_node.Swapd.SwapState.Next.{next}
use farcaster_node.Swapd.SwapState.Graph
use farcaster_node.Swapd.SwapState.Graph.{Phase, phase, Locked, CanAbort}

-- The client is told. If the bus delivers that, nothing else changes; if not, the step fails and
-- nothing changes.
abbrev pub refusal : Env → ServiceId → World → Result (Option State) × World
refusal env source w =
    if env.delivers w.trace (reply_dest env source) failure_text
    then (ok none, record w { trace = send (reply_dest env source) failure_text ∷ w.trace })
    else (err, w)

impossible :
    (env : Env) (source : ServiceId) (w : World)
    → handle_abort_impossible env source w ≡ refusal env source w
unfolding handle_abort_impossible complete_client send_to try_send or_error ◌>>=◌
impossible env source w =
    elim (Bool-cases (env.delivers w.trace (reply_dest env source) failure_text)) [
      | inl e ↦ rw e refl
      | inr e ↦ rw e refl
    ]

-- In the six states in which the lock may be out and no later transaction is (Bob's from the refund
-- signatures to the final lock of the Monero, Alice's from the core setup to the lock of the Monero), a
-- request to abort is refused: the client, or `grpcd` for it, is sent a failure, and the swap stays as
-- it is, or the step fails and nothing changes if the bus does not deliver that failure.
pub abort_refused :
    (env : Env) (role : SwapRole) (s : State) (source : ServiceId) (w : World)
    → Locked role (phase s)
    → next env s source abort_swap w ≡ refusal env source w
unfolding next try_bob_refund_procedure_signatures_to_bob_accordant_lock
    try_bob_accordant_lock_to_bob_accordant_lock_final try_bob_accordant_lock_final_to_bob_buy_final
    try_alice_core_arbitrating_setup_to_alice_arbitrating_lock_final
    try_alice_arbitrating_lock_final_to_alice_accordant_lock
    try_alice_accordant_lock_to_alice_buy_procedure_signature handle_bob_swap_interrupt_after_lock
    handle_alice_swap_interrupt_after_lock
abort_refused env role (State.start_taker x0) source w h = elim h [ ]
abort_refused env role (State.start_maker x0) source w h = elim h [ ]
abort_refused env role (State.bob_init_taker x0 x1) source w h = elim h [ ]
abort_refused env role (State.alice_init_taker x0 x1) source w h = elim h [ ]
abort_refused env role (State.bob_init_maker x0 x1 x2) source w h = elim h [ ]
abort_refused env role (State.bob_taker_maker_commit x0 x1 x2) source w h = elim h [ ]
abort_refused env role (State.alice_init_maker x0 x1 x2) source w h = elim h [ ]
abort_refused env role (State.alice_taker_maker_commit x0 x1 x2) source w h = elim h [ ]
abort_refused env role (State.bob_reveal x0 x1 x2) source w h = elim h [ ]
abort_refused env role (State.bob_fee_estimated x0 x1 x2 x3) source w h = elim h [ ]
abort_refused env role (State.bob_funded x0 x1 x2) source w h = elim h [ ]
abort_refused env role (State.bob_refund_procedure_signatures x0 x1 x2 x3) source w h =
    impossible env source w
abort_refused env role (State.bob_accordant_lock x0 x1 x2 x3) source w h = impossible env source w
abort_refused env role (State.bob_accordant_lock_final x0 x1 x2) source w h =
    impossible env source w
abort_refused env role (State.bob_buy_final x0) source w h = elim h [ ]
abort_refused env role State.bob_buy_sweeping source w h = elim h [ ]
abort_refused env role State.bob_canceled source w h = elim h [ ]
abort_refused env role State.bob_cancel_final source w h = elim h [ ]
abort_refused env role State.bob_abort_awaiting_bitcoin_sweep source w h = elim h [ ]
abort_refused env role (State.alice_reveal x0 x1 x2) source w h = elim h [ ]
abort_refused env role (State.alice_core_arbitrating_setup x0 x1 x2) source w h =
    impossible env source w
abort_refused env role (State.alice_arbitrating_lock_final x0 x1 x2) source w h =
    impossible env source w
abort_refused env role (State.alice_accordant_lock x0) source w h = impossible env source w
abort_refused env role State.alice_buy_procedure_signature source w h = elim h [ ]
abort_refused env role (State.alice_canceled x0) source w h = elim h [ ]
abort_refused env role (State.alice_refund x0) source w h = elim h [ ]
abort_refused env role State.alice_refund_sweeping source w h = elim h [ ]
abort_refused env role (State.swap_end x0) source w h = elim h [ ]

-- Where an abort leads to.
pub data AbortsTo : Phase → Phase → Type 0 where
  bob_aborts : {p : Phase} → CanAbort bob p → AbortsTo p Graph.bob_abort_awaiting_bitcoin_sweep
  alice_aborts : {p : Phase} → CanAbort alice p → AbortsTo p (Graph.swap_end failure_abort)

abbrev Aborts : State → Option State → Type 0
Aborts s none = Unit
Aborts s (some t) = AbortsTo (phase s) (phase t)

ruleset abort_edges = (
  bob_aborts, alice_aborts, Graph.bob_taken, Graph.bob_made, Graph.bob_committed,
  Graph.bob_revealed, Graph.bob_estimated, Graph.bob_paid, Graph.start_take, Graph.start_make,
  Graph.alice_taken, Graph.alice_made, Graph.alice_committed, Graph.alice_revealed,
)

module _ (env : Env) (source : ServiceId) where
  every_abort : (s : State) → Returns (Aborts s) (next env s source abort_swap)
  unfolding next attempt_transition_to_init_taker attempt_transition_to_init_maker
      try_bob_init_taker_to_bob_taker_maker_commit try_alice_init_taker_to_alice_taker_maker_commit
      attempt_transition_to_bob_reveal attempt_transition_to_alice_reveal
      try_bob_reveal_to_bob_fee_estimated try_bob_fee_estimated_to_bob_funded
      try_bob_funded_to_bob_refund_procedure_signature
      try_bob_refund_procedure_signatures_to_bob_accordant_lock
      try_bob_accordant_lock_to_bob_accordant_lock_final
      try_bob_accordant_lock_final_to_bob_buy_final try_bob_buy_final_to_bob_buy_sweeping
      try_bob_buy_sweeping_to_swap_end try_bob_canceled_to_bob_cancel_final
      try_bob_cancel_final_to_swap_end try_awaiting_sweep_to_swap_end
      try_alice_reveal_to_alice_core_arbitrating_setup
      try_alice_core_arbitrating_setup_to_alice_arbitrating_lock_final
      try_alice_arbitrating_lock_final_to_alice_accordant_lock
      try_alice_accordant_lock_to_alice_buy_procedure_signature
      try_alice_buy_procedure_signature_to_swap_end
      try_alice_canceled_to_alice_refund_or_alice_punish try_alice_refund_to_alice_refund_sweeping
      try_alice_refund_sweeping_to_swap_end handle_abort_swap handle_bob_abort_swap
      handle_abort_impossible handle_bob_swap_interrupt_after_lock
      handle_alice_swap_interrupt_after_lock
  every_abort (State.start_taker r) = search (returns_rules, abort_edges) depth 20
  every_abort (State.start_maker r) = search (returns_rules, abort_edges) depth 20
  every_abort (State.bob_init_taker l w) = search (returns_rules, abort_edges) depth 20
  every_abort (State.alice_init_taker l w) = search (returns_rules, abort_edges) depth 20
  every_abort (State.bob_init_maker l c w) = search (returns_rules, abort_edges) depth 20
  every_abort (State.bob_taker_maker_commit l c w) = search (returns_rules, abort_edges) depth 20
  every_abort (State.alice_init_maker l c w) = search (returns_rules, abort_edges) depth 20
  every_abort (State.alice_taker_maker_commit l c w) = search (returns_rules, abort_edges) depth 20
  every_abort (State.bob_reveal l r w) = search (returns_rules, abort_edges) depth 20
  every_abort (State.bob_fee_estimated l m r w) = search (returns_rules, abort_edges) depth 20
  every_abort (State.bob_funded l r w) = search (returns_rules, abort_edges) depth 20
  every_abort (State.bob_refund_procedure_signatures l r w b) =
      search (returns_rules, abort_edges) depth 20
  every_abort (State.bob_accordant_lock l r w b) = search (returns_rules, abort_edges) depth 20
  every_abort (State.bob_accordant_lock_final l r w) = search (returns_rules, abort_edges) depth 20
  every_abort (State.bob_buy_final s) = search (returns_rules, abort_edges) depth 20
  every_abort State.bob_buy_sweeping = search (returns_rules, abort_edges) depth 20
  every_abort State.bob_canceled = search (returns_rules, abort_edges) depth 20
  every_abort State.bob_cancel_final = search (returns_rules, abort_edges) depth 20
  every_abort State.bob_abort_awaiting_bitcoin_sweep = search (returns_rules, abort_edges) depth 20
  every_abort (State.alice_reveal l r w) = search (returns_rules, abort_edges) depth 20
  every_abort (State.alice_core_arbitrating_setup l r w) =
      search (returns_rules, abort_edges) depth 20
  every_abort (State.alice_arbitrating_lock_final w i m) =
      search (returns_rules, abort_edges) depth 20
  every_abort (State.alice_accordant_lock w) = search (returns_rules, abort_edges) depth 20
  every_abort State.alice_buy_procedure_signature = search (returns_rules, abort_edges) depth 20
  every_abort (State.alice_canceled w) = search (returns_rules, abort_edges) depth 20
  every_abort (State.alice_refund s) = search (returns_rules, abort_edges) depth 20
  every_abort State.alice_refund_sweeping = search (returns_rules, abort_edges) depth 20
  every_abort (State.swap_end o) = search (returns_rules, abort_edges) depth 20

  -- A request to abort moves the swap only from a state that can be aborted: Bob's to the sweep of
  -- his funding, Alice's, or one that has not started, to the end of the swap as aborted.
  pub abort_moves :
      (s t : State) (w w' : World)
      → next env s source abort_swap w ≡ (ok (some t), w')
      → AbortsTo (phase s) (phase t)
  abort_moves s t w w' e = subst (λ r. Post (Aborts s) r.0) e ((every_abort s).at w)
