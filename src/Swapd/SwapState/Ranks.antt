-- ===== src/Swapd/SwapState/Ranks.antt =====
-- How far along a swap the states of src/swapd/swap_state.rs are.
use farcaster_node.Base.{ℕ, ◌<◌, ◌≤◌, ◌≡◌, refl, sym, subst, ◌∙◌, arith, ◌⊎◌, inl, inr}
use farcaster_node.Swapd.Messages.{State, bob, alice}
use farcaster_node.Swapd.Runtime.{Env}
use farcaster_node.Swapd.SwapState.Graph
use farcaster_node.Swapd.SwapState.Graph.{Phase, phase, ◌⟶◌, Locked, CanAbort}
use farcaster_node.Swapd.SwapState.Follows.{next-follows}
use farcaster_node.Swapd.SwapState.Runs.{Runs, stays, moves}

-- How far a swap has come.
abbrev pub rank : Phase → ℕ
rank (Graph.start_taker r) = 0
rank (Graph.start_maker r) = 0
rank (Graph.init_maker r) = 2
rank (Graph.init_taker r) = 1
rank (Graph.taker_maker_commit r) = 2
rank (Graph.reveal r) = 3
rank Graph.bob_fee_estimated = 4
rank Graph.bob_funded = 5
rank Graph.bob_refund_procedure_signatures = 6
rank Graph.bob_accordant_lock = 7
rank Graph.bob_accordant_lock_final = 8
rank Graph.bob_buy_final = 9
rank Graph.bob_buy_sweeping = 10
rank Graph.bob_canceled = 9
rank Graph.bob_cancel_final = 10
rank Graph.bob_abort_awaiting_bitcoin_sweep = 10
rank Graph.alice_core_arbitrating_setup = 4
rank Graph.alice_arbitrating_lock_final = 5
rank Graph.alice_accordant_lock = 6
rank Graph.alice_buy_procedure_signature = 7
rank Graph.alice_canceled = 7
rank Graph.alice_refund = 8
rank Graph.alice_refund_sweeping = 9
rank (Graph.swap_end o) = 11

pub rank-bound : (p : Phase) → rank p ≤ 11
rank-bound p = ground arith

-- The phases that a swap may be in again after a move.
pub data Stay : Phase → Phase → Type 0 where
  retrieving : Stay Graph.bob_accordant_lock_final Graph.bob_accordant_lock_final
  awaiting : Stay Graph.alice_arbitrating_lock_final Graph.alice_arbitrating_lock_final
  canceled : Stay Graph.alice_canceled Graph.alice_canceled

pub edge-climbs : {p q : Phase} → p ⟶ q → Stay p q ⊎ (rank p < rank q)
edge-climbs (Graph.take {r = alice}) = inr (omega arith)
edge-climbs (Graph.take {r = bob}) = inr (omega arith)
edge-climbs (Graph.make {r = alice}) = inr (omega arith)
edge-climbs (Graph.make {r = bob}) = inr (omega arith)
edge-climbs (Graph.commit {r = alice}) = inr (omega arith)
edge-climbs (Graph.commit {r = bob}) = inr (omega arith)
edge-climbs (Graph.reveal_taker {r = alice}) = inr (omega arith)
edge-climbs (Graph.reveal_taker {r = bob}) = inr (omega arith)
edge-climbs (Graph.reveal_maker {r = alice}) = inr (omega arith)
edge-climbs (Graph.reveal_maker {r = bob}) = inr (omega arith)
edge-climbs Graph.estimate = inr (omega arith)
edge-climbs Graph.fund = inr (omega arith)
edge-climbs Graph.sign_refund = inr (omega arith)
edge-climbs Graph.lock_seen = inr (omega arith)
edge-climbs Graph.lock_final = inr (omega arith)
edge-climbs Graph.retrieve_buy = inl retrieving
edge-climbs Graph.buy_seen = inr (omega arith)
edge-climbs Graph.sweep_buy = inr (omega arith)
edge-climbs Graph.end_buy = inr (omega arith)
edge-climbs Graph.set_up = inr (omega arith)
edge-climbs Graph.arbitrating_final = inr (omega arith)
edge-climbs Graph.await_funding = inl awaiting
edge-climbs Graph.fund_monero = inr (omega arith)
edge-climbs Graph.sign_buy = inr (omega arith)
edge-climbs Graph.end_sale = inr (omega arith)
edge-climbs (Graph.cancel_bob Graph.bob_signed) = inr (omega arith)
edge-climbs (Graph.cancel_bob Graph.bob_locked) = inr (omega arith)
edge-climbs (Graph.cancel_bob Graph.bob_lock_final) = inr (omega arith)
edge-climbs (Graph.cancel_alice Graph.alice_set_up) = inr (omega arith)
edge-climbs (Graph.cancel_alice Graph.alice_lock_final) = inr (omega arith)
edge-climbs (Graph.cancel_alice Graph.alice_locked) = inr (omega arith)
edge-climbs Graph.stay_canceled = inl canceled
edge-climbs Graph.refund_bob = inr (omega arith)
edge-climbs Graph.end_refund = inr (omega arith)
edge-climbs Graph.refund_alice = inr (omega arith)
edge-climbs Graph.sweep_refund = inr (omega arith)
edge-climbs Graph.end_sweep = inr (omega arith)
edge-climbs Graph.end_unfunded = inr (omega arith)
edge-climbs Graph.end_punish = inr (omega arith)
edge-climbs (Graph.abort_alice (Graph.start_take {r = alice})) = inr (omega arith)
edge-climbs (Graph.abort_alice (Graph.start_take {r = bob})) = inr (omega arith)
edge-climbs (Graph.abort_alice (Graph.start_make {r = alice})) = inr (omega arith)
edge-climbs (Graph.abort_alice (Graph.start_make {r = bob})) = inr (omega arith)
edge-climbs (Graph.abort_alice Graph.alice_taken) = inr (omega arith)
edge-climbs (Graph.abort_alice Graph.alice_made) = inr (omega arith)
edge-climbs (Graph.abort_alice Graph.alice_committed) = inr (omega arith)
edge-climbs (Graph.abort_alice Graph.alice_revealed) = inr (omega arith)
edge-climbs (Graph.abort_bob Graph.bob_taken) = inr (omega arith)
edge-climbs (Graph.abort_bob Graph.bob_made) = inr (omega arith)
edge-climbs (Graph.abort_bob Graph.bob_committed) = inr (omega arith)
edge-climbs (Graph.abort_bob Graph.bob_revealed) = inr (omega arith)
edge-climbs (Graph.abort_bob Graph.bob_estimated) = inr (omega arith)
edge-climbs (Graph.abort_bob Graph.bob_paid) = inr (omega arith)
edge-climbs Graph.end_abort = inr (omega arith)

-- The same phase, or one that has come further.
abbrev Later : Phase → Phase → Type 0
Later p q = (p ≡ q) ⊎ (rank p < rank q)

Stay-same : {p q : Phase} → Stay p q → p ≡ q
Stay-same retrieving = refl
Stay-same awaiting = refl
Stay-same canceled = refl

edge-Later : {p q : Phase} → p ⟶ q → Later p q
edge-Later e = elim (edge-climbs e) [ inl stay ↦ inl (Stay-same stay) | inr climb ↦ inr climb ]

Later-trans : (p q r : Phase) → Later p q → Later q r → Later p r
Later-trans p q r (inl a) (inl b) = inl (a ∙ b)
Later-trans p q r (inl a) (inr b) = inr (subst (λ k. rank k < rank r) (sym a) b)
Later-trans p q r (inr a) (inl b) = inr (subst (λ k. rank p < rank k) b a)
Later-trans p q r (inr a) (inr b) = inr (omega arith)

Later-antisym : (p q : Phase) → Later p q → Later q p → p ≡ q
Later-antisym p q (inl a) h = a
Later-antisym p q (inr a) (inl b) = sym b
Later-antisym p q (inr a) (inr b) = absurd (omega arith)

run-Later : (env : Env) (s t : State) → Runs env s t → Later (phase s) (phase t)
run-Later env s _ stays = inl refl
run-Later env s u (moves {t = t} source q w w' e run) =
    Later-trans (phase s) (phase t) (phase u) (edge-Later (next-follows env source s t q w w' e))
      (run-Later env t u run)

-- A swap that has left a phase never comes back to it: if `t` is reached from `s` and `s` from `t`,
-- the two are in the same phase.
pub no_return : (env : Env) (s t : State) → Runs env s t → Runs env t s → phase s ≡ phase t
no_return env s t there back =
    Later-antisym (phase s) (phase t) (run-Later env s t there) (run-Later env t s back)
