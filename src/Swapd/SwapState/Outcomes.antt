-- ===== src/Swapd/SwapState/Outcomes.antt =====
-- The outcomes that each state of src/swapd/swap_state.rs leaves open.
use farcaster_node.Base.{◌≡◌, refl, Bool, true, ◌&&◌, false, arith}
use farcaster_node.Swapd.Messages.{
  State, bob, alice, Outcome, success_swap, failure_refund, failure_punish, failure_abort,
}
use farcaster_node.Swapd.Runtime.{Env}
use farcaster_node.Swapd.SwapState.Graph
use farcaster_node.Swapd.SwapState.Graph.{Phase, phase, ◌⟶◌, Locked, CanAbort}
use farcaster_node.Swapd.SwapState.Follows.{next-follows}
use farcaster_node.Swapd.SwapState.Runs.{Runs, stays, moves}

-- The outcomes that a swap can still have.
abbrev pub may_end : Phase → Outcome → Bool
may_end (Graph.start_taker alice) o = true
may_end (Graph.start_taker bob) failure_punish = false
may_end (Graph.start_taker bob) _ = true
may_end (Graph.start_maker alice) o = true
may_end (Graph.start_maker bob) failure_punish = false
may_end (Graph.start_maker bob) _ = true
may_end (Graph.init_maker alice) o = true
may_end (Graph.init_maker bob) failure_punish = false
may_end (Graph.init_maker bob) _ = true
may_end (Graph.init_taker alice) o = true
may_end (Graph.init_taker bob) failure_punish = false
may_end (Graph.init_taker bob) _ = true
may_end (Graph.taker_maker_commit alice) o = true
may_end (Graph.taker_maker_commit bob) failure_punish = false
may_end (Graph.taker_maker_commit bob) _ = true
may_end (Graph.reveal alice) o = true
may_end (Graph.reveal bob) failure_punish = false
may_end (Graph.reveal bob) _ = true
may_end Graph.bob_fee_estimated failure_punish = false
may_end Graph.bob_fee_estimated _ = true
may_end Graph.bob_funded failure_punish = false
may_end Graph.bob_funded _ = true
may_end Graph.bob_refund_procedure_signatures success_swap = true
may_end Graph.bob_refund_procedure_signatures failure_refund = true
may_end Graph.bob_refund_procedure_signatures _ = false
may_end Graph.bob_accordant_lock success_swap = true
may_end Graph.bob_accordant_lock failure_refund = true
may_end Graph.bob_accordant_lock _ = false
may_end Graph.bob_accordant_lock_final success_swap = true
may_end Graph.bob_accordant_lock_final failure_refund = true
may_end Graph.bob_accordant_lock_final _ = false
may_end Graph.bob_buy_final success_swap = true
may_end Graph.bob_buy_final _ = false
may_end Graph.bob_buy_sweeping success_swap = true
may_end Graph.bob_buy_sweeping _ = false
may_end Graph.alice_buy_procedure_signature success_swap = true
may_end Graph.alice_buy_procedure_signature _ = false
may_end Graph.bob_canceled failure_refund = true
may_end Graph.bob_canceled _ = false
may_end Graph.bob_cancel_final failure_refund = true
may_end Graph.bob_cancel_final _ = false
may_end Graph.alice_refund failure_refund = true
may_end Graph.alice_refund _ = false
may_end Graph.alice_refund_sweeping failure_refund = true
may_end Graph.alice_refund_sweeping _ = false
may_end Graph.bob_abort_awaiting_bitcoin_sweep failure_abort = true
may_end Graph.bob_abort_awaiting_bitcoin_sweep _ = false
may_end Graph.alice_core_arbitrating_setup failure_abort = false
may_end Graph.alice_core_arbitrating_setup _ = true
may_end Graph.alice_arbitrating_lock_final failure_abort = false
may_end Graph.alice_arbitrating_lock_final _ = true
may_end Graph.alice_accordant_lock failure_abort = false
may_end Graph.alice_accordant_lock _ = true
may_end Graph.alice_canceled failure_refund = true
may_end Graph.alice_canceled failure_punish = true
may_end Graph.alice_canceled _ = false
may_end (Graph.swap_end success_swap) success_swap = true
may_end (Graph.swap_end success_swap) _ = false
may_end (Graph.swap_end failure_refund) failure_refund = true
may_end (Graph.swap_end failure_refund) _ = false
may_end (Graph.swap_end failure_punish) failure_punish = true
may_end (Graph.swap_end failure_punish) _ = false
may_end (Graph.swap_end failure_abort) failure_abort = true
may_end (Graph.swap_end failure_abort) _ = false

implies : Bool → Bool → Bool
implies true b = b
implies false b = true

-- Every outcome that `q` can have `p` can have.
abbrev Narrows : Phase → Phase → Type 0
unfolding implies
Narrows q p =
    (implies (may_end q success_swap) (may_end p success_swap)
      && (implies (may_end q failure_refund) (may_end p failure_refund)
          && (implies (may_end q failure_punish) (may_end p failure_punish)
              && implies (may_end q failure_abort) (may_end p failure_abort))))
    ≡ true

edge-Narrows : {p q : Phase} → p ⟶ q → Narrows q p
unfolding implies
edge-Narrows (Graph.take {r = alice}) = refl
edge-Narrows (Graph.take {r = bob}) = refl
edge-Narrows (Graph.make {r = alice}) = refl
edge-Narrows (Graph.make {r = bob}) = refl
edge-Narrows (Graph.commit {r = alice}) = refl
edge-Narrows (Graph.commit {r = bob}) = refl
edge-Narrows (Graph.reveal_taker {r = alice}) = refl
edge-Narrows (Graph.reveal_taker {r = bob}) = refl
edge-Narrows (Graph.reveal_maker {r = alice}) = refl
edge-Narrows (Graph.reveal_maker {r = bob}) = refl
edge-Narrows Graph.estimate = refl
edge-Narrows Graph.fund = refl
edge-Narrows Graph.sign_refund = refl
edge-Narrows Graph.lock_seen = refl
edge-Narrows Graph.lock_final = refl
edge-Narrows Graph.retrieve_buy = refl
edge-Narrows Graph.buy_seen = refl
edge-Narrows Graph.sweep_buy = refl
edge-Narrows Graph.end_buy = refl
edge-Narrows Graph.set_up = refl
edge-Narrows Graph.arbitrating_final = refl
edge-Narrows Graph.await_funding = refl
edge-Narrows Graph.fund_monero = refl
edge-Narrows Graph.sign_buy = refl
edge-Narrows Graph.end_sale = refl
edge-Narrows (Graph.cancel_bob Graph.bob_signed) = refl
edge-Narrows (Graph.cancel_bob Graph.bob_locked) = refl
edge-Narrows (Graph.cancel_bob Graph.bob_lock_final) = refl
edge-Narrows (Graph.cancel_alice Graph.alice_set_up) = refl
edge-Narrows (Graph.cancel_alice Graph.alice_lock_final) = refl
edge-Narrows (Graph.cancel_alice Graph.alice_locked) = refl
edge-Narrows Graph.stay_canceled = refl
edge-Narrows Graph.refund_bob = refl
edge-Narrows Graph.end_refund = refl
edge-Narrows Graph.refund_alice = refl
edge-Narrows Graph.sweep_refund = refl
edge-Narrows Graph.end_sweep = refl
edge-Narrows Graph.end_unfunded = refl
edge-Narrows Graph.end_punish = refl
edge-Narrows (Graph.abort_alice (Graph.start_take {r = alice})) = refl
edge-Narrows (Graph.abort_alice (Graph.start_take {r = bob})) = refl
edge-Narrows (Graph.abort_alice (Graph.start_make {r = alice})) = refl
edge-Narrows (Graph.abort_alice (Graph.start_make {r = bob})) = refl
edge-Narrows (Graph.abort_alice Graph.alice_taken) = refl
edge-Narrows (Graph.abort_alice Graph.alice_made) = refl
edge-Narrows (Graph.abort_alice Graph.alice_committed) = refl
edge-Narrows (Graph.abort_alice Graph.alice_revealed) = refl
edge-Narrows (Graph.abort_bob Graph.bob_taken) = refl
edge-Narrows (Graph.abort_bob Graph.bob_made) = refl
edge-Narrows (Graph.abort_bob Graph.bob_committed) = refl
edge-Narrows (Graph.abort_bob Graph.bob_revealed) = refl
edge-Narrows (Graph.abort_bob Graph.bob_estimated) = refl
edge-Narrows (Graph.abort_bob Graph.bob_paid) = refl
edge-Narrows Graph.end_abort = refl

Narrows-may_end :
    (p q : Phase) → Narrows q p → (o : Outcome) → may_end q o ≡ true → may_end p o ≡ true
unfolding implies
Narrows-may_end p q n success_swap h = ground arith
Narrows-may_end p q n failure_refund h = ground arith
Narrows-may_end p q n failure_punish h = ground arith
Narrows-may_end p q n failure_abort h = ground arith

-- After any run of requests, an outcome that `may_end` still gives for the state reached is one that
-- it gives for the first state.
pub run_outcome :
    (env : Env) (s t : State) (o : Outcome)
    → Runs env s t
    → may_end (phase t) o ≡ true
    → may_end (phase s) o ≡ true
run_outcome env s _ o stays h = h
run_outcome env s u o (moves {t = t} source q w w' e run) h =
    Narrows-may_end (phase s) (phase t) (edge-Narrows (next-follows env source s t q w w' e)) o
      (run_outcome env t u o run h)
