-- ===== src/Swapd/Handle/Potential.antt =====
-- The calls that `execute_state_machine` of src/swapd/runtime.rs makes on its own: the bound on how
-- deep they go.
use farcaster_node.Base.{
  ◌<◌, ◌≤◌, ◌≡◌, refl, sym, ◌∙◌, Option, none, some, inl, inr, arith, Bool, true, false,
}
use mathlib.Core.Bool.{true≢false}
use farcaster_node.Bus.{ServiceId}
use farcaster_node.Syncerd.Types.{transaction_confirmations}
use farcaster_node.Swapd.Messages.{State, Request, sync_event}
use farcaster_node.Swapd.Runtime.{Runtime, World, Env, Result, ok, err}
use farcaster_node.Swapd.SwapState.Next.{next}
use farcaster_node.Swapd.SwapState.Graph
use farcaster_node.Swapd.SwapState.Graph.{Phase, phase, ◌⟶◌}
use farcaster_node.Swapd.SwapState.Ranks.{Stay, retrieving, awaiting, canceled, edge-climbs}
use farcaster_node.Swapd.SwapState.Follows.{next-follows}
use farcaster_node.Swapd.Handle.Triples.{After}
use farcaster_node.Swapd.Handle.Debts.{
  debt, potential, climb-pays, Replayable, of_peer, of_confs, Pays,
}
use farcaster_node.Swapd.Handle.Payments.{
  bob_accordant_lock_final-Pays, alice_arbitrating_lock_final-Pays, alice_canceled-Pays,
  bob_accordant_lock_final-unmoved, alice_arbitrating_lock_final-unmoved, alice_canceled-unmoved,
}

-- A replayed request lowers the potential, or moves nothing and does not raise it.
abbrev pub Sinks : State → World → Result (Option State) × World → Type 0
Sinks s w (ok none, w') = debt s w'.runtime ≤ debt s w.runtime
Sinks s w (ok (some t), w') = potential t w'.runtime < potential s w.runtime
Sinks s w (err, w') = Unit

-- A state of a phase that can be stayed in pays by its own lemma; any other climbs.
Pays-Sinks :
    (s : State) (w : World) (r : Result (Option State) × World)
    → After (Pays s (debt s w.runtime)) r
    → Sinks s w r
Pays-Sinks s w (ok none, w') h = h
Pays-Sinks s w (ok (some t), w') (inl h) = climb-pays s t w.runtime w'.runtime h
Pays-Sinks s w (ok (some t), w') (inr (e, h)) = rw e (omega arith)
Pays-Sinks s w (err, w') h = tt

unmoved-Sinks :
    (s : State) (r : Result (Option State) × World) (w : World) → r ≡ (ok none, w) → Sinks s w r
unmoved-Sinks s r w e = rw e (omega arith)

staying : Phase → Bool
staying Graph.bob_accordant_lock_final = true
staying Graph.alice_arbitrating_lock_final = true
staying Graph.alice_canceled = true
staying _ = false

Stay-staying : {p q : Phase} → Stay p q → staying p ≡ true
unfolding staying
Stay-staying retrieving = refl
Stay-staying awaiting = refl
Stay-staying canceled = refl

module _ (env : Env) (source : ServiceId) where
  climbing-Sinks :
      (s : State) (q : Request) (w : World)
      → ((r : Runtime) → debt s r ≡ 0)
      → staying (phase s) ≡ false
      → Sinks s w (next env s source q w)
  climbing-Sinks s q w z no_stay = go (next env s source q w) refl
    where
      go : (r : Result (Option State) × World) → next env s source q w ≡ r → Sinks s w r
      go (ok none, w') e = rw (z w'.runtime) (omega arith)
      go (ok (some t), w') e = elim (edge-climbs (next-follows env source s t q w w' e)) [
        | inl stay ↦ absurd (true≢false (sym (Stay-staying stay) ∙ no_stay))
        | inr h ↦ climb-pays s t w.runtime w'.runtime h
      ]
      go (err, w') e = tt

  pub next-Sinks :
      (s : State) (q : Request) (w : World) → Replayable q → Sinks s w (next env s source q w)
  unfolding staying
  next-Sinks (State.bob_accordant_lock_final l r b) q w (of_peer m) =
      unmoved-Sinks (State.bob_accordant_lock_final l r b) _ w
        (bob_accordant_lock_final-unmoved env source l r b m w)
  next-Sinks (State.bob_accordant_lock_final l r b) q w (of_confs c) =
      Pays-Sinks (State.bob_accordant_lock_final l r b) w
        (next env (State.bob_accordant_lock_final l r b) source
          (sync_event (transaction_confirmations c)) w)
        ((bob_accordant_lock_final-Pays env source l r b _ c).at w refl)
  next-Sinks (State.alice_arbitrating_lock_final b i m) q w (of_peer p) =
      unmoved-Sinks (State.alice_arbitrating_lock_final b i m) _ w
        (alice_arbitrating_lock_final-unmoved env source b i m p w)
  next-Sinks (State.alice_arbitrating_lock_final b i m) q w (of_confs c) =
      Pays-Sinks (State.alice_arbitrating_lock_final b i m) w
        (next env (State.alice_arbitrating_lock_final b i m) source
          (sync_event (transaction_confirmations c)) w)
        ((alice_arbitrating_lock_final-Pays env source b i m _ c).at w refl)
  next-Sinks (State.alice_canceled b) q w (of_peer m) =
      unmoved-Sinks (State.alice_canceled b) _ w (alice_canceled-unmoved env source b m w)
  next-Sinks (State.alice_canceled b) q w (of_confs c) =
      Pays-Sinks (State.alice_canceled b) w
        (next env (State.alice_canceled b) source (sync_event (transaction_confirmations c)) w)
        ((alice_canceled-Pays env source b _ c).at w refl)
  next-Sinks (State.start_taker _) q w h = climbing-Sinks _ q w (λ r. refl) refl
  next-Sinks (State.start_maker _) q w h = climbing-Sinks _ q w (λ r. refl) refl
  next-Sinks (State.bob_init_maker _ _ _) q w h = climbing-Sinks _ q w (λ r. refl) refl
  next-Sinks (State.alice_init_maker _ _ _) q w h = climbing-Sinks _ q w (λ r. refl) refl
  next-Sinks (State.bob_init_taker _ _) q w h = climbing-Sinks _ q w (λ r. refl) refl
  next-Sinks (State.alice_init_taker _ _) q w h = climbing-Sinks _ q w (λ r. refl) refl
  next-Sinks (State.bob_taker_maker_commit _ _ _) q w h = climbing-Sinks _ q w (λ r. refl) refl
  next-Sinks (State.alice_taker_maker_commit _ _ _) q w h = climbing-Sinks _ q w (λ r. refl) refl
  next-Sinks (State.bob_reveal _ _ _) q w h = climbing-Sinks _ q w (λ r. refl) refl
  next-Sinks (State.bob_fee_estimated _ _ _ _) q w h = climbing-Sinks _ q w (λ r. refl) refl
  next-Sinks (State.bob_funded _ _ _) q w h = climbing-Sinks _ q w (λ r. refl) refl
  next-Sinks (State.bob_refund_procedure_signatures _ _ _ _) q w h =
      climbing-Sinks _ q w (λ r. refl) refl
  next-Sinks (State.bob_accordant_lock _ _ _ _) q w h = climbing-Sinks _ q w (λ r. refl) refl
  next-Sinks (State.bob_buy_final _) q w h = climbing-Sinks _ q w (λ r. refl) refl
  next-Sinks State.bob_buy_sweeping q w h = climbing-Sinks _ q w (λ r. refl) refl
  next-Sinks State.bob_canceled q w h = climbing-Sinks _ q w (λ r. refl) refl
  next-Sinks State.bob_cancel_final q w h = climbing-Sinks _ q w (λ r. refl) refl
  next-Sinks State.bob_abort_awaiting_bitcoin_sweep q w h = climbing-Sinks _ q w (λ r. refl) refl
  next-Sinks (State.alice_reveal _ _ _) q w h = climbing-Sinks _ q w (λ r. refl) refl
  next-Sinks (State.alice_core_arbitrating_setup _ _ _) q w h =
      climbing-Sinks _ q w (λ r. refl) refl
  next-Sinks (State.alice_accordant_lock _) q w h = climbing-Sinks _ q w (λ r. refl) refl
  next-Sinks State.alice_buy_procedure_signature q w h = climbing-Sinks _ q w (λ r. refl) refl
  next-Sinks (State.alice_refund _) q w h = climbing-Sinks _ q w (λ r. refl) refl
  next-Sinks State.alice_refund_sweeping q w h = climbing-Sinks _ q w (λ r. refl) refl
  next-Sinks (State.swap_end _) q w h = climbing-Sinks _ q w (λ r. refl) refl
