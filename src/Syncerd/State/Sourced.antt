-- ===== src/Syncerd/State/Sourced.antt =====
-- The lookups that src/syncerd/syncer_state.rs unwraps: the sources of the tasks that a change to the
-- chain has news for.
use farcaster_node.Base.{
  ℕ, ◌≡◌, true, not, ◌||◌, some, List, [], ◌∷◌, arith, inl, inr, Bool-cases, Option-cases, lookup,
  contains_key, contains_key-remove, lookup_of_contains_key, contains_key_of_lookup, same, ◌==◌,
  ℕ_eq,
}
use farcaster_node.Base.Panics.{Yields, Yields-bind}
use farcaster_node.Bus.{Bytes, ServiceId, Bytes_eq}
use farcaster_node.Syncerd.Types.{
  WatchHeight, WatchEstimateFee, FeeEstimations, BridgeEvent, Event, SweepAddress,
}
use farcaster_node.Syncerd.State.{SyncerState, send_event, drop_lifetimes, AddressTx_eq}
use farcaster_node.Syncerd.State.Change.{
  handle_change_height, height_events, change_height, fee_events, is_cached, fee_estimated,
  sweep_ended, finish_sweep,
}
use farcaster_node.Syncerd.State.Owned.{Inv, drop_lifetimes-Inv}

abbrev pub Any : {A : Type 0} → A → Type 0
Any a = Unit {0}

module _ {V : Type 0} where
  -- Every key of the first map is one of the second.
  abbrev pub Covered : List (ℕ × V) → List (ℕ × ServiceId) → Type 0
  Covered m sources = (i : ℕ) → contains_key i m ≡ true → contains_key i sources ≡ true

  pub head_source :
      (i : ℕ) (v : V) (m : List (ℕ × V)) (sources : List (ℕ × ServiceId))
      → Covered ((i, v) ∷ m) sources
      → (a : ServiceId) × (lookup i sources ≡ some a)
  unfolding contains_key
  head_source i v m sources c = lookup_of_contains_key i sources (c i (ground arith))

  pub tail_Covered :
      (i : ℕ) (v : V) (m : List (ℕ × V)) (sources : List (ℕ × ServiceId))
      → Covered ((i, v) ∷ m) sources
      → Covered m sources
  unfolding contains_key
  tail_Covered i v m sources c = λ j h. c j (ground arith)

height_events_total :
    (sources : List (ℕ × ServiceId)) (block : Bytes) (height : ℕ) (m : List (ℕ × WatchHeight))
    → Covered m sources
    → Yields Any (height_events sources block height m)
unfolding height_events
height_events_total sources block height [] c = tt
height_events_total sources block height ((i, task) ∷ m) c =
    let (a, found) = head_source i task m sources c in
    rw found (
      Yields-bind Any Any (height_events sources block height m) _
        (height_events_total sources block height m (tail_Covered i task m sources c)) (λ _ _. tt))

fee_events_total :
    (sources : List (ℕ × ServiceId)) (fees : FeeEstimations) (m : List (ℕ × WatchEstimateFee))
    → Covered m sources
    → Yields Any (fee_events sources fees m)
unfolding fee_events
fee_events_total sources fees [] c = tt
fee_events_total sources fees ((i, task) ∷ m) c =
    let (a, found) = head_source i task m sources c in
    rw found (
      Yields-bind Any Any (fee_events sources fees m) _
        (fee_events_total sources fees m (tail_Covered i task m sources c)) (λ _ _. tt))

Covered-height : (n : ℕ) (s : SyncerState) → Inv n s → Covered s.watch_height s.tasks_sources
Covered-height n s v = λ i h. ground (arith, v.sourced i)

Covered-fee : (n : ℕ) (s : SyncerState) → Inv n s → Covered s.watch_fee_estimation s.tasks_sources
Covered-fee n s v = λ i h. ground (arith, v.sourced i)

pub Covered-address : (n : ℕ) (s : SyncerState) → Inv n s → Covered s.addresses s.tasks_sources
Covered-address n s v = λ i h. ground (arith, v.sourced i)

pub Covered-transaction :
    (n : ℕ) (s : SyncerState) → Inv n s → Covered s.transactions s.tasks_sources
Covered-transaction n s v = λ i h. ground (arith, v.sourced i)

handle_change_height-Inv :
    (h : ℕ) (b : Bytes) (n : ℕ) (s : SyncerState) → Inv n s → Inv n (handle_change_height h b s)
unfolding handle_change_height
handle_change_height-Inv h b n s v = record {
  sourced = λ i. ground (arith, v.sourced i);
  fresh = λ i e. ground (arith, v.fresh i);
  counted = ground (arith, v.counted);
}

-- `change_height` returns whenever the invariant holds, and keeps it.
pub change_height_total :
    (h : ℕ) (b : Bytes) (n : ℕ) (s : SyncerState)
    → Inv n s
    → Yields (λ r. Inv n r.1) (change_height h b s)
unfolding change_height
change_height_total h b n s v =
    elim (Bool-cases (not (s.block_height == h) || not (same s.block_hash b))) [
      | inl e ↦ rw e (
          Yields-bind (λ r. Inv n r.1) Any
            (height_events t.tasks_sources b t.block_height t.watch_height) _
            (height_events_total t.tasks_sources b t.block_height t.watch_height
              (Covered-height n t w))
            (λ es _. record { sourced = w.sourced; fresh = w.fresh; counted = w.counted }))
      | inr e ↦ rw e v
    ]
  where
    t : SyncerState
    t = drop_lifetimes (handle_change_height h b s)

    w : Inv n t
    w = drop_lifetimes-Inv n _ (handle_change_height-Inv h b n s v)

-- `fee_estimated` returns whenever the invariant holds, and keeps it.
pub fee_estimated_total :
    (fees : FeeEstimations) (n : ℕ) (s : SyncerState)
    → Inv n s
    → Yields (Inv n) (fee_estimated fees s)
unfolding fee_estimated
fee_estimated_total fees n s v = elim (Bool-cases (is_cached fees s.fee_estimation)) [
  | inl e ↦ rw e (drop_lifetimes-Inv n s v)
  | inr e ↦ rw e (
      Yields-bind (Inv n) Any (fee_events s.tasks_sources fees s.watch_fee_estimation) _
        (fee_events_total s.tasks_sources fees s.watch_fee_estimation (Covered-fee n s v))
        (λ es _.
          drop_lifetimes-Inv n _
            (record { sourced = v.sourced; fresh = v.fresh; counted = v.counted })))
]

finish_sweep-Inv :
    (id : ℕ) (task : SweepAddress) (e : BridgeEvent) (n : ℕ) (s : SyncerState)
    → Inv n s
    → contains_key id s.sweep_addresses ≡ true
    → Inv n (finish_sweep id task (send_event (e ∷ []) s))
unfolding finish_sweep
finish_sweep-Inv id task e n s v h = record {
  sourced = λ j. ground (
    arith,
    v.sourced id,
    v.sourced j,
    contains_key-remove j id s.sweep_addresses,
    contains_key-remove j id s.tasks_sources,
  );
  fresh = λ j f. ground (arith, v.fresh j, contains_key-remove j id s.tasks_sources);
  counted = v.counted;
}

pub sweep_ended_total :
    (id : ℕ) (event : ℕ → Event) (n : ℕ) (s : SyncerState)
    → Inv n s
    → Yields (Inv n) (sweep_ended id event s)
unfolding sweep_ended
sweep_ended_total id event n s v = elim (Option-cases (lookup id s.sweep_addresses)) [
  | inl e ↦ rw (e, sweep_ended) v
  | inr (task, e) ↦
      let held = contains_key_of_lookup id s.sweep_addresses task e in
      let (a, found) =
        lookup_of_contains_key id s.tasks_sources (ground (arith, held, v.sourced id)) in
      rw (e, sweep_ended, found) (finish_sweep-Inv id task _ n s v held)
]
