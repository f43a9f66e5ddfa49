-- ===== src/Syncerd/State/Total.antt =====
-- `SyncerState` (src/syncerd/syncer_state.rs) over any sequence of calls.
use native.Mathlib.Nat.{add-zero, zero-add}
use farcaster_node.Base.{
  ℕ, suc, ◌+◌, ◌<◌, ◌≡◌, refl, some, List, [], ◌∷◌, arith, inl, inr, lookup, contains_key, u32_mod,
  ℕ_eq, subst, Option-cases,
}
use farcaster_node.Base.Panics.{Yields, Yields-bind}
use farcaster_node.Bus.{Blockchain}
use farcaster_node.Syncerd.State.{SyncerState, AddressTransactions, new}
use farcaster_node.Syncerd.State.Watch.{
  address_subscribed as subscribed, unsubscribe_each, unsubscribe_addresses as unsubscribed,
}
use farcaster_node.Syncerd.State.Change.{
  change_height as height_changed, success_sweep as sweep_done, fail_sweep as sweep_failed,
  health_result as health_reported,
}
use farcaster_node.Syncerd.State.Owned.{
  Inv, new-Inv, watch_height-Inv, watch_address-Inv, watch_transaction-Inv, estimate_fee-Inv,
  sweep_address-Inv,
}
use farcaster_node.Syncerd.State.AbortOwned.{abort-Inv}
use farcaster_node.Syncerd.State.Sourced.{
  change_height_total, fee_estimated_total, sweep_ended_total,
}
use farcaster_node.Syncerd.State.SourcedEntries.{change_address_total, change_transaction_total}
use farcaster_node.Syncerd.State.Run.{
  Call, abort, watch_height, watch_address, address_subscribed, unsubscribe_addresses,
  watch_transaction, estimate_fee, sweep_address, change_height, change_address, change_transaction,
  success_sweep, fail_sweep, fee_estimated, health_result, step, run,
}

-- The ids that a call takes from the task counter.
abbrev pub ids_taken : Call → ℕ
ids_taken (watch_height _ _) = 1
ids_taken (watch_address _ _) = 1
ids_taken (watch_transaction _ _) = 1
ids_taken (estimate_fee _ _) = 1
ids_taken (sweep_address _ _) = 1
ids_taken _ = 0

abbrev pub all_ids_taken : List Call → ℕ
all_ids_taken [] = 0
all_ids_taken (c ∷ cs) = ids_taken c + all_ids_taken cs

contains_key-unsubscribe_each :
    (i : ℕ) (m : List (ℕ × AddressTransactions))
    → contains_key i (unsubscribe_each m) ≡ contains_key i m
unfolding unsubscribe_each contains_key
contains_key-unsubscribe_each i [] = refl
contains_key-unsubscribe_each i ((j, a) ∷ m) = ground (arith, contains_key-unsubscribe_each i m)

address_subscribed-Inv : (i n : ℕ) (s : SyncerState) → Inv n s → Inv n (subscribed i s)
unfolding subscribed
address_subscribed-Inv i n s v = elim (Option-cases (lookup i s.addresses)) [
  | inl e ↦ rw (e, subscribed) v
  | inr (a, e) ↦
      rw (e, subscribed) (record { sourced = v.sourced; fresh = v.fresh; counted = v.counted })
]

unsubscribe_addresses-Inv : (n : ℕ) (s : SyncerState) → Inv n s → Inv n (unsubscribed s)
unfolding unsubscribed
unsubscribe_addresses-Inv n s v = record {
  sourced = λ i. ground (arith, v.sourced i, contains_key-unsubscribe_each i s.addresses);
  fresh = v.fresh;
  counted = v.counted;
}

taken : (n : ℕ) (s : SyncerState) → Inv (suc n) s → Inv (1 + n) s
taken n s v = subst (λ k. Inv k s) (omega arith) v

-- The same, with the number of ids as it computes.
step_keeps :
    (c : Call) (n : ℕ) (s : SyncerState)
    → Inv n s
    → suc n < u32_mod
    → Yields (Inv (ids_taken c + n)) (step c s)
unfolding step sweep_done sweep_failed health_reported
step_keeps (watch_height task source) n s v h = taken n _ (watch_height-Inv n s v h source task)
step_keeps (watch_address task source) n s v h = taken n _ (watch_address-Inv n s v h source task)
step_keeps (watch_transaction task source) n s v h =
    taken n _ (watch_transaction-Inv n s v h source task)
step_keeps (estimate_fee task source) n s v h = taken n _ (estimate_fee-Inv n s v h source task)
step_keeps (sweep_address task source) n s v h = taken n _ (sweep_address-Inv n s v h source task)
step_keeps (abort target source respond) n s v h = rw zero-add (abort-Inv target source respond s v)
step_keeps (address_subscribed id) n s v h = rw zero-add (address_subscribed-Inv id n s v)
step_keeps unsubscribe_addresses n s v h = rw zero-add (unsubscribe_addresses-Inv n s v)
step_keeps (change_height height block) n s v h = rw zero-add (
    Yields-bind (Inv n) (λ r. Inv n r.1) (height_changed height block s) (λ r. some r.1)
      (change_height_total height block n s v) (λ r w. w))
step_keeps (change_address addendum txs) n s v h =
    rw zero-add (change_address_total addendum txs n s v)
step_keeps (change_transaction tx_id block confirmations tx) n s v h =
    rw zero-add (change_transaction_total tx_id block confirmations tx n s v)
step_keeps (success_sweep id txids) n s v h = rw zero-add (sweep_ended_total id _ n s v)
step_keeps (fail_sweep id) n s v h = rw zero-add (sweep_ended_total id _ n s v)
step_keeps (fee_estimated fees) n s v h = rw zero-add (fee_estimated_total fees n s v)
step_keeps (health_result id report source) n s v h =
    rw zero-add (record { sourced = v.sourced; fresh = v.fresh; counted = v.counted })

run_keeps :
    (cs : List Call) (n : ℕ) (s : SyncerState)
    → Inv n s
    → suc (n + all_ids_taken cs) < u32_mod
    → Yields (Inv (n + all_ids_taken cs)) (run cs s)
unfolding run
run_keeps [] n s v h = rw add-zero v
run_keeps (c ∷ cs) n s v h =
    Yields-bind (Inv (n + (ids_taken c + all_ids_taken cs))) (Inv (ids_taken c + n)) (step c s) _
      (step_keeps c n s v (omega arith))
      (λ t w.
        subst (λ k. Yields (Inv k) (run cs t)) (omega arith)
          (run_keeps cs (ids_taken c + n) t w (omega arith)))

-- From a new state, any calls that take fewer than 2^32 - 1 ids from the task counter return: no
-- unwrapped lookup of a task's source fails. In the resulting state each id stands for one task at
-- most, every task has a source, and the counter is the number of ids taken.
pub run_total :
    (b : Blockchain) (cs : List Call)
    → suc (all_ids_taken cs) < u32_mod
    → Yields (Inv (all_ids_taken cs)) (run cs (new b))
run_total b cs h =
    subst (λ k. Yields (Inv k) (run cs (new b))) (omega arith)
      (run_keeps cs 0 (new b) (new-Inv b) (omega arith))
