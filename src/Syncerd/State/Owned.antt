-- ===== src/Syncerd/State/Owned.antt =====
-- The invariant of `SyncerState` (src/syncerd/syncer_state.rs) on internal ids and the services that
-- asked for their tasks.
use farcaster_node.Base.{
  ℕ, suc, ◌+◌, ◌≤◌, ◌<◌, ◌≡◌, Bool, true, false, List, [], ◌∷◌, arith, inl, inr, u32_mod,
  Bool-cases, Option-cases, if◌then◌else◌, ltb, contains_key, contains_key-remove,
  contains_key-insert, lookup, ℕ_eq,
}
use farcaster_node.Bus.{ServiceId, Blockchain}
use farcaster_node.Syncerd.Types.{
  WatchHeight, WatchAddress, WatchTransaction, WatchEstimateFee, SweepAddress,
}
use farcaster_node.Syncerd.State.{
  SyncerState, new, add_lifetime, drop_task, drop_each, drop_lifetime, drop_expired, drop_lifetimes,
}
use farcaster_node.Syncerd.State.Watch.{
  watch_height, watch_address, watch_transaction, estimate_fee, sweep_address, unchecked_address,
  unseen_transaction,
}

abbrev pub one_if : Bool → ℕ
one_if true = 1
one_if false = 0

-- How many tasks an internal id stands for.
abbrev pub copies : ℕ → SyncerState → ℕ
copies i s =
    one_if (contains_key i s.addresses)
    + one_if (contains_key i s.transactions)
    + one_if (contains_key i s.watch_height)
    + one_if (contains_key i s.watch_fee_estimation)
    + one_if (contains_key i s.sweep_addresses)

-- After `n` tasks.
pub record Inv (n : ℕ) (s : SyncerState) : Type 0 where
  pub sourced : (i : ℕ) → copies i s ≤ one_if (contains_key i s.tasks_sources)
  pub fresh : (i : ℕ) → contains_key i s.tasks_sources ≡ true → i ≤ n
  pub counted : s.task_count ≡ n

pub new-Inv : (b : Blockchain) → Inv 0 (new b)
unfolding new contains_key
new-Inv b = record { sourced = λ i. omega arith; fresh = λ i h. cc; counted = omega arith }

module _ (n : ℕ) (s : SyncerState) (v : Inv n s) where
  drop_task-Inv : (task : ℕ) → Inv n (drop_task task s)
  unfolding drop_task
  drop_task-Inv task = record {
    sourced = λ i. ground (
      arith,
      v.sourced i,
      contains_key-remove i task s.addresses,
      contains_key-remove i task s.transactions,
      contains_key-remove i task s.watch_height,
      contains_key-remove i task s.watch_fee_estimation,
      contains_key-remove i task s.sweep_addresses,
      contains_key-remove i task s.tasks_sources,
    );
    fresh = λ i h. ground (arith, v.fresh i, contains_key-remove i task s.tasks_sources);
    counted = v.counted;
  }

drop_each-Inv : (tasks : List ℕ) (n : ℕ) (s : SyncerState) → Inv n s → Inv n (drop_each tasks s)
unfolding drop_each
drop_each-Inv [] n s v = v
drop_each-Inv (task ∷ tasks) n s v =
    drop_each-Inv tasks n (drop_task task s) (drop_task-Inv n s v task)

drop_lifetime-Inv :
    (lifetime : ℕ) (n : ℕ) (s : SyncerState) → Inv n s → Inv n (drop_lifetime lifetime s)
unfolding drop_lifetime
drop_lifetime-Inv lifetime n s v = elim (Option-cases (lookup lifetime s.lifetimes)) [
  | inl e ↦ rw (e, drop_lifetime) v
  | inr (tasks, e) ↦
      rw (e, drop_lifetime)
        (drop_each-Inv tasks n _
          (record { sourced = v.sourced; fresh = v.fresh; counted = v.counted }))
]

drop_expired-Inv :
    (m : List (ℕ × List ℕ)) (n : ℕ) (s : SyncerState) → Inv n s → Inv n (drop_expired m s)
unfolding drop_expired
drop_expired-Inv [] n s v = v
drop_expired-Inv ((lifetime, ids) ∷ rest) n s v = drop_expired-Inv rest n _ (one lifetime)
  where
    one : (l : ℕ) → Inv n (if ltb l s.block_height then drop_lifetime l s else s)
    one l = elim (Bool-cases (ltb l s.block_height)) [
      | inl e ↦ rw e (drop_lifetime-Inv l n s v)
      | inr e ↦ rw e v
    ]

pub drop_lifetimes-Inv : (n : ℕ) (s : SyncerState) → Inv n s → Inv n (drop_lifetimes s)
unfolding drop_lifetimes
drop_lifetimes-Inv n s v = drop_expired-Inv s.lifetimes n s v

-- Taking on a task: the new id is above all that are in use.
module _ (n : ℕ) (s : SyncerState) (v : Inv n s) (room : suc n < u32_mod) (source : ServiceId) where
  pub watch_height-Inv : (task : WatchHeight) → Inv (suc n) (watch_height task source s)
  unfolding watch_height add_lifetime
  watch_height-Inv task = record {
    sourced = λ i. ground (
      arith,
      v.sourced i,
      v.fresh i,
      contains_key-insert i (suc s.task_count) task s.watch_height,
      contains_key-insert i (suc s.task_count) source s.tasks_sources,
    );
    fresh = λ i h.
        ground (arith, v.fresh i, contains_key-insert i (suc s.task_count) source s.tasks_sources);
    counted = ground arith;
  }

  pub watch_address-Inv : (task : WatchAddress) → Inv (suc n) (watch_address task source s)
  unfolding watch_address add_lifetime
  watch_address-Inv task = record {
    sourced = λ i. ground (
      arith,
      v.sourced i,
      v.fresh i,
      contains_key-insert i (suc s.task_count) (unchecked_address task) s.addresses,
      contains_key-insert i (suc s.task_count) source s.tasks_sources,
    );
    fresh = λ i h.
        ground (arith, v.fresh i, contains_key-insert i (suc s.task_count) source s.tasks_sources);
    counted = ground arith;
  }

  pub watch_transaction-Inv :
      (task : WatchTransaction) → Inv (suc n) (watch_transaction task source s)
  unfolding watch_transaction add_lifetime
  watch_transaction-Inv task = record {
    sourced = λ i. ground (
      arith,
      v.sourced i,
      v.fresh i,
      contains_key-insert i (suc s.task_count) (unseen_transaction task) s.transactions,
      contains_key-insert i (suc s.task_count) source s.tasks_sources,
    );
    fresh = λ i h.
        ground (arith, v.fresh i, contains_key-insert i (suc s.task_count) source s.tasks_sources);
    counted = ground arith;
  }

  pub estimate_fee-Inv : (task : WatchEstimateFee) → Inv (suc n) (estimate_fee task source s)
  unfolding estimate_fee
  estimate_fee-Inv task = record {
    sourced = λ i. ground (
      arith,
      v.sourced i,
      v.fresh i,
      contains_key-insert i (suc s.task_count) task s.watch_fee_estimation,
      contains_key-insert i (suc s.task_count) source s.tasks_sources,
    );
    fresh = λ i h.
        ground (arith, v.fresh i, contains_key-insert i (suc s.task_count) source s.tasks_sources);
    counted = ground arith;
  }

  pub sweep_address-Inv : (task : SweepAddress) → Inv (suc n) (sweep_address task source s)
  unfolding sweep_address
  sweep_address-Inv task = record {
    sourced = λ i. ground (
      arith,
      v.sourced i,
      v.fresh i,
      contains_key-insert i (suc s.task_count) task s.sweep_addresses,
      contains_key-insert i (suc s.task_count) source s.tasks_sources,
    );
    fresh = λ i h.
        ground (arith, v.fresh i, contains_key-insert i (suc s.task_count) source s.tasks_sources);
    counted = ground arith;
  }
