-- ===== src/Syncerd/State/SourcedEntries.antt =====
-- `change_address` and `change_transaction` of src/syncerd/syncer_state.rs and the
-- sources of the tasks that they have news for.
use farcaster_node.Base.{
  ℕ, ◌≤◌, ◌≡◌, refl, not, ◌&&◌, ◌||◌, Option, some, List, [], ◌∷◌, arith, inl, inr, Bool-cases,
  contains_key, same, difference, ℕ_eq,
}
use farcaster_node.Base.Panics.{Yields, Yields-bind}
use farcaster_node.Bus.{Bytes, ServiceId, Bytes_eq}
use farcaster_node.Syncerd.Types.{AddressAddendum, BridgeEvent, WatchAddress, AddressAddendum_eq}
use farcaster_node.Syncerd.State.{
  SyncerState, AddressTx, AddressTransactions, WatchedTransaction, drop_lifetimes, AddressTx_eq,
}
use farcaster_node.Syncerd.State.ChangeAddress.{
  new_tx_events, change_entry, change_entries, change_address, is_empty,
}
use farcaster_node.Syncerd.State.ChangeTransaction.{
  update_confirmations, transaction_entries, change_transaction, block_or_zero, Confirmations_eq,
}
use farcaster_node.Syncerd.State.Owned.{Inv, one_if, drop_lifetimes-Inv}
use farcaster_node.Syncerd.State.Sourced.{
  Any, Covered, head_source, tail_Covered, Covered-address, Covered-transaction,
}

new_tx_events_total :
    (a : ServiceId) (task : WatchAddress) (txs : List AddressTx)
    → Yields Any (new_tx_events (some a) task txs)
unfolding new_tx_events
new_tx_events_total a task [] = tt
new_tx_events_total a task (tx ∷ txs) =
    Yields-bind Any Any (new_tx_events (some a) task txs) _ (new_tx_events_total a task txs)
      (λ _ _. tt)

change_entry_total :
    (a : ServiceId) (addendum : AddressAddendum) (txs : List AddressTx) (addr : AddressTransactions)
    → Yields Any (change_entry (some a) addendum txs addr)
unfolding change_entry
change_entry_total a addendum txs addr =
    elim (Bool-cases (not (same addr.task.addendum addendum))) [
      | inl e ↦ rw e tt
      | inr e ↦
          elim (Bool-cases
            (is_empty (difference txs addr.known_txs) && not addr.initial_check_done)) [
              | inl f ↦ rw (e, f) tt
              | inr f ↦
                  rw (e, f)
                    (Yields-bind Any Any
                      (new_tx_events (some a) addr.task (difference txs addr.known_txs)) _
                      (new_tx_events_total a addr.task (difference txs addr.known_txs)) (λ _ _. tt))
            ]
    ]

abbrev SameKeys :
    List (ℕ × AddressTransactions) → List (ℕ × AddressTransactions) × List BridgeEvent → Type 0
SameKeys m r = (i : ℕ) → contains_key i r.0 ≡ contains_key i m

change_entries_total :
    (sources : List (ℕ × ServiceId)) (addendum : AddressAddendum) (txs : List AddressTx)
    (m : List (ℕ × AddressTransactions))
    → Covered m sources
    → Yields (SameKeys m) (change_entries sources addendum txs m)
unfolding change_entries contains_key
change_entries_total sources addendum txs [] c = λ i. refl
change_entries_total sources addendum txs ((id, addr) ∷ m) c =
    let (a, found) = head_source id addr m sources c in
    rw found (
      Yields-bind (SameKeys ((id, addr) ∷ m)) Any (change_entry (some a) addendum txs addr) _
        (change_entry_total a addendum txs addr)
        (λ e _.
          Yields-bind (SameKeys ((id, addr) ∷ m)) (SameKeys m)
            (change_entries sources addendum txs m) _
            (change_entries_total sources addendum txs m (tail_Covered id addr m sources c))
            (λ r k i. ground (arith, k i))))

-- `change_address` returns whenever the invariant holds, and keeps it.
pub change_address_total :
    (addendum : AddressAddendum) (txs : List AddressTx) (n : ℕ) (s : SyncerState)
    → Inv n s
    → Yields (Inv n) (change_address addendum txs s)
unfolding change_address
change_address_total addendum txs n s v =
    let t = drop_lifetimes s in
    let w = drop_lifetimes-Inv n s v in
    Yields-bind (Inv n) (SameKeys t.addresses)
      (change_entries t.tasks_sources addendum txs t.addresses) _
      (change_entries_total t.tasks_sources addendum txs t.addresses (Covered-address n t w))
      (λ r k. record {
        sourced = λ i. ground (arith, w.sourced i, k i);
        fresh = w.fresh;
        counted = w.counted;
      })

update_confirmations_total :
    (a : ServiceId) (block : Bytes) (confs : Option ℕ) (tx : Bytes) (watched : WatchedTransaction)
    → Yields Any (update_confirmations (some a) block confs tx watched)
unfolding update_confirmations
update_confirmations_total a block confs tx watched =
    let old = watched.transaction_confirmations in
    elim (Bool-cases (not (same confs old.confirmations) || not (same block old.block))) [
      | inl e ↦ rw e tt
      | inr e ↦ rw e tt
    ]

abbrev FewerKeys :
    List (ℕ × WatchedTransaction) → List (ℕ × WatchedTransaction) × List BridgeEvent → Type 0
FewerKeys m r = (i : ℕ) → one_if (contains_key i r.0) ≤ one_if (contains_key i m)

transaction_entries_total :
    (sources : List (ℕ × ServiceId)) (tx_id block : Bytes) (confs : Option ℕ) (tx : Bytes)
    (m : List (ℕ × WatchedTransaction))
    → Covered m sources
    → Yields (FewerKeys m) (transaction_entries sources tx_id block confs tx m)
unfolding transaction_entries contains_key
transaction_entries_total sources tx_id block confs tx [] c = λ i. omega arith
transaction_entries_total sources tx_id block confs tx ((id, w) ∷ m) c =
    let (a, found) = head_source id w m sources c in
    Yields-bind (FewerKeys ((id, w) ∷ m)) (FewerKeys m)
      (transaction_entries sources tx_id block confs tx m) _
      (transaction_entries_total sources tx_id block confs tx m (tail_Covered id w m sources c))
      (λ r k. elim (Bool-cases (not (same tx_id w.task.hash))) [
        | inl e ↦ rw e (λ i. ground (arith, k i))
        | inr e ↦
            rw (e, found)
              (Yields-bind (FewerKeys ((id, w) ∷ m)) Any
                (update_confirmations (some a) block confs tx w) _
                (update_confirmations_total a block confs tx w) (λ u _ i. ground (arith, k i)))
      ])

-- `change_transaction` returns whenever the invariant holds, and keeps it.
pub change_transaction_total :
    (tx_id : Bytes) (block_hash : Option Bytes) (confs : Option ℕ) (tx : Bytes) (n : ℕ)
    (s : SyncerState)
    → Inv n s
    → Yields (Inv n) (change_transaction tx_id block_hash confs tx s)
unfolding change_transaction
change_transaction_total tx_id block_hash confs tx n s v =
    let t = drop_lifetimes s in
    let w = drop_lifetimes-Inv n s v in
    Yields-bind (Inv n) (FewerKeys t.transactions)
      (transaction_entries t.tasks_sources tx_id (block_or_zero block_hash) confs tx t.transactions)
      _
      (transaction_entries_total t.tasks_sources tx_id (block_or_zero block_hash) confs tx
        t.transactions (Covered-transaction n t w))
      (λ r k. record {
        sourced = λ i. ground (arith, w.sourced i, k i);
        fresh = w.fresh;
        counted = w.counted;
      })
