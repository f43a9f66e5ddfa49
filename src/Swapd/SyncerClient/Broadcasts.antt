-- ===== src/Swapd/SyncerClient/Broadcasts.antt =====
-- The broadcasts that `SyncerState` of src/swapd/syncer_client.rs keeps for a checkpoint.
use farcaster_node.Base.{
  ℕ, ◌≡◌, refl, ap, ◌∙◌, false, List, [], ◌∷◌, ◌++◌, arith, if_pos, Option, none, some, eq_dec,
  lookup, lookup-insert, lookup-remove, remove, insert, member, set_insert, set_remove, add32, ℕ_eq,
}
use farcaster_node.Bus.{Bytes}
use farcaster_node.Syncerd.Types.{Task, broadcast_task}
use farcaster_node.Swapd.SyncerClient.{
  SyncerState, new_taskid, new_task, broadcast, transaction_broadcasted, pending_tx, pending_from,
  list_of, pending_broadcast_txs,
}

module _ (decode : Bytes → Option Bytes) (id : ℕ) where
  set_remove-absent : (xs : List ℕ) → member id xs ≡ false → set_remove id xs ≡ xs
  unfolding set_remove member
  set_remove-absent [] h = refl
  set_remove-absent (x ∷ xs) h = ground (arith, set_remove-absent xs)

  pending-insert :
      (t : Task) (xs : List ℕ) (m : List (ℕ × Task))
      → member id xs ≡ false
      → pending_from decode xs (insert id t m) ≡ pending_from decode xs m
  unfolding pending_from member
  pending-insert t [] m h = refl
  pending-insert t (x ∷ xs) m h = ground (arith, pending-insert t xs m, lookup-insert x id t m)

  pending-remove :
      (xs : List ℕ) (m : List (ℕ × Task))
      → member id xs ≡ false
      → pending_from decode xs (remove id m) ≡ pending_from decode xs m
  unfolding pending_from member
  pending-remove [] m h = refl
  pending-remove (x ∷ xs) m h = ground (arith, pending-remove xs m, lookup-remove x id m)

  set_remove-set_insert :
      (xs : List ℕ) → member id xs ≡ false → set_remove id (set_insert id xs) ≡ xs
  unfolding set_remove set_insert
  set_remove-set_insert xs h =
      if_pos (eq_dec id id) refl (set_remove id (set_remove id xs)) _
      ∙ ap (set_remove id) (set_remove-absent xs h)
      ∙ set_remove-absent xs h

  pending-cons :
      (t : Task) (xs : List ℕ) (m : List (ℕ × Task))
      → member id xs ≡ false
      → pending_from decode (set_insert id xs) (insert id t m)
        ≡ pending_tx decode (some t) ++ pending_from decode xs m
  unfolding pending_from set_insert
  pending-cons t xs m h =
      ap (λ o. pending_tx decode o ++ pending_from decode (set_remove id xs) (insert id t m))
        (lookup-insert id id t m ∙ if_pos (eq_dec id id) refl (some t) (lookup id m))
      ∙ ap (λ l. pending_tx decode (some t) ++ pending_from decode l (insert id t m))
          (set_remove-absent xs h)
      ∙ ap (λ l. pending_tx decode (some t) ++ l) (pending-insert t xs m h)

-- If the next task id is not that of a pending broadcast (task ids wrap at 2^32), then broadcasting a
-- transaction adds exactly what it decodes to, if anything, to the pending ones, and its confirmation by the syncer, the event
-- with that id, leaves exactly those that were pending before.
pub pending-broadcast :
    (decode : Bytes → Option Bytes) (tx : Bytes) (s : SyncerState)
    → member (add32 s.tasks.counter 1) s.tasks.broadcasting_txs ≡ false
    → (pending_broadcast_txs decode (broadcast tx s).1
        ≡ list_of (decode tx) ++ pending_broadcast_txs decode s)
      × (pending_broadcast_txs decode
            (transaction_broadcasted (add32 s.tasks.counter 1) (broadcast tx s).1)
          ≡ pending_broadcast_txs decode s)
unfolding pending_broadcast_txs broadcast transaction_broadcasted new_task new_taskid pending_tx
pending-broadcast decode tx s h =
    let id = add32 s.tasks.counter 1 in
    let xs = s.tasks.broadcasting_txs in
    let m = s.tasks.tasks in
    let t : Task = broadcast_task (record { id = id; tx = tx; broadcast_after_height = none }) in
    (
      pending-cons decode id t xs m h,
      ap (λ l. pending_from decode l (remove id (insert id t m)))
            (set_remove-set_insert decode id xs h)
          ∙ pending-remove decode id xs (insert id t m) h
          ∙ pending-insert decode id t xs m h,
    )
