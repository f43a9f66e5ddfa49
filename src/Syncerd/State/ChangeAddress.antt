-- ===== src/Syncerd/State/ChangeAddress.antt =====
-- `change_address` of src/syncerd/syncer_state.rs: new transactions of a watched address.
use farcaster_node.Base.{
  ℕ, Bool, true, false, not, ◌&&◌, Option, some, List, [], ◌∷◌, ◌++◌, if◌then◌else◌, lookup,
  difference, same, Eq, ℕ_eq,
}
use farcaster_node.Base.Panics.{◌>>=◌}
use farcaster_node.Bus.{ServiceId}
use farcaster_node.Syncerd.Types.{
  AddressAddendum, BridgeEvent, WatchAddress, address_transaction, empty, strict_encode_max_items,
  BridgeEvent_eq, AddressAddendum_eq,
}
use farcaster_node.Syncerd.Chunks.{chunks}
use farcaster_node.Syncerd.State.{
  SyncerState, AddressTx, AddressTransactions, send_event, to, drop_lifetimes, AddressTx_eq,
}

unfoldable pub new_tx_events :
    Option ServiceId → WatchAddress → List AddressTx → Option (List BridgeEvent)
new_tx_events source task [] = some []
new_tx_events source task (new_tx ∷ txs) = do
  source_id ← source
  events ← new_tx_events source task txs
  some (
      to source_id (
        address_transaction (record {
          id = task.id;
          hash = new_tx.tx_id;
          amount = new_tx.amount;
          block = [];
          tx = chunks strict_encode_max_items new_tx.tx;
          incoming = new_tx.incoming;
        }))
      ∷ events)

abbrev pub is_empty : {A : Type 0} → List A → Bool
is_empty [] = true
is_empty (x ∷ xs) = false

-- One watched address: its new entry, and the events that it gives.
unfoldable pub change_entry :
    Option ServiceId
    → AddressAddendum
    → List AddressTx
    → AddressTransactions
    → Option (AddressTransactions × List BridgeEvent)
change_entry source addendum txs addr =
    let txs_diff = difference txs addr.known_txs in
    if not (same addr.task.addendum addendum)
    then some (addr, [])
    else if is_empty txs_diff && not addr.initial_check_done
    then (do
      source_id ← source
      some (record addr { initial_check_done = true }, to source_id (empty addr.task.id) ∷ []))
    else (do
      events ← new_tx_events source addr.task txs_diff
      some (record addr { known_txs = txs; initial_check_done = true }, events))

unfoldable pub change_entries :
    List (ℕ × ServiceId)
    → AddressAddendum
    → List AddressTx
    → List (ℕ × AddressTransactions)
    → Option (List (ℕ × AddressTransactions) × List BridgeEvent)
change_entries sources addendum txs [] = some ([], [])
change_entries sources addendum txs ((id, addr) ∷ rest) = do
  (new_addr, events) ← change_entry (lookup id sources) addendum txs addr
  (entries, later) ← change_entries sources addendum txs rest
  some ((id, new_addr) ∷ entries, events ++ later)

dedup_after : {A : Type 0} ⦃e : Eq A⦄ → A → List A → List A
dedup_after a [] = []
dedup_after a (x ∷ xs) = let rest = dedup_after x xs in if same a x then rest else x ∷ rest

-- `Vec::dedup`: of equal neighbours the first stays.
unfoldable pub dedup : {A : Type 0} ⦃e : Eq A⦄ → List A → List A
unfolding dedup_after
dedup [] = []
dedup (x ∷ xs) = x ∷ dedup_after x xs

unfoldable pub change_address : AddressAddendum → List AddressTx → SyncerState → Option SyncerState
change_address addendum txs s =
    let t = drop_lifetimes s in
    do
      (entries, events) ← change_entries t.tasks_sources addendum txs t.addresses
      some (send_event (dedup events) (record t { addresses = entries }))
