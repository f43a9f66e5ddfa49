-- ===== src/Syncerd/State/ChangeTransaction.antt =====
-- `change_transaction` of src/syncerd/syncer_state.rs: news of a transaction's confirmations.
use farcaster_node.Base.{
  ℕ, Bool, true, false, not, ◌||◌, Option, none, some, List, [], ◌∷◌, ◌++◌, if◌then◌else◌, leb,
  lookup, set_insert, set_remove, same, Eq, ℕ_discrete, ℕ_eq,
}
use farcaster_node.Base.Panics.{◌>>=◌}
use farcaster_node.Bus.{Bytes, ServiceId, Bytes_eq}
use farcaster_node.Syncerd.Types.{
  BridgeEvent, TransactionConfirmations, transaction_confirmations as confirmations_event,
  strict_encode_max_items,
}
use farcaster_node.Syncerd.Chunks.{chunks}
use farcaster_node.Syncerd.State.{SyncerState, WatchedTransaction, send_event, to, drop_lifetimes}

unfoldable pub Confirmations-discrete : Discrete (Option ℕ)
Confirmations-discrete = hlevel ℕ_discrete

instance abbrev pub Confirmations_eq : Eq (Option ℕ)
Confirmations_eq = record { eq_dec = Confirmations-discrete }

-- A transaction in no block has the block hash 0x00.
abbrev pub block_or_zero : Option Bytes → Bytes
block_or_zero none = 0 ∷ []
block_or_zero (some block_hash) = block_hash

abbrev pub is_some : Option ℕ → Bool
is_some none = false
is_some (some n) = true

-- `confirmations >= Some(bound)`, where `None` is below every `Some`.
abbrev pub reaches : Option ℕ → ℕ → Bool
reaches none bound = false
reaches (some n) bound = leb bound n

-- What is new about a watched transaction, with the event that it gives.
unfoldable pub update_confirmations :
    Option ServiceId
    → Bytes
    → Option ℕ
    → Bytes
    → WatchedTransaction
    → Option (TransactionConfirmations × List BridgeEvent)
update_confirmations source block confirmations tx watched =
    let old = watched.transaction_confirmations in
    let confs : TransactionConfirmations = record {
      id = watched.task.id;
      block = block;
      confirmations = confirmations;
      tx = chunks strict_encode_max_items tx;
    } in
    if not (same confirmations old.confirmations) || not (same block old.block)
    then (do source_id ← source; some (confs, to source_id (confirmations_event confs) ∷ []))
    else some (old, [])

-- A task that has reached its confirmation bound is dropped.
abbrev pub keep_unless :
    Bool → ℕ → WatchedTransaction → List (ℕ × WatchedTransaction) → List (ℕ × WatchedTransaction)
keep_unless true id w rest = rest
keep_unless false id w rest = (id, w) ∷ rest

unfoldable pub transaction_entries :
    List (ℕ × ServiceId)
    → Bytes
    → Bytes
    → Option ℕ
    → Bytes
    → List (ℕ × WatchedTransaction)
    → Option (List (ℕ × WatchedTransaction) × List BridgeEvent)
transaction_entries sources tx_id block confirmations tx [] = some ([], [])
transaction_entries sources tx_id block confirmations tx ((id, watched) ∷ rest) = do
  (entries, later) ← transaction_entries sources tx_id block confirmations tx rest
  if not (same tx_id watched.task.hash) then some ((id, watched) ∷ entries, later) else (do
    (confs, events) ← update_confirmations (lookup id sources) block confirmations tx watched
    some (
      keep_unless (reaches confirmations watched.task.confirmation_bound) id
          (record watched { transaction_confirmations = confs }) entries,
      events ++ later,
    ))

-- The ids of the transaction are seen or unseen, whether they are dropped or not.
unfoldable pub update_unseen : Bytes → Option ℕ → List (ℕ × WatchedTransaction) → List ℕ → List ℕ
update_unseen tx_id confirmations [] unseen = unseen
update_unseen tx_id confirmations ((id, watched) ∷ rest) unseen =
    update_unseen tx_id confirmations rest (
      if not (same tx_id watched.task.hash)
      then unseen
      else if is_some confirmations
      then set_remove id unseen
      else set_insert id unseen)

unfoldable pub change_transaction :
    Bytes → Option Bytes → Option ℕ → Bytes → SyncerState → Option SyncerState
unfolding update_unseen
change_transaction tx_id block_hash confirmations tx s =
    let t = drop_lifetimes s in
    do
      (entries, events) ←
          transaction_entries t.tasks_sources tx_id (block_or_zero block_hash) confirmations tx
            t.transactions
      some (
          send_event events (record t {
            transactions = entries;
            unseen_transactions =
                update_unseen tx_id confirmations t.transactions t.unseen_transactions;
          }))
