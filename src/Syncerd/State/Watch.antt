-- ===== src/Syncerd/State/Watch.antt =====
-- Taking on a task: `watch_height`, `watch_address`, `watch_transaction`, `estimate_fee` and
-- `sweep_address` of src/syncerd/syncer_state.rs, and the subscriptions of addresses. A task whose
-- lifetime has expired only uses up an id.
use farcaster_node.Base.{
  false, none, some, ℕ, List, [], ◌∷◌, if◌then◌else◌, ◌==◌, lookup, insert, set_insert, not, ℕ_eq,
}
use farcaster_node.Bus.{ServiceId}
use farcaster_node.Syncerd.Types.{
  WatchHeight, WatchAddress, WatchTransaction, WatchEstimateFee, SweepAddress, height_changed,
  fee_estimation, AddressAddendum_eq,
}
use farcaster_node.Syncerd.State.{
  SyncerState, AddressTransactions, WatchedTransaction, send_event, to, increment, add_lifetime,
  insert_lifetime,
}

watch_height_added : WatchHeight → ServiceId → SyncerState → SyncerState
watch_height_added task source s =
    let t = record s {
      watch_height = insert s.task_count task s.watch_height;
      tasks_sources = insert s.task_count source s.tasks_sources;
    } in
    if not (s.block_height == 0)
    then send_event
        (to source (
            height_changed (record { id = task.id; block = s.block_hash; height = s.block_height }))
          ∷ [])
        t
    else t

unfoldable pub watch_height : WatchHeight → ServiceId → SyncerState → SyncerState
unfolding watch_height_added
watch_height task source s =
    let t = increment s in
    elim (add_lifetime task.lifetime t.task_count t) [
      | none ↦ t
      | some u ↦ watch_height_added task source u
    ]

abbrev pub unchecked_address : WatchAddress → AddressTransactions
unchecked_address task = record {
  task = task;
  known_txs = [];
  subscribed = false;
  initial_check_done = false;
}

unfoldable pub watch_address : WatchAddress → ServiceId → SyncerState → SyncerState
watch_address task source s =
    let t = increment s in
    elim (add_lifetime task.lifetime t.task_count t) [
      | none ↦ t
      | some u ↦ record u {
        tasks_sources = insert u.task_count source u.tasks_sources;
        addresses = insert u.task_count (unchecked_address task) u.addresses;
      }
    ]

unfoldable pub address_subscribed : ℕ → SyncerState → SyncerState
address_subscribed id s = elim (lookup id s.addresses) [
  | none ↦ s
  | some address ↦ record s {
    subscribed_addresses = set_insert address.task.addendum s.subscribed_addresses;
  }
]

unfoldable pub unsubscribe_each : List (ℕ × AddressTransactions) → List (ℕ × AddressTransactions)
unsubscribe_each [] = []
unsubscribe_each ((id, address) ∷ rest) =
    (id, record address { subscribed = false }) ∷ unsubscribe_each rest

unfoldable pub unsubscribe_addresses : SyncerState → SyncerState
unfolding unsubscribe_each
unsubscribe_addresses s = record s { addresses = unsubscribe_each s.addresses }

abbrev pub unseen_transaction : WatchTransaction → WatchedTransaction
unseen_transaction task = record {
  task = task;
  transaction_confirmations = record { id = task.id; block = []; confirmations = none; tx = [] };
}

unfoldable pub watch_transaction : WatchTransaction → ServiceId → SyncerState → SyncerState
watch_transaction task source s =
    let t = increment s in
    elim (add_lifetime task.lifetime t.task_count t) [
      | none ↦ t
      | some u ↦ record u {
        tasks_sources = insert u.task_count source u.tasks_sources;
        transactions = insert u.task_count (unseen_transaction task) u.transactions;
        unseen_transactions = set_insert u.task_count u.unseen_transactions;
      }
    ]

unfoldable pub estimate_fee : WatchEstimateFee → ServiceId → SyncerState → SyncerState
estimate_fee task source s =
    let t = increment s in
    let u = record t {
      watch_fee_estimation = insert t.task_count task t.watch_fee_estimation;
      tasks_sources = insert t.task_count source t.tasks_sources;
    } in
    elim s.fee_estimation [
      | none ↦ u
      | some fee_estimations ↦
          send_event (to source (fee_estimation task.id fee_estimations) ∷ []) u
    ]

unfoldable pub sweep_address : SweepAddress → ServiceId → SyncerState → SyncerState
sweep_address task source s =
    let t = increment s in
    record t {
      lifetimes = insert_lifetime task.lifetime t.task_count t.lifetimes;
      sweep_addresses = insert t.task_count task t.sweep_addresses;
      tasks_sources = insert t.task_count source t.tasks_sources;
    }
