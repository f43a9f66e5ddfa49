-- ===== src/Syncerd/State.antt =====
-- `SyncerState` of src/syncerd/syncer_state.rs: the tasks that a syncer holds, by internal id. Hash
-- maps are association lists and hash sets lists, so the code's unspecified iteration order is here
-- that of the list. `tx_event` is the channel: all events sent, oldest first; sending is taken to
-- succeed. Functions that unwrap a lookup return `Option`, where `none` is the panic.
pub mod Watch
pub mod Abort
pub mod Change
pub mod ChangeAddress
pub mod ChangeTransaction
pub mod Run
pub mod Owned
pub mod AbortOwned
pub mod AbortForeign
pub mod Sourced
pub mod SourcedEntries
pub mod Total
use farcaster_node.Base.{
  ℕ, ◌+◌, Bool, true, false, Option, none, some, List, [], ◌∷◌, ◌++◌, if◌then◌else◌, ltb, add32,
  lookup, remove, insert, set_insert, set_remove, ℕ_discrete, Eq, ℕ_eq,
}
use farcaster_node.Bus.{Bytes, Blockchain, ServiceId}
use farcaster_node.Syncerd.Types.{
  WatchHeight, WatchAddress, WatchTransaction, WatchEstimateFee, SweepAddress, BroadcastTransaction,
  TransactionConfirmations, FeeEstimations, AddressAddendum, Event, BridgeEvent,
}

pub record WatchedTransaction : Type 0 where
  pub task : WatchTransaction
  pub transaction_confirmations : TransactionConfirmations

pub record AddressTx : Type 0 where
  pub amount : ℕ
  pub tx_id : Bytes
  pub tx : Bytes
  pub incoming : Bool

unfoldable pub AddressTx-discrete : Discrete AddressTx
AddressTx-discrete = hlevel ℕ_discrete

instance abbrev pub AddressTx_eq : Eq AddressTx
AddressTx_eq = record { eq_dec = AddressTx-discrete }

pub record AddressTransactions : Type 0 where
  pub task : WatchAddress
  pub known_txs : List AddressTx
  pub subscribed : Bool
  pub initial_check_done : Bool

-- Internal ids are the values of the task counter.
pub record SyncerState : Type 0 where
  pub blockchain : Blockchain
  pub block_height : ℕ
  pub block_hash : Bytes
  pub tasks_sources : List (ℕ × ServiceId)
  pub watch_height : List (ℕ × WatchHeight)
  pub watch_fee_estimation : List (ℕ × WatchEstimateFee)
  pub lifetimes : List (ℕ × List ℕ)
  pub addresses : List (ℕ × AddressTransactions)
  pub transactions : List (ℕ × WatchedTransaction)
  pub unseen_transactions : List ℕ
  pub sweep_addresses : List (ℕ × SweepAddress)
  pub tx_event : List BridgeEvent
  pub task_count : ℕ
  pub subscribed_addresses : List AddressAddendum
  pub fee_estimation : Option FeeEstimations
  pub pending_broadcasts : List (BroadcastTransaction × ServiceId)

unfoldable pub new : Blockchain → SyncerState
new blockchain = record {
  blockchain = blockchain;
  block_height = 0;
  block_hash = 0 ∷ [];
  tasks_sources = [];
  watch_height = [];
  watch_fee_estimation = [];
  lifetimes = [];
  addresses = [];
  transactions = [];
  unseen_transactions = [];
  sweep_addresses = [];
  tx_event = [];
  task_count = 0;
  subscribed_addresses = [];
  fee_estimation = none;
  pending_broadcasts = [];
}

abbrev pub send_event : List BridgeEvent → SyncerState → SyncerState
send_event events s = record s { tx_event = s.tx_event ++ events }

abbrev pub to : ServiceId → Event → BridgeEvent
to source event = record { event = event; source = source }

-- `TaskCounter::increment`, on a `u32`.
abbrev pub increment : SyncerState → SyncerState
increment s = record s { task_count = add32 s.task_count 1 }

-- Puts an id under a lifetime, in the set that stands there or in a new one.
unfoldable pub insert_lifetime : ℕ → ℕ → List (ℕ × List ℕ) → List (ℕ × List ℕ)
insert_lifetime lifetime id m = elim (lookup lifetime m) [
  | some ids ↦ insert lifetime (set_insert id ids) m
  | none ↦ insert lifetime (id ∷ []) m
]

-- `none` is the error that the lifetime has expired.
unfoldable pub add_lifetime : ℕ → ℕ → SyncerState → Option SyncerState
add_lifetime lifetime id s =
    if ltb lifetime s.block_height
    then none
    else some (record s { lifetimes = insert_lifetime lifetime id s.lifetimes })

abbrev or_remove_key : ℕ → List ℕ → List (ℕ × List ℕ) → List (ℕ × List ℕ)
or_remove_key lifetime [] m = remove lifetime m
or_remove_key lifetime (i ∷ ids) m = insert lifetime (i ∷ ids) m

-- Takes an id from under a lifetime, with the lifetime itself if no id is left under it.
unfoldable pub remove_lifetime_id : ℕ → ℕ → List (ℕ × List ℕ) → List (ℕ × List ℕ)
remove_lifetime_id lifetime id m = elim (lookup lifetime m) [
  | some ids ↦ or_remove_key lifetime (set_remove id ids) m
  | none ↦ m
]

drop_task : ℕ → SyncerState → SyncerState
drop_task task s = record s {
  addresses = remove task s.addresses;
  transactions = remove task s.transactions;
  unseen_transactions = set_remove task s.unseen_transactions;
  watch_height = remove task s.watch_height;
  watch_fee_estimation = remove task s.watch_fee_estimation;
  sweep_addresses = remove task s.sweep_addresses;
  tasks_sources = remove task s.tasks_sources;
}

drop_each : List ℕ → SyncerState → SyncerState
drop_each [] s = s
drop_each (task ∷ tasks) s = drop_each tasks (drop_task task s)

drop_lifetime : ℕ → SyncerState → SyncerState
drop_lifetime lifetime s = elim (lookup lifetime s.lifetimes) [
  | some tasks ↦ drop_each tasks (record s { lifetimes = remove lifetime s.lifetimes })
  | none ↦ s
]

drop_expired : List (ℕ × List ℕ) → SyncerState → SyncerState
drop_expired [] s = s
drop_expired ((lifetime, _) ∷ rest) s =
    drop_expired rest (if ltb lifetime s.block_height then drop_lifetime lifetime s else s)

pub drop_lifetimes : SyncerState → SyncerState
drop_lifetimes s = drop_expired s.lifetimes s

unfoldable pub remove_transaction : ℕ → SyncerState → SyncerState
remove_transaction id s = record s {
  lifetimes = elim (lookup id s.transactions) [
    | some watched ↦ remove_lifetime_id watched.task.lifetime id s.lifetimes
    | none ↦ s.lifetimes
  ];
  transactions = remove id s.transactions;
  unseen_transactions = set_remove id s.unseen_transactions;
  tasks_sources = remove id s.tasks_sources;
}

unfoldable pub remove_address : ℕ → SyncerState → SyncerState
remove_address id s = record s {
  lifetimes = elim (lookup id s.addresses) [
    | some watched ↦ remove_lifetime_id watched.task.lifetime id s.lifetimes
    | none ↦ s.lifetimes
  ];
  addresses = remove id s.addresses;
  tasks_sources = remove id s.tasks_sources;
}

unfoldable pub remove_height : ℕ → SyncerState → SyncerState
remove_height id s = record s {
  lifetimes = elim (lookup id s.watch_height) [
    | some task ↦ remove_lifetime_id task.lifetime id s.lifetimes
    | none ↦ s.lifetimes
  ];
  watch_height = remove id s.watch_height;
  tasks_sources = remove id s.tasks_sources;
}

unfoldable pub remove_sweep_address : ℕ → SyncerState → SyncerState
remove_sweep_address id s = record s {
  lifetimes = elim (lookup id s.sweep_addresses) [
    | some task ↦ remove_lifetime_id task.lifetime id s.lifetimes
    | none ↦ s.lifetimes
  ];
  sweep_addresses = remove id s.sweep_addresses;
  tasks_sources = remove id s.tasks_sources;
}
