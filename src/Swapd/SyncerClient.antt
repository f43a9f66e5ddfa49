-- ===== src/Swapd/SyncerClient.antt =====
-- `SyncerTasks` and `SyncerState` of src/swapd/syncer_client.rs: the tasks that a swap has given to
-- its two syncers. An operation that makes a task returns it with the new state. Log lines and
-- `swap_id`, which only they use here, are left out.
pub mod Broadcasts
mod Examples
use farcaster_node.Base.{
  ℕ, ◌+◌, ◌-◌, ◌%◌, Bool, true, false, not, ◌&&◌, ◌||◌, Option, none, some, List, [], ◌∷◌, ◌++◌,
  if◌then◌else◌, ltb, leb, add32, u64_mod, lookup, remove, insert, contains_key, set_insert,
  set_remove, same, Eq, ℕ_eq, ◌-◌,
}
use farcaster_node.Bus.{Bytes, Blockchain, bitcoin, monero, Network, ServiceId}
use farcaster_node.Syncerd.Types.{
  Task, SweepAddress, XmrAddressAddendum, SweepMoneroAddress, SweepBitcoinAddress, sweep_monero,
  sweep_bitcoin, abort_task as abort_of, watch_height_task, watch_address_task,
  watch_transaction_task, broadcast_task, sweep_address_task, get_tx_task, watch_estimate_fee_task,
  task_id, monero_address, bitcoin_address, incoming_txs, outgoing_txs, Event,
}

pub data TxLabel : Type 0 where
  funding lock buy cancel refund punish acc_lock : TxLabel

unfoldable pub TxLabel-discrete : Discrete TxLabel
TxLabel-discrete = hlevel

instance abbrev pub TxLabel_eq : Eq TxLabel
TxLabel_eq = record { eq_dec = TxLabel-discrete }

pub record SyncerTasks : Type 0 where
  pub counter : ℕ
  pub watched_txs : List (ℕ × TxLabel)
  pub final_txs : List (TxLabel × Bool)
  pub watched_addrs : List (ℕ × TxLabel)
  pub retrieving_txs : List (ℕ × (TxLabel × Task))
  pub broadcasting_txs : List ℕ
  pub sweeping_addr : Option ℕ
  pub txids : List (TxLabel × Bytes)
  pub tasks : List (ℕ × Task)

pub record SyncerState : Type 0 where
  pub tasks : SyncerTasks
  pub bitcoin_height : ℕ
  pub monero_height : ℕ
  pub confirmation_bound : ℕ
  pub lock_tx_confs : Option Event
  pub cancel_tx_confs : Option Event
  pub buy_tx_confs : Option Event
  pub network : Network
  pub bitcoin_syncer : ServiceId
  pub monero_syncer : ServiceId
  pub xmr_addr_addendum : Option XmrAddressAddendum
  pub confirmations : List (TxLabel × Option ℕ)
  pub awaiting_funding : Bool

unfoldable pub new_taskid : SyncerTasks → ℕ × SyncerTasks
new_taskid t = let counter = add32 t.counter 1 in (counter, record t { counter = counter })

unfoldable pub height : SyncerState → Blockchain → ℕ
height s bitcoin = s.bitcoin_height
height s monero = s.monero_height

unfoldable pub task_lifetime : SyncerState → Blockchain → ℕ
unfolding height
task_lifetime s blockchain =
    if ltb 0 (height s blockchain) then (height s blockchain + 500) % u64_mod else u64_mod - 1

unfoldable pub from_height : SyncerState → Blockchain → ℕ → ℕ
unfolding height
from_height s blockchain delta =
    let h = height s blockchain in h - (if ltb delta h then delta else h)

raise_to : ℕ → ℕ → ℕ
raise_to new_height old = if ltb old new_height then new_height else old

unfoldable pub handle_height_change : ℕ → Blockchain → SyncerState → SyncerState
unfolding raise_to
handle_height_change h bitcoin s = record s { bitcoin_height = raise_to h s.bitcoin_height }
handle_height_change h monero s = record s { monero_height = raise_to h s.monero_height }

unfoldable pub abort_task : ℕ → Task
abort_task id = abort_of (task_id id) false

-- Makes a task with a new id: what is filed under the id beside the task is up to `file`.
unfoldable pub new_task :
    (ℕ → Task) → (ℕ → SyncerTasks → SyncerTasks) → SyncerState → Task × SyncerState
unfolding new_taskid
new_task make file s =
    let (id, t) = new_taskid s.tasks in
    let filed = file id t in
    (make id, record s { tasks = record filed { tasks = insert id (make id) filed.tasks } })

unfoldable pub estimate_fee_btc : SyncerState → Task × SyncerState
unfolding new_task task_lifetime
estimate_fee_btc s =
    new_task
      (λ id. watch_estimate_fee_task (record { id = id; lifetime = task_lifetime s bitcoin }))
      (λ id t. t) s

unfoldable pub watch_tx_btc : Bytes → TxLabel → SyncerState → Task × SyncerState
unfolding new_task task_lifetime
watch_tx_btc txid label s =
    new_task
      (λ id. watch_transaction_task (record {
        id = id;
        lifetime = task_lifetime s bitcoin;
        hash = txid;
        confirmation_bound = s.confirmation_bound;
      }))
      (λ id t. record t {
        watched_txs = insert id label t.watched_txs;
        txids = insert label txid t.txids;
      })
      s

unfoldable pub watch_tx_xmr : Bytes → TxLabel → SyncerState → Task × SyncerState
unfolding new_task task_lifetime
watch_tx_xmr hash label s =
    new_task
      (λ id. watch_transaction_task (record {
        id = id;
        lifetime = task_lifetime s monero;
        hash = hash;
        confirmation_bound = s.confirmation_bound;
      }))
      (λ id t. record t { watched_txs = insert id label t.watched_txs }) s

unfoldable pub retrieve_tx_btc : Bytes → TxLabel → SyncerState → Task × SyncerState
unfolding new_task
retrieve_tx_btc txid label s =
    new_task (λ id. get_tx_task (record { id = id; hash = txid }))
      (λ id t. record t {
        retrieving_txs =
            insert id (label, get_tx_task (record { id = id; hash = txid })) t.retrieving_txs;
      })
      s

unfoldable pub watch_addr_btc : Bytes → TxLabel → SyncerState → Task × SyncerState
unfolding new_task task_lifetime from_height
watch_addr_btc address label s =
    new_task
      (λ id. watch_address_task (record {
        id = id;
        lifetime = task_lifetime s bitcoin;
        addendum =
            bitcoin_address (record { from_height = from_height s bitcoin 6; address = address });
        include_tx = true;
        filter = if same cancel label then outgoing_txs else incoming_txs;
      }))
      (λ id t. record t { watched_addrs = insert id label t.watched_addrs }) s

any_label : TxLabel → List (ℕ × TxLabel) → Bool
any_label label [] = false
any_label label ((_, l) ∷ m) = same l label || any_label label m

unfoldable pub is_watched_addr : TxLabel → SyncerState → Bool
unfolding any_label
is_watched_addr label s = any_label label s.tasks.watched_addrs

or_recent : SyncerState → Option ℕ → ℕ
unfolding from_height
or_recent s (some h) = h
or_recent s none = from_height s monero 20

unfoldable pub watch_addr_xmr :
    Bytes → Bytes → TxLabel → Option ℕ → SyncerState → Task × SyncerState
unfolding new_task task_lifetime or_recent
watch_addr_xmr spend view label from s =
    let addendum : XmrAddressAddendum = record {
      spend_key = spend;
      view_key = view;
      from_height = or_recent s from;
    } in
    new_task
      (λ id. watch_address_task (record {
        id = id;
        lifetime = task_lifetime s monero;
        addendum = monero_address addendum;
        include_tx = false;
        filter = incoming_txs;
      }))
      (λ id t. record t { watched_addrs = insert id label t.watched_addrs })
      (record s { xmr_addr_addendum = some addendum })

unfoldable pub height_task : Blockchain → SyncerState → Task × SyncerState
unfolding new_task task_lifetime
height_task blockchain s =
    new_task (λ id. watch_height_task (record { id = id; lifetime = task_lifetime s blockchain }))
      (λ id t. t) s

unfoldable pub sweep_btc : SweepBitcoinAddress → Bool → SyncerState → SweepAddress × SyncerState
unfolding new_taskid task_lifetime
sweep_btc addendum retry s =
    let (id, t) = new_taskid s.tasks in
    let sweep : SweepAddress = record {
      retry = retry;
      id = id;
      lifetime = task_lifetime s bitcoin;
      addendum = sweep_bitcoin addendum;
    } in
    (
      sweep,
      record s {
        tasks = record t {
          sweeping_addr = some id;
          tasks = insert id (sweep_address_task sweep) t.tasks;
        };
      },
    )

unfoldable pub sweep_xmr : SweepMoneroAddress → Bool → SyncerState → SweepAddress × SyncerState
unfolding new_taskid task_lifetime
sweep_xmr addendum retry s =
    let (id, t) = new_taskid s.tasks in
    let sweep : SweepAddress = record {
      retry = retry;
      id = id;
      lifetime = task_lifetime s monero;
      addendum = sweep_monero addendum;
    } in
    (
      sweep,
      record s {
        tasks = record t {
          sweeping_addr = some id;
          tasks = insert id (sweep_address_task sweep) t.tasks;
        };
      },
    )

unfoldable pub broadcast : Bytes → SyncerState → Task × SyncerState
unfolding new_task
broadcast tx s =
    new_task (λ id. broadcast_task (record { id = id; tx = tx; broadcast_after_height = none }))
      (λ id t. record t { broadcasting_txs = set_insert id t.broadcasting_txs }) s

unfoldable pub transaction_broadcasted : ℕ → SyncerState → SyncerState
transaction_broadcasted id s = record s {
  tasks = record (s.tasks) {
    broadcasting_txs = set_remove id s.tasks.broadcasting_txs;
    tasks = remove id s.tasks.tasks;
  };
}

unfoldable pub list_of : Option Bytes → List Bytes
list_of none = []
list_of (some a) = a ∷ []

module _ (decode : Bytes → Option Bytes) where
  pending_tx : Option Task → List Bytes
  unfolding list_of
  pending_tx (some (broadcast_task b)) = list_of (decode b.tx)
  pending_tx _ = []

  pending_from : List ℕ → List (ℕ × Task) → List Bytes
  unfolding pending_tx
  pending_from [] tasks = []
  pending_from (id ∷ ids) tasks = pending_tx (lookup id tasks) ++ pending_from ids tasks

  -- The transactions that were given out for broadcast, those that `consensus_decode` reads.
  unfoldable pub pending_broadcast_txs : SyncerState → List Bytes
  unfolding pending_from
  pending_broadcast_txs s = pending_from s.tasks.broadcasting_txs s.tasks.tasks

unfoldable pub mark_final : TxLabel → Option ℕ → ℕ → SyncerTasks → SyncerTasks
mark_final label none thr t = t
mark_final label (some confs) thr t =
    if not (contains_key label t.final_txs) && leb thr confs
    then record t { final_txs = insert label true t.final_txs }
    else t

unfoldable pub handle_tx_confs : ℕ → Option ℕ → ℕ → SyncerState → SyncerState
unfolding mark_final
handle_tx_confs id confs finality_thr s = elim (lookup id s.tasks.watched_txs) [
  | none ↦ s
  | some label ↦ record s {
    tasks = mark_final label confs finality_thr s.tasks;
    confirmations = insert label confs s.confirmations;
  }
]

unfoldable pub get_confs : TxLabel → SyncerState → Option ℕ
get_confs label s = elim (lookup label s.confirmations) [ none ↦ none | some c ↦ c ]
