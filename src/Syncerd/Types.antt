-- ===== src/Syncerd/Types.antt =====
-- src/syncerd/types.rs: the tasks that services give to a syncer and the events that it answers
-- with. A task id is the number in it. An error text is the value that
-- it is printed from.
use farcaster_node.Base.{ℕ, Bool, Option, List, ℕ_discrete, Eq}
use farcaster_node.Bus.{Bytes, ServiceId}

abbrev pub strict_encode_max_items : ℕ
strict_encode_max_items = 65534

pub record BtcAddressAddendum : Type 0 where
  pub from_height : ℕ
  pub address : Bytes

pub record XmrAddressAddendum : Type 0 where
  pub spend_key : Bytes
  pub view_key : Bytes
  pub from_height : ℕ

pub data AddressAddendum : Type 0 where
  monero_address : XmrAddressAddendum → AddressAddendum
  bitcoin_address : BtcAddressAddendum → AddressAddendum

pub record SweepMoneroAddress : Type 0 where
  pub source_spend_key : Bytes
  pub source_view_key : Bytes
  pub destination_address : Bytes
  pub minimum_balance : ℕ
  pub from_height : Option ℕ

pub record SweepBitcoinAddress : Type 0 where
  pub source_secret_key : Bytes
  pub source_address : Bytes
  pub destination_address : Bytes

pub data SweepAddressAddendum : Type 0 where
  sweep_monero : SweepMoneroAddress → SweepAddressAddendum
  sweep_bitcoin : SweepBitcoinAddress → SweepAddressAddendum

pub record SweepAddress : Type 0 where
  pub retry : Bool
  pub id : ℕ
  pub lifetime : ℕ
  pub addendum : SweepAddressAddendum

pub data TaskTarget : Type 0 where
  task_id : ℕ → TaskTarget
  all_tasks : TaskTarget

pub data TxFilter : Type 0 where
  incoming_txs outgoing_txs all_txs : TxFilter

pub record WatchHeight : Type 0 where
  pub id : ℕ
  pub lifetime : ℕ

pub record WatchAddress : Type 0 where
  pub id : ℕ
  pub lifetime : ℕ
  pub addendum : AddressAddendum
  pub include_tx : Bool
  pub filter : TxFilter

pub record WatchTransaction : Type 0 where
  pub id : ℕ
  pub lifetime : ℕ
  pub hash : Bytes
  pub confirmation_bound : ℕ

pub record BroadcastTransaction : Type 0 where
  pub id : ℕ
  pub tx : Bytes
  pub broadcast_after_height : Option ℕ

pub record WatchEstimateFee : Type 0 where
  pub id : ℕ
  pub lifetime : ℕ

pub record GetTx : Type 0 where
  pub id : ℕ
  pub hash : Bytes

-- `AddressSecretKey` of src/bus/types.rs: an address with what spends from it.
pub data AddressSecretKey : Type 0 where
  bitcoin_key monero_key : Bytes → Bytes → AddressSecretKey

pub record GetAddressBalance : Type 0 where
  pub id : ℕ
  pub address_secret_key : AddressSecretKey

-- The tasks of `Task` that swapd and farcasterd give.
pub data Task : Type 0 where
  abort_task : TaskTarget → Bool → Task
  watch_height_task : WatchHeight → Task
  watch_address_task : WatchAddress → Task
  watch_transaction_task : WatchTransaction → Task
  broadcast_task : BroadcastTransaction → Task
  sweep_address_task : SweepAddress → Task
  get_tx_task : GetTx → Task
  watch_estimate_fee_task : WatchEstimateFee → Task
  get_address_balance_task : GetAddressBalance → Task
  health_check_task : ℕ → Task

pub record HeightChanged : Type 0 where
  pub id : ℕ
  pub block : Bytes
  pub height : ℕ

pub record AddressTransaction : Type 0 where
  pub id : ℕ
  pub hash : Bytes
  pub amount : ℕ
  pub block : Bytes
  pub tx : List Bytes
  pub incoming : Bool

pub record TransactionConfirmations : Type 0 where
  pub id : ℕ
  pub block : Bytes
  pub confirmations : Option ℕ
  pub tx : List Bytes

pub data ErrorText : Type 0 where
  abort_failed : ServiceId → ErrorText
  sweep_failed : ErrorText
  other_error : Bytes → ErrorText

pub data FeeEstimations : Type 0 where
  bitcoin_fee_estimation : ℕ → ℕ → FeeEstimations

pub data Health : Type 0 where
  healthy : Health
  faulty_electrum faulty_monero_daemon faulty_monero_rpc_wallet : Bytes → Health
  config_unavailable : Bytes → Health

-- The events of `Event` that `SyncerState` sends and that the swap daemon reads.
pub data Event : Type 0 where
  height_changed : HeightChanged → Event
  address_transaction : AddressTransaction → Event
  transaction_confirmations : TransactionConfirmations → Event
  transaction_broadcasted : ℕ → Bytes → Option ErrorText → Event
  sweep_success : ℕ → List Bytes → Event
  task_aborted : List ℕ → Option ErrorText → Event
  transaction_retrieved : ℕ → Option Bytes → Event
  fee_estimation : ℕ → FeeEstimations → Event
  empty : ℕ → Event
  health_result : ℕ → Health → Event
  address_balance : ℕ → Bytes → ℕ → Option ErrorText → Event

-- An event with the service that it is for: `BridgeEvent` of src/bus/sync.rs.
pub record BridgeEvent : Type 0 where
  pub event : Event
  pub source : ServiceId

unfoldable pub AddressAddendum-discrete : Discrete AddressAddendum
AddressAddendum-discrete = hlevel ℕ_discrete

unfoldable pub FeeEstimations-discrete : Discrete FeeEstimations
FeeEstimations-discrete = hlevel ℕ_discrete

unfoldable pub BridgeEvent-discrete : Discrete BridgeEvent
BridgeEvent-discrete = hlevel ℕ_discrete

instance abbrev pub BridgeEvent_eq : Eq BridgeEvent
BridgeEvent_eq = record { eq_dec = BridgeEvent-discrete }

instance abbrev pub FeeEstimations_eq : Eq FeeEstimations
FeeEstimations_eq = record { eq_dec = FeeEstimations-discrete }

instance abbrev pub AddressAddendum_eq : Eq AddressAddendum
AddressAddendum_eq = record { eq_dec = AddressAddendum-discrete }
