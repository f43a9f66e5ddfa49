-- ===== src/Swapd/Messages.antt =====
-- What src/swapd sends and receives: the messages of src/bus/p2p.rs, src/bus/ctl.rs and
-- src/bus/sync.rs that a swap takes part in. The payloads that only the wallet reads (commitments,
-- reveals, signatures, keys) are the bytes that they serialise to, and a partially signed
-- transaction likewise.
use farcaster_node.Base.{ℕ, Bool, Option, List}
use farcaster_node.Bus.{Bytes, Blockchain, ServiceId}
use farcaster_node.Syncerd.Types.{Task, Event, SweepAddress, XmrAddressAddendum}
use farcaster_node.Swapd.TemporalSafety.{TemporalSafety}
use farcaster_node.Swapd.SyncerClient.{TxLabel}
use farcaster_node.Swapd.StateReport.{StateReport, Progress}

pub data SwapRole : Type 0 where
  bob alice : SwapRole

pub data Params : Type 0 where
  alice_params : Bytes → Params
  bob_params : Bytes → Params

pub data Outcome : Type 0 where
  success_swap failure_refund failure_punish failure_abort : Outcome

pub record CoreArbitratingSetup : Type 0 where
  pub lock : Bytes
  pub cancel : Bytes
  pub refund : Bytes
  pub signature : Bytes

pub record BuyProcedureSignature : Type 0 where
  pub buy : Bytes
  pub signature : Bytes

pub data PeerMsg : Type 0 where
  taker_commit : Bytes → PeerMsg
  maker_commit : Bytes → PeerMsg
  reveal : Bytes → PeerMsg
  core_arbitrating_setup : CoreArbitratingSetup → PeerMsg
  refund_procedure_signatures : Bytes → PeerMsg
  buy_procedure_signature : BuyProcedureSignature → PeerMsg
  deal_not_found : PeerMsg
  other_peer_msg : Bytes → PeerMsg

pub record InitSwap : Type 0 where
  pub peerd : ServiceId
  pub report_to : ServiceId
  pub swap_id : Bytes
  pub key_manager : Bytes
  pub target_bitcoin_address : Bytes
  pub target_monero_address : Bytes

pub record MoneroFundingInfo : Type 0 where
  pub swap_id : Bytes
  pub address : Bytes
  pub amount : ℕ

-- What reaches the state machine of a swap.
pub data Request : Type 0 where
  take_swap : InitSwap → Request
  make_swap : InitSwap → Bytes → Request
  abort_swap : Request
  p2p : PeerMsg → Request
  sync_event : Event → Request
  other_request : Request

-- The states of `SwapStateMachine` (src/swapd/swap_state.rs); a wallet is the bytes that it
-- serialises to.
pub data State : Type 0 where
  start_taker : SwapRole → State
  start_maker : SwapRole → State
  bob_init_maker : Params → Bytes → Bytes → State
  alice_init_maker : Params → Bytes → Bytes → State
  bob_init_taker : Params → Bytes → State
  alice_init_taker : Params → Bytes → State
  bob_taker_maker_commit : Params → Bytes → Bytes → State
  alice_taker_maker_commit : Params → Bytes → Bytes → State
  bob_reveal : Params → Params → Bytes → State
  bob_fee_estimated : Params → ℕ → Params → Bytes → State
  bob_funded : Params → Params → Bytes → State
  bob_refund_procedure_signatures : Params → Params → Bytes → BuyProcedureSignature → State
  bob_accordant_lock : Params → Params → Bytes → BuyProcedureSignature → State
  bob_accordant_lock_final : Params → Params → Bytes → State
  bob_buy_final : SweepAddress → State
  bob_buy_sweeping : State
  bob_canceled : State
  bob_cancel_final : State
  bob_abort_awaiting_bitcoin_sweep : State
  alice_reveal : Params → Params → Bytes → State
  alice_core_arbitrating_setup : Params → Params → Bytes → State
  alice_arbitrating_lock_final : Bytes → MoneroFundingInfo → ℕ → State
  alice_accordant_lock : Bytes → State
  alice_buy_procedure_signature : State
  alice_canceled : Bytes → State
  alice_refund : SweepAddress → State
  alice_refund_sweeping : State
  swap_end : Outcome → State

pub record Checkpoint : Type 0 where
  pub state : State
  pub pending_msg : Option PeerMsg
  pub enquirer : Option ServiceId
  pub xmr_addr_addendum : Option XmrAddressAddendum
  pub temporal_safety : TemporalSafety
  pub txs : List (TxLabel × Bytes)
  pub txids : List (TxLabel × Bytes)
  pub pending_broadcasts : List Bytes
  pub monero_address_creation_height : Option ℕ

pub data Message : Type 0 where
  task : Task → Message
  peer_msg : PeerMsg → Message
  funding_completed : Blockchain → Message
  funding_canceled : Blockchain → Message
  bitcoin_funding_info : Bytes → ℕ → Message
  monero_funding_info : MoneroFundingInfo → Message
  peerd_unreachable : ServiceId → Message
  checkpoint : Checkpoint → Message
  set_address_secret_key : Bytes → Message
  -- Progress, information and failure texts.
  progress_text info_text failure_text : Message
  progress : Progress → Message
  swap_outcome : Outcome → Message
  swap_info : Bytes → Bool → StateReport → Message

-- What the environment sees of a swap, newest first in a trace: a message handed to the bus for a
-- service, or the log line of `Runtime::broadcast` with the label of the transaction.
pub data Effect : Type 0 where
  send : ServiceId → Message → Effect
  broadcasting : TxLabel → Bytes → Effect
