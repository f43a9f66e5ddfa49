-- ===== src/Swapd/Runtime/Plain.antt =====
-- The broadcasts in a trace of src/swapd/runtime.rs: the log lines of `Runtime::broadcast`, and the
-- tasks to broadcast that are handed to a service by any way. The other messages and tasks are plain.
use farcaster_node.Base.{ℕ, ◌≡◌, refl, Bool, Option, List, [], ◌∷◌}
use farcaster_node.Bus.{Bytes, Blockchain, ServiceId}
use farcaster_node.Syncerd.Types.{
  Task, TaskTarget, WatchHeight, WatchAddress, WatchTransaction, SweepAddress, GetTx,
  WatchEstimateFee, abort_task, watch_height_task, watch_address_task, watch_transaction_task,
  broadcast_task, sweep_address_task, get_tx_task, watch_estimate_fee_task,
}
use farcaster_node.Swapd.SyncerClient
use farcaster_node.Swapd.SyncerClient.{
  TxLabel, SyncerState, new_task, estimate_fee_btc, watch_tx_btc, watch_tx_xmr, retrieve_tx_btc,
  watch_addr_btc, watch_addr_xmr, height_task,
}
use farcaster_node.Swapd.Messages.{
  Effect, send, broadcasting, Message, PeerMsg, MoneroFundingInfo, Checkpoint, task, peer_msg,
  funding_completed, funding_canceled, bitcoin_funding_info, monero_funding_info, peerd_unreachable,
  checkpoint, set_address_secret_key, progress_text, info_text, failure_text,
}

pub data Broadcast : Type 0 where
  logged : TxLabel → Bytes → Broadcast
  handed : ServiceId → Bytes → Broadcast

-- The broadcasts `r`, after the message to a service if that is a task to broadcast.
unfoldable pub given : ServiceId → Message → List Broadcast → List Broadcast
given dest (task (broadcast_task b)) r = handed dest b.tx ∷ r
given dest _ r = r

-- Everything that a trace broadcasts, newest first.
abbrev pub broadcasts : List Effect → List Broadcast
broadcasts [] = []
broadcasts (broadcasting label tx ∷ t) = logged label tx ∷ broadcasts t
broadcasts (send dest m ∷ t) = given dest m (broadcasts t)

pub data IsPlainTask : Task → Type 0 where
  plain_abort : {t : TaskTarget} {b : Bool} → IsPlainTask (abort_task t b)
  plain_height : {t : WatchHeight} → IsPlainTask (watch_height_task t)
  plain_address : {t : WatchAddress} → IsPlainTask (watch_address_task t)
  plain_transaction : {t : WatchTransaction} → IsPlainTask (watch_transaction_task t)
  plain_sweep : {t : SweepAddress} → IsPlainTask (sweep_address_task t)
  plain_get_tx : {t : GetTx} → IsPlainTask (get_tx_task t)
  plain_fee : {t : WatchEstimateFee} → IsPlainTask (watch_estimate_fee_task t)

pub data IsPlain : Message → Type 0 where
  plain_task : {t : Task} → IsPlainTask t → IsPlain (task t)
  plain_peer_msg : {m : PeerMsg} → IsPlain (peer_msg m)
  plain_completed : {b : Blockchain} → IsPlain (funding_completed b)
  plain_canceled : {b : Blockchain} → IsPlain (funding_canceled b)
  plain_bitcoin : {a : Bytes} {n : ℕ} → IsPlain (bitcoin_funding_info a n)
  plain_monero : {i : MoneroFundingInfo} → IsPlain (monero_funding_info i)
  plain_unreachable : {s : ServiceId} → IsPlain (peerd_unreachable s)
  plain_checkpoint : {c : Checkpoint} → IsPlain (checkpoint c)
  plain_secret : {k : Bytes} → IsPlain (set_address_secret_key k)
  plain_progress : IsPlain progress_text
  plain_info : IsPlain info_text
  plain_failure : IsPlain failure_text

pub given-IsPlain :
    (dest : ServiceId) (m : Message) (r : List Broadcast) → IsPlain m → given dest m r ≡ r
unfolding given
given-IsPlain dest _ r (plain_task plain_abort) = refl
given-IsPlain dest _ r (plain_task plain_height) = refl
given-IsPlain dest _ r (plain_task plain_address) = refl
given-IsPlain dest _ r (plain_task plain_transaction) = refl
given-IsPlain dest _ r (plain_task plain_sweep) = refl
given-IsPlain dest _ r (plain_task plain_get_tx) = refl
given-IsPlain dest _ r (plain_task plain_fee) = refl
given-IsPlain dest _ r plain_peer_msg = refl
given-IsPlain dest _ r plain_completed = refl
given-IsPlain dest _ r plain_canceled = refl
given-IsPlain dest _ r plain_bitcoin = refl
given-IsPlain dest _ r plain_monero = refl
given-IsPlain dest _ r plain_unreachable = refl
given-IsPlain dest _ r plain_checkpoint = refl
given-IsPlain dest _ r plain_secret = refl
given-IsPlain dest _ r plain_progress = refl
given-IsPlain dest _ r plain_info = refl
given-IsPlain dest _ r plain_failure = refl

-- The tasks that src/swapd/syncer_client.rs makes, but for that of `broadcast`, are plain.
pub estimate_fee_btc-IsPlainTask : (s : SyncerState) → IsPlainTask (estimate_fee_btc s).0
unfolding estimate_fee_btc new_task
estimate_fee_btc-IsPlainTask s = plain_fee

pub watch_tx_btc-IsPlainTask :
    (i : Bytes) (l : TxLabel) (s : SyncerState) → IsPlainTask (watch_tx_btc i l s).0
unfolding watch_tx_btc new_task
watch_tx_btc-IsPlainTask i l s = plain_transaction

pub watch_tx_xmr-IsPlainTask :
    (i : Bytes) (l : TxLabel) (s : SyncerState) → IsPlainTask (watch_tx_xmr i l s).0
unfolding watch_tx_xmr new_task
watch_tx_xmr-IsPlainTask i l s = plain_transaction

pub retrieve_tx_btc-IsPlainTask :
    (i : Bytes) (l : TxLabel) (s : SyncerState) → IsPlainTask (retrieve_tx_btc i l s).0
unfolding retrieve_tx_btc new_task
retrieve_tx_btc-IsPlainTask i l s = plain_get_tx

pub watch_addr_btc-IsPlainTask :
    (a : Bytes) (l : TxLabel) (s : SyncerState) → IsPlainTask (watch_addr_btc a l s).0
unfolding watch_addr_btc new_task
watch_addr_btc-IsPlainTask a l s = plain_address

pub watch_addr_xmr-IsPlainTask :
    (a b : Bytes) (l : TxLabel) (h : Option ℕ) (s : SyncerState)
    → IsPlainTask (watch_addr_xmr a b l h s).0
unfolding watch_addr_xmr new_task
watch_addr_xmr-IsPlainTask a b l h s = plain_address

pub height_task-IsPlainTask : (b : Blockchain) (s : SyncerState) → IsPlainTask (height_task b s).0
unfolding height_task new_task
height_task-IsPlainTask b s = plain_height

pub client_abort_task-IsPlainTask : (id : ℕ) → IsPlainTask (SyncerClient.abort_task id)
unfolding SyncerClient.abort_task
client_abort_task-IsPlainTask id = plain_abort

pub ruleset plain_rules = (
  plain_abort, plain_height, plain_address, plain_transaction, plain_sweep, plain_get_tx, plain_fee,
  plain_task, plain_peer_msg, plain_completed, plain_canceled, plain_bitcoin, plain_monero,
  plain_unreachable, plain_checkpoint, plain_secret, plain_progress, plain_info, plain_failure,
  estimate_fee_btc-IsPlainTask, watch_tx_btc-IsPlainTask, watch_tx_xmr-IsPlainTask,
  retrieve_tx_btc-IsPlainTask, watch_addr_btc-IsPlainTask, watch_addr_xmr-IsPlainTask,
  height_task-IsPlainTask, client_abort_task-IsPlainTask,
)
