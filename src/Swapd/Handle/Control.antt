-- ===== src/Swapd/Handle/Control.antt =====
-- `handle_ctl`, `handle_info` and `handle` of src/swapd/runtime.rs. The number is the bound on nested
-- calls of the state machine.
use farcaster_node.Base.{
  ℕ, true, false, Option, none, some, List, [], ◌∷◌, ◌++◌, if◌then◌else◌, same,
}
use farcaster_node.Bus.{Bytes, ServiceId, ServiceId_eq, bitcoin, monero, farcasterd}
use farcaster_node.Syncerd.Types.{Event, XmrAddressAddendum}
use farcaster_node.Swapd.SyncerClient
use farcaster_node.Swapd.SyncerClient.{TxLabel, acc_lock, watch_tx_btc, watch_addr_xmr}
use farcaster_node.Swapd.Messages.{Checkpoint, PeerMsg, Request, other_request, swap_info}
use farcaster_node.Swapd.Runtime.{
  Env, Exec, done, gets, modify, on_syncer, ◌>>=◌, ◌>>◌, send_bitcoin, send_monero, send_peer,
  watch_height, complete_client,
}
use farcaster_node.Swapd.Handle.{
  Incoming, Handler, returned, failed, exited, perform, return, ◌then_do◌, control, sync_task,
  execute_state_machine, handle_msg, handle_sync, report_potential_state_change,
}

unfoldable pub send_each : Env → List PeerMsg → Exec (Unit {0})
send_each env [] = done tt
send_each env (m ∷ ms) = do send_peer env m; send_each env ms

-- The messages that wait for the peer are sent again, and then dropped.
unfoldable pub peerd_reconnected : Env → ServiceId → Exec (Unit {0})
peerd_reconnected env service_id = do
  modify (λ r. record r { peer_service = service_id; connected = true })
  pending ← gets (λ r. r.pending_peer_request)
  send_each env pending
  modify (λ r. record r { pending_peer_request = [] })

unfoldable pub watch_txids : Env → List (TxLabel × Bytes) → Exec (Unit {0})
watch_txids env [] = done tt
watch_txids env ((label, txid) ∷ txids) = do
  t ← on_syncer (watch_tx_btc txid label)
  send_bitcoin env t
  watch_txids env txids

unfoldable pub broadcast_each : Env → List Bytes → Exec (Unit {0})
broadcast_each env [] = done tt
broadcast_each env (tx ∷ txs) = do
  t ← on_syncer (SyncerClient.broadcast tx)
  send_bitcoin env t
  broadcast_each env txs

unfoldable pub watch_addendum : Env → Option XmrAddressAddendum → Exec (Unit {0})
watch_addendum env none = done tt
watch_addendum env (some a) = do
  t ← on_syncer (watch_addr_xmr a.spend_key a.view_key acc_lock (some a.from_height))
  send_monero env t

unfoldable pub send_pending : Env → Option PeerMsg → Exec (Unit {0})
send_pending env none = done tt
send_pending env (some m) = send_peer env m

-- What of a checkpoint goes into the runtime; the state of the machine is beside it.
unfoldable pub restore : Env → Checkpoint → Exec (Unit {0})
restore env c = do
  modify (λ r. record r {
    enquirer = c.enquirer;
    temporal_safety = c.temporal_safety;
    monero_address_creation_height = c.monero_address_creation_height;
    txs = c.txs;
  })
  watch_height env bitcoin
  watch_height env monero
  watch_txids env c.txids
  broadcast_each env c.pending_broadcasts
  watch_addendum env c.xmr_addr_addendum
  send_pending env c.pending_msg

pub data Control : Type 0 where
  hello terminate disconnected reconnected : Control
  peer_reconnected : ServiceId → Control
  failed_peer_message : PeerMsg → Control
  checkpointed : Checkpoint → Control
  to_state_machine : Request → Control

unfoldable pub handle_ctl : Env → ℕ → ServiceId → Control → Handler
handle_ctl env fuel source hello d = (returned, d)
handle_ctl env fuel source terminate d =
    if same source farcasterd
    then (exited, d)
    else execute_state_machine env fuel source (control other_request) d
handle_ctl env fuel source disconnected d = perform (modify (λ r. record r { connected = false })) d
handle_ctl env fuel source reconnected d = perform (modify (λ r. record r { connected = true })) d
handle_ctl env fuel source (peer_reconnected service_id) d =
    perform (peerd_reconnected env service_id) d
handle_ctl env fuel source (failed_peer_message m) d =
    perform (modify (λ r. record r { pending_peer_request = r.pending_peer_request ++ m ∷ [] })) d
handle_ctl env fuel source (checkpointed c) d =
    perform (restore env c) (record d { swap_state_machine = c.state })
handle_ctl env fuel source (to_state_machine q) d =
    execute_state_machine env fuel source (control q) d

-- A message by its bus; `unsupported` is any pair of a bus and a message that do not fit, and
-- `other_info` a request for information that is only logged.
pub data BusMsg : Type 0 where
  msg : Incoming → BusMsg
  ctl : Control → BusMsg
  get_info other_info : BusMsg
  syncer_event : Event → BusMsg
  syncer_task : BusMsg
  unsupported : BusMsg

unfoldable pub handle_info : Env → ServiceId → Handler
handle_info env source d =
    perform
      (complete_client env source
        (swap_info d.world.runtime.swap_id d.world.runtime.connected d.latest_state_report))
      d

unfoldable pub handle : Env → ℕ → ServiceId → BusMsg → Handler
handle env fuel source (msg m) =
    handle_msg (execute_state_machine env fuel) source m then_do report_potential_state_change env
handle env fuel source (ctl c) =
    handle_ctl env fuel source c then_do report_potential_state_change env
handle env fuel source get_info = handle_info env source
handle env fuel source other_info = return
handle env fuel source (syncer_event e) =
    handle_sync env (execute_state_machine env fuel) source e
    then_do report_potential_state_change env
handle env fuel source syncer_task =
    execute_state_machine env fuel source sync_task then_do report_potential_state_change env
handle env fuel source unsupported = λ d. (failed, d)
