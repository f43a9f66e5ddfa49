-- ===== src/Swapd/Handle/Kept.antt =====
-- The confirmations that a swap keeps for a replay, in src/swapd/runtime.rs: what leaves them as they
-- are.
pub mod Parts
pub mod Start
pub mod Bob
pub mod Alice
pub mod Next
use farcaster_node.Base.{ℕ, ◌≡◌, refl, Bool, true, false, Option, none, some, List, [], ◌∷◌, arith}
use farcaster_node.Bus.{Bytes, Blockchain, bitcoin, monero, ServiceId}
use farcaster_node.Syncerd.Types.{Task, Event, SweepMoneroAddress, SweepBitcoinAddress}
use farcaster_node.Swapd.SyncerClient
use farcaster_node.Swapd.SyncerClient.{
  TxLabel, SyncerState, watch_tx_btc, watch_tx_xmr, retrieve_tx_btc, watch_addr_btc, watch_addr_xmr,
  height_task, estimate_fee_btc, sweep_btc, sweep_xmr, handle_tx_confs, new_task, new_taskid,
}
use farcaster_node.Swapd.Messages.{Message, PeerMsg, State}
use farcaster_node.Swapd.Runtime.{
  Runtime, Env, on_syncer, complete_client, send_bitcoin, send_monero, keep_unsent, send_peer,
  broadcast, watch_height, watch_bitcoin_fee, send_if_any, to_enquirer, report_progress_message,
  ignore_send, checkpoint_state, store_keys,
}
use farcaster_node.Swapd.Runtime.Keeps.{Keeps, Keeps-bind, keeps_rules}

pub record Kept : Type 0 where
  pub lock_tx_confs : Option Event
  pub cancel_tx_confs : Option Event
  pub buy_tx_confs : Option Event

abbrev pub kept_of : SyncerState → Kept
kept_of s = record {
  lock_tx_confs = s.lock_tx_confs;
  cancel_tx_confs = s.cancel_tx_confs;
  buy_tx_confs = s.buy_tx_confs;
}

abbrev pub kept : Runtime → Kept
kept r = kept_of r.syncer_state

pub kept-handle_tx_confs :
    (id : ℕ) (confs : Option ℕ) (thr : ℕ) (s : SyncerState)
    → kept_of (handle_tx_confs id confs thr s) ≡ kept_of s
unfolding handle_tx_confs
kept-handle_tx_confs id confs thr s = ground arith

pub kept-on-watch_tx_btc : (a : Bytes) (l : TxLabel) → Keeps kept (on_syncer (watch_tx_btc a l))
unfolding watch_tx_btc
kept-on-watch_tx_btc a l = search (keeps_rules)

pub kept-on-watch_tx_xmr : (a : Bytes) (l : TxLabel) → Keeps kept (on_syncer (watch_tx_xmr a l))
unfolding watch_tx_xmr
kept-on-watch_tx_xmr a l = search (keeps_rules)

pub kept-on-retrieve_tx_btc :
    (a : Bytes) (l : TxLabel) → Keeps kept (on_syncer (retrieve_tx_btc a l))
unfolding retrieve_tx_btc
kept-on-retrieve_tx_btc a l = search (keeps_rules)

pub kept-on-watch_addr_btc : (a : Bytes) (l : TxLabel) → Keeps kept (on_syncer (watch_addr_btc a l))
unfolding watch_addr_btc
kept-on-watch_addr_btc a l = search (keeps_rules)

pub kept-on-watch_addr_xmr :
    (a b : Bytes) (l : TxLabel) (h : Option ℕ) → Keeps kept (on_syncer (watch_addr_xmr a b l h))
unfolding watch_addr_xmr
kept-on-watch_addr_xmr a b l h = search (keeps_rules)

pub kept-on-height_task : (b : Blockchain) → Keeps kept (on_syncer (height_task b))
unfolding height_task
kept-on-height_task b = search (keeps_rules)

pub kept-on-estimate_fee_btc : Keeps kept (on_syncer estimate_fee_btc)
unfolding estimate_fee_btc
kept-on-estimate_fee_btc = search (keeps_rules)

pub kept-on-sweep_btc :
    (a : SweepBitcoinAddress) (b : Bool) → Keeps kept (on_syncer (sweep_btc a b))
unfolding sweep_btc
kept-on-sweep_btc a b = search (keeps_rules)

pub kept-on-sweep_xmr : (a : SweepMoneroAddress) (b : Bool) → Keeps kept (on_syncer (sweep_xmr a b))
unfolding sweep_xmr
kept-on-sweep_xmr a b = search (keeps_rules)

pub kept-on-broadcast : (a : Bytes) → Keeps kept (on_syncer (SyncerClient.broadcast a))
unfolding SyncerClient.broadcast
kept-on-broadcast a = search (keeps_rules)

pub ruleset kept_rules = (
  keeps_rules, kept-on-watch_tx_btc, kept-on-watch_tx_xmr, kept-on-retrieve_tx_btc,
  kept-on-watch_addr_btc, kept-on-watch_addr_xmr, kept-on-height_task, kept-on-estimate_fee_btc,
  kept-on-sweep_btc, kept-on-sweep_xmr, kept-on-broadcast,
)

module _ (env : Env) where
  pub kept-complete_client :
      (dest : ServiceId) (m : Message) → Keeps kept (complete_client env dest m)
  unfolding complete_client
  kept-complete_client dest m = search (keeps_rules)

  pub kept-send_bitcoin : (t : Task) → Keeps kept (send_bitcoin env t)
  unfolding send_bitcoin
  kept-send_bitcoin t = search (kept_rules) depth 20

  pub kept-send_monero : (t : Task) → Keeps kept (send_monero env t)
  unfolding send_monero
  kept-send_monero t = search (kept_rules) depth 20

  pub kept-keep_unsent : (sent : Bool) (m : PeerMsg) → Keeps kept (keep_unsent env sent m)
  unfolding keep_unsent
  kept-keep_unsent true m = search (kept_rules) depth 20
  kept-keep_unsent false m = search (kept_rules) depth 20

  pub kept-send_peer : (m : PeerMsg) → Keeps kept (send_peer env m)
  unfolding send_peer
  kept-send_peer m = search (kept_rules, kept-keep_unsent) depth 20

  pub kept-watch_height : (b : Blockchain) → Keeps kept (watch_height env b)
  unfolding watch_height
  kept-watch_height bitcoin = search (kept_rules, kept-send_bitcoin) depth 20
  kept-watch_height monero = search (kept_rules, kept-send_monero) depth 20

  pub kept-watch_bitcoin_fee : Keeps kept (watch_bitcoin_fee env)
  unfolding watch_bitcoin_fee
  kept-watch_bitcoin_fee = search (kept_rules, kept-send_bitcoin) depth 20

  pub kept-send_if_any : (d : Option ServiceId) (m : Message) → Keeps kept (send_if_any env d m)
  unfolding send_if_any
  kept-send_if_any none m = search (kept_rules) depth 20
  kept-send_if_any (some d) m = search (kept_rules) depth 20

  pub kept-to_enquirer : (m : Message) → Keeps kept (to_enquirer env m)
  unfolding to_enquirer
  kept-to_enquirer m = search (kept_rules, kept-send_if_any) depth 20

  pub kept-report_progress_message : Keeps kept (report_progress_message env)
  unfolding report_progress_message
  kept-report_progress_message = kept-to_enquirer _

  pub kept-ignore_send : (d : Option ServiceId) (m : Message) → Keeps kept (ignore_send env d m)
  unfolding ignore_send
  kept-ignore_send none m = search (kept_rules) depth 20
  kept-ignore_send (some d) m = search (kept_rules) depth 20

  pub kept-checkpoint_state :
      (m : Option PeerMsg) (s : State) → Keeps kept (checkpoint_state env m s)
  unfolding checkpoint_state
  kept-checkpoint_state m s = search (kept_rules) depth 20

  pub kept-store_keys : (ks : List Bytes) → Keeps kept (store_keys env ks)
  unfolding store_keys
  kept-store_keys [] = search (kept_rules) depth 20
  kept-store_keys (k ∷ ks) =
      let rest = kept-store_keys ks in Keeps-bind kept _ _ (search (keeps_rules)) (λ _. rest)

  pub kept-broadcast : (tx : Bytes) (l : TxLabel) → Keeps kept (broadcast env tx l)
  unfolding broadcast
  kept-broadcast tx l = search (kept_rules, kept-send_bitcoin) depth 20

pub ruleset kept_calls = (
  kept-complete_client, kept-send_bitcoin, kept-send_monero, kept-send_peer, kept-watch_height,
  kept-watch_bitcoin_fee, kept-to_enquirer, kept-report_progress_message, kept-ignore_send,
  kept-checkpoint_state, kept-store_keys, kept-broadcast,
)
