-- ===== src/Swapd/Handle/Kept/Parts.antt =====
-- The steps of src/swapd/swap_state.rs that its handlers share, on the confirmations kept for a replay.
use farcaster_node.Base.{ℕ, Bool, true, false, Option, none, some}
use farcaster_node.Bus.{Bytes, Blockchain, ServiceId}
use farcaster_node.Swapd.Messages.{Params, CoreArbitratingSetup, alice_params, bob_params}
use farcaster_node.Swapd.SyncerClient.{TxLabel}
use farcaster_node.Swapd.Runtime.{Env, modify, local_commit, ask_bob_to_fund}
use farcaster_node.Swapd.Runtime.Keeps.{Keeps, Keeps-modify}
use farcaster_node.Swapd.Handle.Kept.{kept, kept_rules, kept_calls, kept-handle_tx_confs}
use farcaster_node.Swapd.SwapState.Common.{
  set_awaiting, put_tx, take_tx, note_confs, remove_txs, watch_bitcoin_tx, abort_all,
  complete_funding, drop_funding, handle_abort_swap, handle_abort_impossible, handle_bob_abort_swap,
}
use farcaster_node.Swapd.SwapState.Reveal.{send_reveal}
use farcaster_node.Swapd.SwapState.Bob.{
  set_creation_height, unwatch_addr, watch_setup, watch_acc_lock, follow_acc_lock,
}
use farcaster_node.Swapd.SwapState.BobEnd.{take_txid, take_retrieving}
use farcaster_node.Swapd.SwapState.Alice.{complete_monero_funding, abort_watch}

pub kept-set_awaiting : (b : Bool) → Keeps kept (modify (set_awaiting b))
unfolding set_awaiting
kept-set_awaiting b = search (kept_rules)

ruleset kept_all = (kept_rules, kept_calls, kept-set_awaiting)

pub kept-put_tx : (l : TxLabel) (tx : Bytes) → Keeps kept (put_tx l tx)
unfolding put_tx
kept-put_tx l tx = search (kept_rules) depth 20

pub kept-take_tx : (l : TxLabel) → Keeps kept (take_tx l)
unfolding take_tx
kept-take_tx l = search (kept_rules) depth 20

pub kept-note_confs : (id n : ℕ) → Keeps kept (note_confs id n)
unfolding note_confs
kept-note_confs id n = Keeps-modify kept _ (λ r. kept-handle_tx_confs id (some n) _ r.syncer_state)

pub kept-remove_txs : Keeps kept remove_txs
unfolding remove_txs
kept-remove_txs = search (kept_rules) depth 20

pub kept-set_creation_height : Keeps kept set_creation_height
unfolding set_creation_height
kept-set_creation_height = search (kept_rules) depth 20

pub kept-unwatch_addr : (id : ℕ) → Keeps kept (unwatch_addr id)
unfolding unwatch_addr
kept-unwatch_addr id = search (kept_rules) depth 20

pub kept-take_txid : (l : TxLabel) → Keeps kept (take_txid l)
unfolding take_txid
kept-take_txid l = search (kept_rules) depth 20

pub kept-take_retrieving : (id : ℕ) → Keeps kept (take_retrieving id)
unfolding take_retrieving
kept-take_retrieving id = search (kept_rules) depth 20

module _ (env : Env) where
  pub kept-local_commit : (p : Params) → Keeps kept (local_commit env p)
  unfolding local_commit
  kept-local_commit p = search (kept_all) depth 20

  pub kept-ask_bob_to_fund : (n : ℕ) (a : Bytes) → Keeps kept (ask_bob_to_fund env n a)
  unfolding ask_bob_to_fund
  kept-ask_bob_to_fund n a = search (kept_all) depth 20

  pub kept-watch_bitcoin_tx : (l : TxLabel) (i : Bytes) → Keeps kept (watch_bitcoin_tx env l i)
  unfolding watch_bitcoin_tx
  kept-watch_bitcoin_tx l i = search (kept_all) depth 20

  pub kept-handle_abort_swap : (c : ServiceId) → Keeps kept (handle_abort_swap env c)
  unfolding handle_abort_swap
  kept-handle_abort_swap c = search (kept_all) depth 20

  pub kept-handle_abort_impossible : (c : ServiceId) → Keeps kept (handle_abort_impossible env c)
  unfolding handle_abort_impossible
  kept-handle_abort_impossible c = search (kept_all) depth 20

  pub kept-handle_bob_abort_swap :
      (c : ServiceId) (w : Bytes) → Keeps kept (handle_bob_abort_swap env c w)
  unfolding handle_bob_abort_swap
  kept-handle_bob_abort_swap c w = search (kept_all) depth 20

  pub kept-drop_funding : (b : Bool) → Keeps kept (drop_funding env b)
  unfolding drop_funding
  kept-drop_funding true = search (kept_all) depth 20
  kept-drop_funding false = search (kept_all) depth 20

  pub kept-abort_all : Keeps kept (abort_all env)
  unfolding abort_all
  kept-abort_all = search (kept_all) depth 20

  pub kept-complete_funding : (a : Bool) (b : Blockchain) → Keeps kept (complete_funding env a b)
  unfolding complete_funding
  kept-complete_funding true b = search (kept_all) depth 20
  kept-complete_funding false b = search (kept_all) depth 20

  pub kept-send_reveal : (r : Option Bytes) → Keeps kept (send_reveal env r)
  unfolding send_reveal
  kept-send_reveal none = search (kept_all) depth 20
  kept-send_reveal (some r) = search (kept_all) depth 20

  pub kept-watch_setup : (s : CoreArbitratingSetup) → Keeps kept (watch_setup env s)
  unfolding watch_setup
  kept-watch_setup s = search (kept_rules, kept_calls, kept-watch_bitcoin_tx) depth 20

  pub kept-watch_acc_lock : (l r : Params) → Keeps kept (watch_acc_lock env l r)
  unfolding watch_acc_lock
  kept-watch_acc_lock (bob_params b) (alice_params a) = search (kept_all) depth 20
  kept-watch_acc_lock (bob_params b) (bob_params a) = search (kept_all) depth 20
  kept-watch_acc_lock (alice_params b) r = search (kept_all) depth 20

  pub kept-follow_acc_lock :
      (l : Option TxLabel) (id : ℕ) (h : Bytes) → Keeps kept (follow_acc_lock env l id h)
  unfolding follow_acc_lock
  kept-follow_acc_lock none id h = search (kept_all) depth 20
  kept-follow_acc_lock (some l) id h = search (kept_all) depth 20

  pub kept-complete_monero_funding : (b : Bool) → Keeps kept (complete_monero_funding env b)
  unfolding complete_monero_funding
  kept-complete_monero_funding true = search (kept_all) depth 20
  kept-complete_monero_funding false = search (kept_all) depth 20

  pub kept-abort_watch : (l : Option TxLabel) (id : ℕ) → Keeps kept (abort_watch env l id)
  unfolding abort_watch
  kept-abort_watch none id = search (kept_all) depth 20
  kept-abort_watch (some l) id = search (kept_all) depth 20

pub ruleset kept_parts = (
  kept-set_awaiting, kept-put_tx, kept-take_tx, kept-note_confs, kept-remove_txs,
  kept-set_creation_height, kept-unwatch_addr, kept-take_txid, kept-take_retrieving,
  kept-local_commit, kept-ask_bob_to_fund, kept-watch_bitcoin_tx, kept-handle_abort_swap,
  kept-handle_abort_impossible, kept-handle_bob_abort_swap, kept-drop_funding, kept-abort_all,
  kept-complete_funding, kept-send_reveal, kept-watch_setup, kept-watch_acc_lock,
  kept-follow_acc_lock, kept-complete_monero_funding, kept-abort_watch,
)
