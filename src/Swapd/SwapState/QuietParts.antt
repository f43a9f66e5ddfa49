-- ===== src/Swapd/SwapState/QuietParts.antt =====
-- The steps of src/swapd/swap_state.rs that broadcast nothing: what its handlers share.
use farcaster_node.Base.{ℕ, Bool, true, false, Option, none, some}
use farcaster_node.Bus.{Bytes, Blockchain, ServiceId}
use farcaster_node.Swapd.Messages.{Params, CoreArbitratingSetup, alice_params, bob_params}
use farcaster_node.Swapd.SyncerClient.{TxLabel}
use farcaster_node.Swapd.Runtime.{Env, local_commit, ask_bob_to_fund}
use farcaster_node.Swapd.Runtime.Casts.{Quiet, quiet_rules, quiet_calls}
use farcaster_node.Swapd.SwapState.Common.{
  put_tx, take_tx, note_confs, remove_txs, watch_bitcoin_tx, abort_all, complete_funding,
  drop_funding, handle_abort_swap, handle_abort_impossible, handle_bob_abort_swap,
}
use farcaster_node.Swapd.SwapState.Reveal.{send_reveal}
use farcaster_node.Swapd.SwapState.Bob.{
  set_creation_height, unwatch_addr, watch_setup, watch_acc_lock, follow_acc_lock,
}
use farcaster_node.Swapd.SwapState.BobEnd.{take_txid, take_retrieving}
use farcaster_node.Swapd.SwapState.Alice.{complete_monero_funding, abort_watch}

pub Quiet-put_tx : (l : TxLabel) (tx : Bytes) → Quiet (put_tx l tx)
unfolding put_tx
Quiet-put_tx l tx = search (quiet_rules) depth 20

pub Quiet-take_tx : (l : TxLabel) → Quiet (take_tx l)
unfolding take_tx
Quiet-take_tx l = search (quiet_rules) depth 20

pub Quiet-note_confs : (id n : ℕ) → Quiet (note_confs id n)
unfolding note_confs
Quiet-note_confs id n = search (quiet_rules) depth 20

pub Quiet-remove_txs : Quiet remove_txs
unfolding remove_txs
Quiet-remove_txs = search (quiet_rules) depth 20

pub Quiet-set_creation_height : Quiet set_creation_height
unfolding set_creation_height
Quiet-set_creation_height = search (quiet_rules) depth 20

pub Quiet-unwatch_addr : (id : ℕ) → Quiet (unwatch_addr id)
unfolding unwatch_addr
Quiet-unwatch_addr id = search (quiet_rules) depth 20

pub Quiet-take_txid : (l : TxLabel) → Quiet (take_txid l)
unfolding take_txid
Quiet-take_txid l = search (quiet_rules) depth 20

pub Quiet-take_retrieving : (id : ℕ) → Quiet (take_retrieving id)
unfolding take_retrieving
Quiet-take_retrieving id = search (quiet_rules) depth 20

module _ (env : Env) where
  pub Quiet-local_commit : (p : Params) → Quiet (local_commit env p)
  unfolding local_commit
  Quiet-local_commit p = search (quiet_rules, quiet_calls) depth 20

  pub Quiet-ask_bob_to_fund : (n : ℕ) (a : Bytes) → Quiet (ask_bob_to_fund env n a)
  unfolding ask_bob_to_fund
  Quiet-ask_bob_to_fund n a = search (quiet_rules, quiet_calls) depth 20

  pub Quiet-watch_bitcoin_tx : (l : TxLabel) (i : Bytes) → Quiet (watch_bitcoin_tx env l i)
  unfolding watch_bitcoin_tx
  Quiet-watch_bitcoin_tx l i = search (quiet_rules, quiet_calls) depth 20

  pub Quiet-handle_abort_swap : (c : ServiceId) → Quiet (handle_abort_swap env c)
  unfolding handle_abort_swap
  Quiet-handle_abort_swap c = search (quiet_rules, quiet_calls) depth 20

  pub Quiet-handle_abort_impossible : (c : ServiceId) → Quiet (handle_abort_impossible env c)
  unfolding handle_abort_impossible
  Quiet-handle_abort_impossible c = search (quiet_rules, quiet_calls) depth 20

  pub Quiet-handle_bob_abort_swap :
      (c : ServiceId) (w : Bytes) → Quiet (handle_bob_abort_swap env c w)
  unfolding handle_bob_abort_swap
  Quiet-handle_bob_abort_swap c w = search (quiet_rules, quiet_calls) depth 20

  pub Quiet-drop_funding : (b : Bool) → Quiet (drop_funding env b)
  unfolding drop_funding
  Quiet-drop_funding true = search (quiet_rules, quiet_calls) depth 20
  Quiet-drop_funding false = search (quiet_rules, quiet_calls) depth 20

  pub Quiet-abort_all : Quiet (abort_all env)
  unfolding abort_all
  Quiet-abort_all = search (quiet_rules, quiet_calls) depth 20

  pub Quiet-complete_funding : (a : Bool) (b : Blockchain) → Quiet (complete_funding env a b)
  unfolding complete_funding
  Quiet-complete_funding true b = search (quiet_rules, quiet_calls) depth 20
  Quiet-complete_funding false b = search (quiet_rules, quiet_calls) depth 20

  pub Quiet-send_reveal : (r : Option Bytes) → Quiet (send_reveal env r)
  unfolding send_reveal
  Quiet-send_reveal none = search (quiet_rules, quiet_calls) depth 20
  Quiet-send_reveal (some r) = search (quiet_rules, quiet_calls) depth 20

  pub Quiet-watch_setup : (s : CoreArbitratingSetup) → Quiet (watch_setup env s)
  unfolding watch_setup
  Quiet-watch_setup s = search (quiet_rules, quiet_calls, Quiet-watch_bitcoin_tx) depth 20

  pub Quiet-watch_acc_lock : (l r : Params) → Quiet (watch_acc_lock env l r)
  unfolding watch_acc_lock
  Quiet-watch_acc_lock (bob_params b) (alice_params a) = search (quiet_rules, quiet_calls) depth 20
  Quiet-watch_acc_lock (bob_params b) (bob_params a) = search (quiet_rules, quiet_calls) depth 20
  Quiet-watch_acc_lock (alice_params b) r = search (quiet_rules, quiet_calls) depth 20

  pub Quiet-follow_acc_lock :
      (l : Option TxLabel) (id : ℕ) (h : Bytes) → Quiet (follow_acc_lock env l id h)
  unfolding follow_acc_lock
  Quiet-follow_acc_lock none id h = search (quiet_rules, quiet_calls) depth 20
  Quiet-follow_acc_lock (some l) id h = search (quiet_rules, quiet_calls) depth 20

  pub Quiet-complete_monero_funding : (b : Bool) → Quiet (complete_monero_funding env b)
  unfolding complete_monero_funding
  Quiet-complete_monero_funding true = search (quiet_rules, quiet_calls) depth 20
  Quiet-complete_monero_funding false = search (quiet_rules, quiet_calls) depth 20

  pub Quiet-abort_watch : (l : Option TxLabel) (id : ℕ) → Quiet (abort_watch env l id)
  unfolding abort_watch
  Quiet-abort_watch none id = search (quiet_rules, quiet_calls) depth 20
  Quiet-abort_watch (some l) id = search (quiet_rules, quiet_calls) depth 20

pub ruleset quiet_parts = (
  Quiet-put_tx, Quiet-take_tx, Quiet-note_confs, Quiet-remove_txs, Quiet-set_creation_height,
  Quiet-unwatch_addr, Quiet-take_txid, Quiet-take_retrieving, Quiet-local_commit,
  Quiet-ask_bob_to_fund, Quiet-watch_bitcoin_tx, Quiet-handle_abort_swap,
  Quiet-handle_abort_impossible, Quiet-handle_bob_abort_swap, Quiet-drop_funding, Quiet-abort_all,
  Quiet-complete_funding, Quiet-send_reveal, Quiet-watch_setup, Quiet-watch_acc_lock,
  Quiet-follow_acc_lock, Quiet-complete_monero_funding, Quiet-abort_watch,
)
