-- ===== src/Swapd/Handle/Restores.antt =====
-- `handle_ctl`'s `Checkpoint` of src/swapd/runtime.rs, against `checkpoint_state`.
use farcaster_node.Base.{
  ℕ, ◌≡◌, refl, ap, ◌∙◌, Bool, true, false, Option, none, some, List, [], ◌∷◌,
}
use farcaster_node.Bus.{Bytes, Blockchain, bitcoin, monero, ServiceId, database}
use farcaster_node.Syncerd.Types.{Task, XmrAddressAddendum}
use farcaster_node.Swapd.TemporalSafety.{TemporalSafety}
use farcaster_node.Swapd.SyncerClient
use farcaster_node.Swapd.SyncerClient.{
  TxLabel, watch_tx_btc, broadcast, watch_addr_xmr, height_task, acc_lock,
}
use farcaster_node.Swapd.Messages.{Checkpoint, PeerMsg, State, Message, send, checkpoint}
use farcaster_node.Swapd.Runtime.{
  Runtime, World, Env, Result, ok, err, Exec, gets, ◌>>=◌, ◌>>◌, done, modify, send_to,
  send_bitcoin, send_monero, send_peer, keep_unsent, try_send, or_error, checkpoint_state,
  watch_height,
}
use farcaster_node.Swapd.Runtime.Keeps.{Keeps, Keeps-bind, keeps_rules}
use farcaster_node.Swapd.Handle.{Daemon, run, perform, ran, return}
use farcaster_node.Swapd.Handle.Control.{
  watch_txids, broadcast_each, watch_addendum, send_pending, restore, handle_ctl, checkpointed,
}

-- What a checkpoint brings back beside the state of the machine.
pub record Saved : Type 0 where
  pub enquirer : Option ServiceId
  pub temporal_safety : TemporalSafety
  pub txs : List (TxLabel × Bytes)
  pub monero_address_creation_height : Option ℕ

abbrev pub saved : Runtime → Saved
saved r = record {
  enquirer = r.enquirer;
  temporal_safety = r.temporal_safety;
  txs = r.txs;
  monero_address_creation_height = r.monero_address_creation_height;
}

module _ (env : Env) where
  saved-keep_unsent : (b : Bool) (m : PeerMsg) → Keeps saved (keep_unsent env b m)
  unfolding keep_unsent
  saved-keep_unsent true m = search (keeps_rules)
  saved-keep_unsent false m = search (keeps_rules) depth 10

  saved-send_peer : (m : PeerMsg) → Keeps saved (send_peer env m)
  unfolding send_peer
  saved-send_peer m = search (keeps_rules, saved-keep_unsent) depth 10

  saved-send_bitcoin : (t : Task) → Keeps saved (send_bitcoin env t)
  unfolding send_bitcoin
  saved-send_bitcoin t = search (keeps_rules)

  saved-send_monero : (t : Task) → Keeps saved (send_monero env t)
  unfolding send_monero
  saved-send_monero t = search (keeps_rules)

  saved-watch_height : (b : Blockchain) → Keeps saved (watch_height env b)
  unfolding watch_height
  saved-watch_height bitcoin = search (keeps_rules, saved-send_bitcoin)
  saved-watch_height monero = search (keeps_rules, saved-send_monero)

  saved-watch_txids : (txids : List (TxLabel × Bytes)) → Keeps saved (watch_txids env txids)
  unfolding watch_txids
  saved-watch_txids [] = search (keeps_rules)
  saved-watch_txids ((l, t) ∷ txids) =
      Keeps-bind saved _ _ (search (keeps_rules))
        (λ task. Keeps-bind saved _ _ (saved-send_bitcoin task) (λ _. saved-watch_txids txids))

  saved-broadcast_each : (txs : List Bytes) → Keeps saved (broadcast_each env txs)
  unfolding broadcast_each
  saved-broadcast_each [] = search (keeps_rules)
  saved-broadcast_each (t ∷ txs) =
      Keeps-bind saved _ _ (search (keeps_rules))
        (λ task. Keeps-bind saved _ _ (saved-send_bitcoin task) (λ _. saved-broadcast_each txs))

  saved-watch_addendum : (a : Option XmrAddressAddendum) → Keeps saved (watch_addendum env a)
  unfolding watch_addendum
  saved-watch_addendum none = search (keeps_rules)
  saved-watch_addendum (some a) = search (keeps_rules, saved-send_monero) depth 10

  saved-send_pending : (m : Option PeerMsg) → Keeps saved (send_pending env m)
  unfolding send_pending
  saved-send_pending none = search (keeps_rules)
  saved-send_pending (some m) = saved-send_peer m

  saved-restart :
      (c : Checkpoint)
      → Keeps saved (do
        watch_height env bitcoin
        watch_height env monero
        watch_txids env c.txids
        broadcast_each env c.pending_broadcasts
        watch_addendum env c.xmr_addr_addendum
        send_pending env c.pending_msg)
  saved-restart c =
      search
        (
          keeps_rules, saved-watch_height, saved-watch_txids, saved-broadcast_each,
          saved-watch_addendum, saved-send_pending,
        )
        depth 20

  -- However the restart ends, what was saved is back.
  restore-saved :
      (c : Checkpoint) (w : World)
      → saved (restore env c w).1.runtime ≡ record {
        enquirer = c.enquirer;
        temporal_safety = c.temporal_safety;
        txs = c.txs;
        monero_address_creation_height = c.monero_address_creation_height;
      }
  unfolding restore ◌>>=◌ modify
  restore-saved c w = (saved-restart c).keeps (record w {
    runtime = record (w.runtime) {
      enquirer = c.enquirer;
      temporal_safety = c.temporal_safety;
      monero_address_creation_height = c.monero_address_creation_height;
      txs = c.txs;
    };
  })

pub perform-runtime :
    (m : Exec (Unit {0})) (d : Daemon)
    → ((perform m d).1.world.runtime ≡ (m d.world).1.runtime)
      × ((perform m d).1.swap_state_machine ≡ d.swap_state_machine)
unfolding perform run
perform-runtime m d = go (m d.world)
  where
    go :
        (r : Result (Unit {0}) × World)
        → ((ran d r (λ _. return)).1.world.runtime ≡ r.1.runtime)
          × ((ran d r (λ _. return)).1.swap_state_machine ≡ d.swap_state_machine)
    go (ok a, w) = (refl, refl)
    go (err, w) = (refl, refl)

-- What `checkpoint_state` stores.
abbrev stored : Env → Option PeerMsg → State → Runtime → Checkpoint
stored env pending_msg t r = record {
  state = t;
  pending_msg = pending_msg;
  enquirer = r.enquirer;
  xmr_addr_addendum = r.syncer_state.xmr_addr_addendum;
  temporal_safety = r.temporal_safety;
  txs = r.txs;
  txids = r.syncer_state.tasks.txids;
  pending_broadcasts = SyncerClient.pending_broadcast_txs env.consensus_decode r.syncer_state;
  monero_address_creation_height = r.monero_address_creation_height;
}

-- A swap that stores a checkpoint, on a bus that delivers it, and is restored from it, by any later
-- daemon and however the restoration ends, is back in the state that the checkpoint names, with the
-- enquirer, the temporal safety, the transactions and the height that it had when it stored it.
pub restored :
    (env env' : Env) (pending_msg : Option PeerMsg) (t : State) (w : World) (fuel : ℕ)
    (source : ServiceId) (d : Daemon)
    → ((m : Message) → env.delivers w.trace database m ≡ true)
    → (c : Checkpoint) × ((checkpoint_state env pending_msg t w).1.trace
        ≡ send database (checkpoint c) ∷ w.trace)
      × ((handle_ctl env' fuel source (checkpointed c) d).1.swap_state_machine ≡ t)
      × (saved (handle_ctl env' fuel source (checkpointed c) d).1.world.runtime ≡ saved w.runtime)
unfolding checkpoint_state ◌>>=◌ gets send_to try_send or_error done handle_ctl
restored env env' pending_msg t w fuel source d h =
    let c = stored env pending_msg t w.runtime in
    let daemon = record d { swap_state_machine = t } in
    (
      c,
      rw (h (checkpoint c)) refl,
      (perform-runtime (restore env' c) daemon).1,
      ap saved (perform-runtime (restore env' c) daemon).0 ∙ restore-saved env' c d.world,
    )
