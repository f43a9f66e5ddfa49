-- ===== src/Swapd/Handle/Serves.antt =====
-- `handle` of src/swapd/runtime.rs as a whole: the message loop never runs out of fuel.
use farcaster_node.Base.{
  ℕ, ◌≤◌, ◌≢◌, sym, subst, same, Bool-cases, none, some, List, [], ◌∷◌, inl, inr, Option,
}
use farcaster_node.Bus.{Bytes, ServiceId, ServiceId_eq, farcasterd}
use farcaster_node.Syncerd.Types.{Event, XmrAddressAddendum}
use farcaster_node.Swapd.SyncerClient.{TxLabel}
use farcaster_node.Swapd.Messages.{PeerMsg, Checkpoint}
use farcaster_node.Swapd.Runtime.{World, Env, Result, ok, err, Exec}
use farcaster_node.Swapd.Runtime.Keeps.{Keeps, Keeps-bind}
use farcaster_node.Swapd.Handle.{
  Incoming, Daemon, Verdict, returned, failed, panicked, exited, out_of_fuel, after, ◌then_do◌, run,
  ran, perform, return, from_peer, from_syncer, control, sync_task, handle_msg, handle_sync,
  note_event, execute_state_machine, report_potential_state_change,
}
use farcaster_node.Swapd.Handle.Control.{
  send_each, peerd_reconnected, watch_txids, broadcast_each, watch_addendum, send_pending, restore,
  Control, hello, terminate, disconnected, reconnected, peer_reconnected, failed_peer_message,
  checkpointed, to_state_machine, handle_ctl, BusMsg, msg, ctl, get_info, other_info, syncer_event,
  syncer_task, unsupported, handle_info, handle,
}
use farcaster_node.Swapd.Handle.Kept.{
  kept, kept_rules, kept_calls, kept-send_peer, kept-send_bitcoin,
}
use farcaster_node.Swapd.Handle.Guards.{handle_msg-guarded}
use farcaster_node.Swapd.Handle.Debts.{potential-bound}
use farcaster_node.Swapd.Handle.Stored.{AllConfs, note_event-AllConfs}
use farcaster_node.Swapd.Handle.Terminates.{Stored, Fine, Fine-after, Fine-report}
use farcaster_node.Swapd.Handle.Terminates.Induction.{execute_state_machine-Fine}

Fine-any : (d : Daemon) → Stored d → Fine 113 (returned, d)
Fine-any d s = (potential-bound d.swap_state_machine d.world.runtime, s)

Fine-kept : (m : Exec (Unit {0})) (d : Daemon) → Keeps kept m → Stored d → Fine 113 (perform m d)
unfolding perform run return
Fine-kept m d k s = go (m d.world) (subst AllConfs (sym (k.keeps d.world)) s)
  where
    go :
        (r : Result (Unit {0}) × World)
        → AllConfs (kept r.1.runtime)
        → Fine 113 (ran d r (λ _. return))
    go (ok a, w) h = Fine-any (record d { world = w }) h
    go (err, w) h = h

module _ (env : Env) where
  kept-send_each : (ms : List PeerMsg) → Keeps kept (send_each env ms)
  unfolding send_each
  kept-send_each [] = search (kept_rules)
  kept-send_each (m ∷ ms) =
      let rest = kept-send_each ms in Keeps-bind kept _ _ (kept-send_peer env m) (λ _. rest)

  kept-peerd_reconnected : (p : ServiceId) → Keeps kept (peerd_reconnected env p)
  unfolding peerd_reconnected
  kept-peerd_reconnected p = search (kept_rules, kept-send_each) depth 20

  kept-watch_txids : (txids : List (TxLabel × Bytes)) → Keeps kept (watch_txids env txids)
  unfolding watch_txids
  kept-watch_txids [] = search (kept_rules)
  kept-watch_txids ((l, t) ∷ txids) =
      let rest = kept-watch_txids txids in
      Keeps-bind kept _ _ (search (kept_rules))
        (λ task. Keeps-bind kept _ _ (kept-send_bitcoin env task) (λ _. rest))

  kept-broadcast_each : (txs : List Bytes) → Keeps kept (broadcast_each env txs)
  unfolding broadcast_each
  kept-broadcast_each [] = search (kept_rules)
  kept-broadcast_each (t ∷ txs) =
      let rest = kept-broadcast_each txs in
      Keeps-bind kept _ _ (search (kept_rules))
        (λ task. Keeps-bind kept _ _ (kept-send_bitcoin env task) (λ _. rest))

  kept-watch_addendum : (a : Option XmrAddressAddendum) → Keeps kept (watch_addendum env a)
  unfolding watch_addendum
  kept-watch_addendum none = search (kept_rules)
  kept-watch_addendum (some a) = search (kept_rules, kept_calls) depth 20

  kept-send_pending : (m : Option PeerMsg) → Keeps kept (send_pending env m)
  unfolding send_pending
  kept-send_pending none = search (kept_rules)
  kept-send_pending (some m) = kept-send_peer env m

  kept-restore : (c : Checkpoint) → Keeps kept (restore env c)
  unfolding restore
  kept-restore c =
      search
        (
          kept_rules, kept_calls, kept-watch_txids, kept-broadcast_each, kept-watch_addendum,
          kept-send_pending,
        )
        depth 20

  module _ (fuel : ℕ) (enough : 115 ≤ fuel) (source : ServiceId) where
    handle_msg-Fine :
        (m : Incoming) (d : Daemon)
        → Stored d
        → Fine 113 (handle_msg (execute_state_machine env fuel) source m d)
    handle_msg-Fine m d s = elim (handle_msg-guarded (execute_state_machine env fuel) source m d) [
      | inl (swap_id, p, _, _, e) ↦
          rw e (execute_state_machine-Fine env fuel source (from_peer m) d enough s)
      | inr (inl e) ↦ rw e s
      | inr (inr e) ↦ rw e s
    ]

    handle_ctl-Fine :
        (c : Control) (d : Daemon) → Stored d → Fine 113 (handle_ctl env fuel source c d)
    unfolding handle_ctl
    handle_ctl-Fine hello d s = Fine-any d s
    handle_ctl-Fine terminate d s = elim (Bool-cases (same source farcasterd)) [
      | inl e ↦ rw e s
      | inr e ↦ rw e (execute_state_machine-Fine env fuel source _ d enough s)
    ]
    handle_ctl-Fine disconnected d s = Fine-kept _ d (search (kept_rules)) s
    handle_ctl-Fine reconnected d s = Fine-kept _ d (search (kept_rules)) s
    handle_ctl-Fine (peer_reconnected p) d s = Fine-kept _ d (kept-peerd_reconnected p) s
    handle_ctl-Fine (failed_peer_message m) d s = Fine-kept _ d (search (kept_rules)) s
    handle_ctl-Fine (checkpointed c) d s =
        Fine-kept _ (record d { swap_state_machine = c.state }) (kept-restore c) s
    handle_ctl-Fine (to_state_machine q) d s =
        execute_state_machine-Fine env fuel source (control q) d enough s

    handle_sync-Fine :
        (e : Event) (d : Daemon)
        → Stored d
        → Fine 113 (handle_sync env (execute_state_machine env fuel) source e d)
    unfolding handle_sync run
    handle_sync-Fine e d s =
        go (note_event env source e d.world) (note_event-AllConfs env source e d.world s)
      where
        go :
            (r : Result (Unit {0}) × World)
            → AllConfs (kept r.1.runtime)
            → Fine 113 (ran d r (λ _. execute_state_machine env fuel source (from_syncer e)))
        go (ok a, w) h =
            execute_state_machine-Fine env fuel source (from_syncer e) (record d { world = w })
              enough h
        go (err, w) h = h

    then_report :
        (x : Verdict × Daemon) → Fine 113 x → Fine 113 (after x (report_potential_state_change env))
    then_report x h = Fine-after 113 x _ h (Fine-report env 113)

    handle-Fine : (m : BusMsg) (d : Daemon) → Stored d → Fine 113 (handle env fuel source m d)
    unfolding handle ◌then_do◌ return handle_info
    handle-Fine (msg m) d s = then_report _ (handle_msg-Fine m d s)
    handle-Fine (ctl c) d s = then_report _ (handle_ctl-Fine c d s)
    handle-Fine get_info d s = Fine-kept _ d (search (kept_rules, kept_calls)) s
    handle-Fine other_info d s = Fine-any d s
    handle-Fine (syncer_event e) d s = then_report _ (handle_sync-Fine e d s)
    handle-Fine syncer_task d s =
        then_report _ (execute_state_machine-Fine env fuel source sync_task d enough s)
    handle-Fine unsupported d s = s

Fine-ends : (x : Verdict × Daemon) → Fine 113 x → (x.0 ≢ out_of_fuel) × Stored x.1
Fine-ends (returned, d) h = (λ e. cc, h.1)
Fine-ends (failed, d) h = (λ e. cc, h)
Fine-ends (panicked, d) h = (λ e. cc, h)
Fine-ends (exited, d) h = (λ e. cc, h)
Fine-ends (out_of_fuel, d) h = absurd h

-- A daemon that keeps only confirmations for a replay handles every message, from any service and on
-- any bus: with fuel for 115 nested calls of the state machine it does not run out of fuel, and
-- afterwards it again keeps only confirmations, whether it returned, failed or panicked.
pub handle-terminates :
    (env : Env) (fuel : ℕ) (source : ServiceId) (m : BusMsg) (d : Daemon)
    → 115 ≤ fuel
    → Stored d
    → ((handle env fuel source m d).0 ≢ out_of_fuel) × Stored (handle env fuel source m d).1
handle-terminates env fuel source m d enough s =
    Fine-ends _ (handle-Fine env fuel enough source m d s)
