-- ===== src/Swapd/Handle/Examples.antt =====
-- The handlers of src/swapd/runtime.rs at concrete messages.
use farcaster_node.Base.{◌≡◌, ◌≢◌, refl, [], ◌∷◌, true, false, none, ◌⊎◌, same, arith}
use farcaster_node.Bus.{
  Bytes, ServiceId-discrete, ServiceId_eq, farcasterd, loopback, database, swap,
}
use farcaster_node.Swapd.Messages.{
  State, PeerMsg, abort_swap, bob, alice, deal_not_found, send, checkpoint, Checkpoint,
}
use farcaster_node.Swapd.Runtime.{World, Env, ok, checkpoint_state}
use farcaster_node.Swapd.Runtime.Samples.{env, runtime, world}
use farcaster_node.Swapd.StateReport
use farcaster_node.Swapd.StateReport.{StateReport}
use farcaster_node.Swapd.Handle.{
  addressed, Daemon, Executor, from_peer, handle_msg, out_of_fuel, returned,
}
use farcaster_node.Swapd.Handle.Control.{
  peerd_reconnected, handle_ctl, checkpointed, ctl, to_state_machine, handle,
}
use farcaster_node.Swapd.Handle.Reconnects.{
  resent, reported, peerd_reconnected-resends, peerd_reconnected-loses,
}
use farcaster_node.Swapd.Handle.Guards.{Accepts, Refused, handle_msg-guarded}
use farcaster_node.Swapd.Handle.Restores.{saved, restored}
use farcaster_node.Swapd.Handle.Terminates.{Stored}
use farcaster_node.Swapd.Handle.Serves.{handle-terminates}

-- Two messages wait for the peer.
abbrev waiting : World
waiting = record world {
  runtime = record runtime { pending_peer_request = deal_not_found ∷ deal_not_found ∷ [] };
}

-- A bus that reaches farcasterd only.
abbrev cut_off : Env
cut_off = record env { delivers = λ trace dest m. same dest farcasterd }

abbrev no_report : StateReport
no_report = StateReport.new [] runtime.temporal_safety runtime.syncer_state

abbrev daemon : Daemon
daemon = record {
  world = record world { runtime = record runtime { identity = swap (8 ∷ []) } };
  swap_state_machine = State.start_taker bob;
  unhandled_peer_message = none;
  latest_state_report = no_report;
}

peerd_reconnected-resends_example : peerd_reconnected env loopback waiting ≡ (
  ok tt,
  record {
    runtime = record (waiting.runtime) {
      peer_service = loopback;
      connected = true;
      pending_peer_request = [];
    };
    trace = resent loopback (deal_not_found ∷ deal_not_found ∷ []) [];
  },
)
peerd_reconnected-resends_example = peerd_reconnected-resends env loopback waiting (λ trace m. refl)

peerd_reconnected-loses_example : peerd_reconnected cut_off loopback waiting ≡ (
  ok tt,
  record {
    runtime = record (waiting.runtime) {
      peer_service = loopback;
      connected = false;
      pending_peer_request = [];
    };
    trace = reported loopback (deal_not_found ∷ deal_not_found ∷ []) [];
  },
)
unfolding ServiceId-discrete
peerd_reconnected-loses_example =
    peerd_reconnected-loses cut_off loopback waiting (λ trace m. refl) (λ trace m. refl)

abbrev ignoring : Executor
ignoring source a d = (returned, d)

handle_msg-guarded_example :
    ((swap_id : Bytes) × (m : PeerMsg) × (addressed (8 ∷ []) deal_not_found ≡ addressed swap_id m)
      × Accepts loopback swap_id daemon
      × (handle_msg ignoring loopback (addressed (8 ∷ []) deal_not_found) daemon
          ≡ ignoring loopback (from_peer (addressed (8 ∷ []) deal_not_found)) daemon))
    ⊎ Refused daemon (handle_msg ignoring loopback (addressed (8 ∷ []) deal_not_found) daemon)
handle_msg-guarded_example =
    handle_msg-guarded ignoring loopback (addressed (8 ∷ []) deal_not_found) daemon

restored_example :
    (c : Checkpoint) × ((checkpoint_state env none (State.start_maker alice) world).1.trace
      ≡ send database (checkpoint c) ∷ [])
    × ((handle_ctl cut_off 1 loopback (checkpointed c) daemon).1.swap_state_machine
        ≡ State.start_maker alice)
    × (saved (handle_ctl cut_off 1 loopback (checkpointed c) daemon).1.world.runtime
        ≡ saved runtime)
restored_example =
    restored env cut_off none (State.start_maker alice) world 1 loopback daemon (λ m. refl)

handle-terminates_example :
    ((handle env 115 loopback (ctl (to_state_machine abort_swap)) daemon).0 ≢ out_of_fuel)
    × Stored (handle env 115 loopback (ctl (to_state_machine abort_swap)) daemon).1
handle-terminates_example =
    handle-terminates env 115 loopback (ctl (to_state_machine abort_swap)) daemon (omega arith)
      (record { lock_tx_confs = tt; cancel_tx_confs = tt; buy_tx_confs = tt })
