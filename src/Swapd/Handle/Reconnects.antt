-- ===== src/Swapd/Handle/Reconnects.antt =====
-- `handle_ctl`'s `PeerdReconnected` of src/swapd/runtime.rs: the messages that waited for the peer.
use mathlib.Core.List.{append-nil, append_assoc}
use farcaster_node.Base.{◌≡◌, refl, Bool, true, false, List, [], ◌∷◌, ◌++◌}
use farcaster_node.Bus.{ServiceId, farcasterd}
use farcaster_node.Swapd.Messages.{PeerMsg, Effect, Message, send, peer_msg, peerd_unreachable}
use farcaster_node.Swapd.Runtime.{
  World, Env, ok, done, gets, modify, ◌>>=◌, try_send, or_error, send_to, keep_unsent, send_peer,
}
use farcaster_node.Swapd.Handle.Control.{send_each, peerd_reconnected}

-- The trace after the messages were sent, in their order.
abbrev pub resent : ServiceId → List PeerMsg → List Effect → List Effect
resent p [] trace = trace
resent p (m ∷ ms) trace = resent p ms (send p (peer_msg m) ∷ trace)

-- The trace after one report to farcasterd for each message.
abbrev pub reported : ServiceId → List PeerMsg → List Effect → List Effect
reported p [] trace = trace
reported p (m ∷ ms) trace = reported p ms (send farcasterd (peerd_unreachable p) ∷ trace)

-- Whether the peer counts as connected once the messages could not be sent.
abbrev pub still : List PeerMsg → Bool → Bool
still [] b = b
still (m ∷ ms) b = false

still-false : (ms : List PeerMsg) → still ms false ≡ false
still-false [] = refl
still-false (m ∷ ms) = refl

module _ (env : Env) where
  send_each-delivered :
      (ms : List PeerMsg) (w : World)
      → ((trace : List Effect) (m : Message) → env.delivers trace w.runtime.peer_service m ≡ true)
      → send_each env ms w ≡ (ok tt, record w { trace = resent w.runtime.peer_service ms w.trace })
  unfolding send_each send_peer ◌>>=◌ gets try_send keep_unsent done
  send_each-delivered [] w h = refl
  send_each-delivered (m ∷ ms) w h = rw (h w.trace (peer_msg m)) (send_each-delivered ms _ h)

  -- If the bus delivers to the peer that has reconnected, it is sent all messages that waited, in
  -- their order, and the swap is connected to it with no message waiting.
  pub peerd_reconnected-resends :
      (p : ServiceId) (w : World)
      → ((trace : List Effect) (m : Message) → env.delivers trace p m ≡ true)
      → peerd_reconnected env p w ≡ (
        ok tt,
        record {
          runtime = record (w.runtime) {
            peer_service = p;
            connected = true;
            pending_peer_request = [];
          };
          trace = resent p w.runtime.pending_peer_request w.trace;
        },
      )
  unfolding peerd_reconnected ◌>>=◌ gets modify
  peerd_reconnected-resends p w h =
      rw
        (send_each-delivered w.runtime.pending_peer_request
          (record {
            runtime = record (w.runtime) { peer_service = p; connected = true };
            trace = w.trace;
          })
          h)
        refl

  send_each-undelivered :
      (ms : List PeerMsg) (w : World)
      → ((trace : List Effect) (m : Message) → env.delivers trace w.runtime.peer_service m ≡ false)
      → ((trace : List Effect) (m : Message) → env.delivers trace farcasterd m ≡ true)
      → send_each env ms w ≡ (
        ok tt,
        record {
          runtime = record (w.runtime) {
            connected = still ms w.runtime.connected;
            pending_peer_request = w.runtime.pending_peer_request ++ ms;
          };
          trace = reported w.runtime.peer_service ms w.trace;
        },
      )
  unfolding send_each send_peer ◌>>=◌ gets modify try_send keep_unsent send_to or_error done
  send_each-undelivered [] w h f = rw (append-nil w.runtime.pending_peer_request) refl
  send_each-undelivered (m ∷ ms) w h f = rw (h w.trace (peer_msg m)) (
      rw (f w.trace (peerd_unreachable w.runtime.peer_service)) (
        rw
          (send_each-undelivered ms
            (record {
              runtime = record (w.runtime) {
                connected = false;
                pending_peer_request = w.runtime.pending_peer_request ++ m ∷ [];
              };
              trace = send farcasterd (peerd_unreachable w.runtime.peer_service) ∷ w.trace;
            })
            h f)
          (rw (still-false ms)
            (rw (append_assoc w.runtime.pending_peer_request (m ∷ []) ms) refl))))

  -- If the bus does not deliver to the peer that has reconnected, but does to farcasterd, the handler
  -- returns with no message waiting and none sent to the peer: what waited is lost, and farcasterd is
  -- told once for each message that the peer is not reachable.
  pub peerd_reconnected-loses :
      (p : ServiceId) (w : World)
      → ((trace : List Effect) (m : Message) → env.delivers trace p m ≡ false)
      → ((trace : List Effect) (m : Message) → env.delivers trace farcasterd m ≡ true)
      → peerd_reconnected env p w ≡ (
        ok tt,
        record {
          runtime = record (w.runtime) {
            peer_service = p;
            connected = still w.runtime.pending_peer_request true;
            pending_peer_request = [];
          };
          trace = reported p w.runtime.pending_peer_request w.trace;
        },
      )
  unfolding peerd_reconnected ◌>>=◌ gets modify
  peerd_reconnected-loses p w h f =
      rw
        (send_each-undelivered w.runtime.pending_peer_request
          (record {
            runtime = record (w.runtime) { peer_service = p; connected = true };
            trace = w.trace;
          })
          h f)
        refl
