-- ===== src/Swapd/Handle/Guards.antt =====
-- The guards of `handle_msg` of src/swapd/runtime.rs.
use farcaster_node.Base.{
  same, not, ◌&&◌, arith, if_pos, if_neg, ◌≡◌, refl, sym, true, ◌⊎◌, inl, inr, Bool-cases,
}
use farcaster_node.Bus.{Bytes, ServiceId, ServiceId-discrete, swap, ServiceId_eq}
use farcaster_node.Swapd.Messages.{PeerMsg}
use farcaster_node.Swapd.Handle.{
  Incoming, addressed, abort, unaddressed, Daemon, Verdict, failed, panicked, Executor, from_peer,
  is_peer, handle_msg,
}

-- A message that the state machine may see: of this swap, and if a peer sent it, of the swap's peer.
pub record Accepts (source : ServiceId) (swap_id : Bytes) (d : Daemon) : Type 0 where
  pub of_its_peer : is_peer source ≡ true → d.world.runtime.peer_service ≡ source
  pub of_its_swap : d.world.runtime.identity ≡ swap swap_id

-- An error or a panic that leaves the daemon as it was.
abbrev pub Refused : Daemon → Verdict × Daemon → Type 0
Refused d x = (x ≡ (failed, d)) ⊎ (x ≡ (panicked, d))

-- A message of a peer is either run by the state machine, and then it names this swap and a message
-- from a peer service is from the peer of the swap, or it ends in an error or a panic, and changes
-- nothing.
pub handle_msg-guarded :
    (execute : Executor) (source : ServiceId) (m : Incoming) (d : Daemon)
    → ((swap_id : Bytes) × (msg : PeerMsg) × (m ≡ addressed swap_id msg)
        × Accepts source swap_id d
        × (handle_msg execute source m d ≡ execute source (from_peer m) d))
      ⊎ Refused d (handle_msg execute source m d)
unfolding handle_msg
handle_msg-guarded execute source (addressed swap_id msg) d =
    elim (ServiceId-discrete (swap swap_id) d.world.runtime.identity) [
      | no q ↦ inr (inl (rw (if_neg _ q) (ground arith)))
      | yes q ↦ elim (ServiceId-discrete d.world.runtime.peer_service source) [
        | yes p ↦ inl (
          swap_id,
          msg,
          refl,
          record { of_its_peer = λ _. p; of_its_swap = sym q },
          rw (if_pos _ q) (rw (if_pos _ p) (ground arith)),
        )
        | no p ↦ elim (Bool-cases (is_peer source)) [
          | inl e ↦ inr (inl (rw e (rw (if_neg _ p) refl)))
          | inr e ↦ inl (
            swap_id,
            msg,
            refl,
            record { of_its_peer = λ h. cc; of_its_swap = sym q },
            rw e (rw (if_pos _ q) refl),
          )
        ]
      ]
    ]
handle_msg-guarded execute source (abort swap_id) d = inr (inl (ground arith))
handle_msg-guarded execute source unaddressed d =
    elim (Bool-cases (is_peer source && not (same d.world.runtime.peer_service source))) [
      | inl e ↦ inr (inl (rw e refl))
      | inr e ↦ inr (inr (rw e refl))
    ]
