-- ===== src/Swapd/SwapState/Reveal.antt =====
-- The transitions of src/swapd/swap_state.rs to `BobReveal` and `AliceReveal`, which makers and
-- takers share.
use farcaster_node.Base.{Option, none, some}
use farcaster_node.Bus.{Bytes, ServiceId}
use farcaster_node.Swapd.Messages.{
  Params, Request, abort_swap, p2p, reveal, bob_reveal, alice_reveal,
}
use farcaster_node.Swapd.Runtime.{Env, Exec, done, lift, ◌>>=◌, ◌>>◌, send_peer, watch_bitcoin_fee}
use farcaster_node.Swapd.SwapState.Common.{Step, handle_abort_swap, handle_bob_abort_swap}

module _ (env : Env) where
  -- The wallet answers with a reveal only for a maker.
  unfoldable pub send_reveal : Option Bytes → Exec (Unit {0})
  send_reveal none = done tt
  send_reveal (some revealed) = send_peer env (reveal revealed)

  unfoldable pub attempt_transition_to_bob_reveal :
      Params → Bytes → Bytes → ServiceId → Request → Step
  unfolding send_reveal
  attempt_transition_to_bob_reveal local_params remote_commit wallet source
        (p2p (reveal revealed)) =
      do
        remote_params ← lift (env.validate_reveal revealed remote_commit)
        (answer, wallet') ← lift (env.handle_alice_reveals wallet revealed)
        send_reveal answer
        watch_bitcoin_fee env
        done (some (bob_reveal local_params remote_params wallet'))
  attempt_transition_to_bob_reveal local_params remote_commit wallet source abort_swap =
      handle_bob_abort_swap env source wallet
  attempt_transition_to_bob_reveal local_params remote_commit wallet source _ = done none

  unfoldable pub attempt_transition_to_alice_reveal :
      Params → Bytes → Bytes → ServiceId → Request → Step
  unfolding send_reveal
  attempt_transition_to_alice_reveal local_params remote_commit wallet source
        (p2p (reveal revealed)) =
      do
        remote_params ← lift (env.validate_reveal revealed remote_commit)
        (answer, wallet') ← lift (env.handle_bob_reveals wallet revealed)
        send_reveal answer
        done (some (alice_reveal local_params remote_params wallet'))
  attempt_transition_to_alice_reveal local_params remote_commit wallet source abort_swap =
      handle_abort_swap env source
  attempt_transition_to_alice_reveal local_params remote_commit wallet source _ = done none
