-- ===== src/Swapd/SwapState/Start.antt =====
-- The first states of src/swapd/swap_state.rs: starting as taker or maker, and the maker's commitment.
use farcaster_node.Base.{Bool, true, not, none, some, if◌then◌else◌, same, ℕ_eq}
use farcaster_node.Bus.{Bytes, bitcoin, monero, ServiceId, ServiceId_eq, loopback, peer, swap}
use farcaster_node.Swapd.Messages.{
  SwapRole, bob, alice, Params, Request, State, take_swap, make_swap, abort_swap, p2p,
  deal_not_found, taker_commit, maker_commit, reveal, bob_init_taker, alice_init_taker,
  bob_init_maker, alice_init_maker, bob_taker_maker_commit, alice_taker_maker_commit,
}
use farcaster_node.Swapd.Runtime.{
  Env, done, lift, modify, guarded, ◌>>=◌, ◌>>◌, watch_height, store_keys, local_commit, send_peer,
}
use farcaster_node.Swapd.SwapState.Common.{Step, handle_abort_swap, handle_bob_abort_swap}

-- A taker is connected unless its peer is the dummy with number 0.
is_real_peer : ServiceId → Bool
is_real_peer (peer n _) = not (same n 0)
is_real_peer _ = true

init_taker : SwapRole → Params → Bytes → State
init_taker bob local_params wallet = bob_init_taker local_params wallet
init_taker alice local_params wallet = alice_init_taker local_params wallet

init_maker : SwapRole → Params → Bytes → Bytes → State
init_maker bob local_params remote_commit wallet = bob_init_maker local_params remote_commit wallet
init_maker alice local_params remote_commit wallet =
    alice_init_maker local_params remote_commit wallet

module _ (env : Env) where
  unfoldable pub attempt_transition_to_init_taker : SwapRole → ServiceId → Request → Step
  unfolding is_real_peer init_taker
  attempt_transition_to_init_taker role source (take_swap i) =
      guarded (λ r. not (same (swap i.swap_id) r.identity)) (done none)
        (do
          watch_height env bitcoin
          watch_height env monero
          modify (λ r. record r {
            peer_service = i.peerd;
            connected = is_real_peer i.peerd;
            enquirer = some i.report_to;
          })
          (wallet, keys) ← lift (
              env.new_taker i.key_manager i.target_bitcoin_address i.target_monero_address
                i.swap_id)
          store_keys env keys
          commit ← local_commit env (env.local_params wallet)
          send_peer env (taker_commit commit)
          done (some (init_taker role (env.local_params wallet) wallet)))
  attempt_transition_to_init_taker role source abort_swap = handle_abort_swap env source
  attempt_transition_to_init_taker role source _ = done none

  unfoldable pub attempt_transition_to_init_maker : SwapRole → ServiceId → Request → Step
  unfolding init_maker
  attempt_transition_to_init_maker role source (make_swap i remote_commit) = do
    watch_height env bitcoin
    watch_height env monero
    (wallet, keys) ← lift (
        env.new_maker i.key_manager i.target_bitcoin_address i.target_monero_address i.swap_id
          remote_commit)
    store_keys env keys
    modify (λ r. record r {
      peer_service = i.peerd;
      connected = if same i.peerd loopback then r.connected else true;
      enquirer = some i.report_to;
    })
    commit ← local_commit env (env.local_params wallet)
    send_peer env (maker_commit commit)
    done (some (init_maker role (env.local_params wallet) remote_commit wallet))
  attempt_transition_to_init_maker role source abort_swap = handle_abort_swap env source
  attempt_transition_to_init_maker role source _ = done none

  unfoldable pub try_bob_init_taker_to_bob_taker_maker_commit :
      Params → Bytes → ServiceId → Request → Step
  try_bob_init_taker_to_bob_taker_maker_commit local_params wallet source (p2p deal_not_found) =
      handle_bob_abort_swap env source wallet
  try_bob_init_taker_to_bob_taker_maker_commit local_params wallet source
        (p2p (maker_commit remote_commit)) =
      do
        (revealed, wallet') ← lift (env.handle_maker_commit wallet remote_commit)
        send_peer env (reveal revealed)
        done (some (bob_taker_maker_commit local_params remote_commit wallet'))
  try_bob_init_taker_to_bob_taker_maker_commit local_params wallet source abort_swap =
      handle_bob_abort_swap env source wallet
  try_bob_init_taker_to_bob_taker_maker_commit local_params wallet source _ = done none

  unfoldable pub try_alice_init_taker_to_alice_taker_maker_commit :
      Params → Bytes → ServiceId → Request → Step
  try_alice_init_taker_to_alice_taker_maker_commit local_params wallet source (p2p deal_not_found) =
      handle_abort_swap env source
  try_alice_init_taker_to_alice_taker_maker_commit local_params wallet source
        (p2p (maker_commit remote_commit)) =
      do
        (revealed, wallet') ← lift (env.handle_maker_commit wallet remote_commit)
        send_peer env (reveal revealed)
        done (some (alice_taker_maker_commit local_params remote_commit wallet'))
  try_alice_init_taker_to_alice_taker_maker_commit local_params wallet source abort_swap =
      handle_abort_swap env source
  try_alice_init_taker_to_alice_taker_maker_commit local_params wallet source _ = done none
