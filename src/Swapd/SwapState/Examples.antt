-- ===== src/Swapd/SwapState/Examples.antt =====
-- The state machine of src/swapd/swap_state.rs at concrete requests.
use farcaster_node.Base.{◌≡◌, refl, [], ◌∷◌, Option, some, true, lookup, ℕ_discrete}
use farcaster_node.Bus.{farcasterd, loopback}
use farcaster_node.Syncerd.Types.{SweepAddress, transaction_confirmations, empty, sweep_bitcoin}
use farcaster_node.Swapd.SyncerClient.{TxLabel-discrete}
use farcaster_node.Swapd.Messages.{
  MoneroFundingInfo, Request, State, bob, alice, sync_event, abort_swap, failure_abort,
  success_swap,
}
use farcaster_node.Swapd.Runtime.{
  World, Result, ok, done, gets, guarded, confirmed, ◌>>=◌, try_send, or_error, send_to,
  send_monero, complete_client, reply_dest, to_enquirer, send_if_any, modify,
}
use farcaster_node.Swapd.Runtime.Samples.{env, world}
use farcaster_node.Swapd.Runtime.Casts.{Casts}
use farcaster_node.Swapd.SwapState.Common.{handle_abort_swap, watched_addr, is_label, set_awaiting}
use farcaster_node.Swapd.SwapState.Start.{attempt_transition_to_init_taker}
use farcaster_node.Swapd.SwapState.BobEnd.{try_bob_buy_final_to_bob_buy_sweeping}
use farcaster_node.Swapd.SwapState.Alice.{try_alice_arbitrating_lock_final_to_alice_accordant_lock}
use farcaster_node.Swapd.SwapState.Next.{next}
use farcaster_node.Swapd.SwapState.Graph
use farcaster_node.Swapd.SwapState.Graph.{phase, ◌⟶◌}
use farcaster_node.Swapd.SwapState.Follows.{next-follows}
use farcaster_node.Swapd.SwapState.Runs.{Runs, stays, moves}
use farcaster_node.Swapd.SwapState.Outcomes.{may_end, run_outcome}
use farcaster_node.Swapd.SwapState.Ranks.{no_return}
use farcaster_node.Swapd.SwapState.Refusals.{refusal, AbortsTo, abort_moves, abort_refused}

abbrev confirmed_61 : Request
confirmed_61 =
    sync_event
      (transaction_confirmations (record { id = 2; block = []; confirmations = some 61; tx = [] }))

abbrev sweep : SweepAddress
sweep = record {
  retry = true;
  id = 4;
  lifetime = 100;
  addendum =
      sweep_bitcoin
        (record { source_secret_key = []; source_address = []; destination_address = [] });
}

abbrev sweep_step : (Result (Option State)) × World
sweep_step = next env (State.bob_buy_final sweep) loopback confirmed_61 world

next-follows_example : phase (State.bob_buy_final sweep) ⟶ phase State.bob_buy_sweeping
unfolding next try_bob_buy_final_to_bob_buy_sweeping confirmed guarded send_monero gets send_to
    try_send or_error done ◌>>=◌
next-follows_example =
    next-follows env loopback (State.bob_buy_final sweep) State.bob_buy_sweeping confirmed_61 world
      sweep_step.1 refl

run_outcome_example : may_end (phase (State.bob_buy_final sweep)) success_swap ≡ true
unfolding next try_bob_buy_final_to_bob_buy_sweeping confirmed guarded send_monero gets send_to
    try_send or_error done ◌>>=◌
run_outcome_example =
    run_outcome env (State.bob_buy_final sweep) State.bob_buy_sweeping success_swap
      (moves loopback confirmed_61 world sweep_step.1 refl stays) refl

abort_moves_example :
    AbortsTo (phase (State.start_taker bob)) (phase (State.swap_end failure_abort))
unfolding next attempt_transition_to_init_taker handle_abort_swap complete_client reply_dest send_to
    try_send or_error done ◌>>=◌
abort_moves_example =
    abort_moves env farcasterd (State.start_taker bob) (State.swap_end failure_abort) world
      (next env (State.start_taker bob) farcasterd abort_swap world).1 refl

abort_refused_example :
    next env (State.alice_accordant_lock (1 ∷ [])) farcasterd abort_swap world
    ≡ refusal env farcasterd world
abort_refused_example =
    abort_refused env alice (State.alice_accordant_lock (1 ∷ [])) farcasterd world
      Graph.alice_locked

abbrev funding_info : MoneroFundingInfo
funding_info = record { swap_id = 8 ∷ []; address = []; amount = 5 }

abbrev waiting : State
waiting = State.alice_arbitrating_lock_final (1 ∷ []) funding_info 5

waits :
    next env waiting loopback (sync_event (empty 3)) world
    ≡ (ok (some waiting), (next env waiting loopback (sync_event (empty 3)) world).1)
unfolding next try_alice_arbitrating_lock_final_to_alice_accordant_lock guarded watched_addr
    is_label lookup TxLabel-discrete ℕ_discrete modify to_enquirer send_if_any gets done ◌>>=◌
    set_awaiting
waits = refl

waiting_stays : Runs env waiting waiting
waiting_stays =
    moves loopback (sync_event (empty 3)) world
      (next env waiting loopback (sync_event (empty 3)) world).1 waits stays

no_return_example : phase waiting ≡ phase waiting
no_return_example = no_return env waiting waiting waiting_stays waiting_stays
