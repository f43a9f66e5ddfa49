-- ===== src/Swapd/Handle/Terminates/Induction.antt =====
-- The induction on the fuel of `execute_state_machine` of src/swapd/runtime.rs.
use farcaster_node.Base.{
  ℕ, zero, suc, ◌<◌, ◌≤◌, sym, subst, not, ◌&&◌, if◌then◌else◌, Option, none, some, inl, inr, arith,
  Bool-cases, same,
}
use farcaster_node.Bus.{ServiceId, ServiceId_eq, swap, farcasterd}
use farcaster_node.Syncerd.Types.{Event, TransactionConfirmations, transaction_confirmations}
use farcaster_node.Swapd.Messages.{State, Outcome, swap_outcome}
use farcaster_node.Swapd.Runtime.{World, Env, Result, ok, err, send_to}
use farcaster_node.Swapd.Runtime.Keeps.{keeps_rules}
use farcaster_node.Swapd.SwapState.Next.{next}
use farcaster_node.Swapd.Handle.{
  Incoming, addressed, abort, unaddressed, Daemon, failed, panicked, ◌then_do◌, run, ran, return,
  Arrival, from_peer, from_syncer, control, sync_task, request_of, handle_msg, handle_sync, is_peer,
  end_swap, retry_unhandled, retry_if, replay_if, replay, replays, keep_unhandled, unset_handled,
  ended, after_move, follow_up, after_next, execute_state_machine,
}
use farcaster_node.Swapd.Handle.Kept.{kept}
use farcaster_node.Swapd.Handle.Kept.Next.{next-Keeps}
use farcaster_node.Swapd.Handle.Debts.{potential, potential-bound, Replayable, of_peer, of_confs}
use farcaster_node.Swapd.Handle.Potential.{Sinks, next-Sinks}
use farcaster_node.Swapd.Handle.Stored.{Confs, AllConfs, note_event-Noted}
use farcaster_node.Swapd.Handle.Terminates.{
  Stored, level, Fine, Fine-after, Fine-weaken, Fine-perform, Fine-report,
}

-- With the fuel `fuel`, what is replayed at a potential below it is handled.
abbrev Executes : Env → ℕ → Type 0
Executes env fuel =
    (n : ℕ) (source : ServiceId) (a : Arrival) (d : Daemon)
    → n < fuel
    → Replayable (request_of a)
    → level d ≤ n
    → Stored d
    → Fine n (execute_state_machine env fuel source a d)

module _ (env : Env) (fuel : ℕ) (ih : Executes env fuel) (n : ℕ) (enough : n < fuel)
    (source : ServiceId) where
  handle_msg-Fine :
      (m : Incoming) (d : Daemon)
      → level d ≤ n
      → Stored d
      → Fine n (handle_msg (execute_state_machine env fuel) source m d)
  unfolding handle_msg request_of
  handle_msg-Fine m d h s =
      elim (Bool-cases (is_peer source && not (same d.world.runtime.peer_service source))) [
        | inl e ↦ rw e s
        | inr e ↦ rw e (passed m)
      ]
    where
      passed :
          (m : Incoming)
          → Fine n (elim m [
            | addressed swap_id msg ↦
                if same (swap swap_id) d.world.runtime.identity
                then execute_state_machine env fuel source (from_peer (addressed swap_id msg)) d
                else (failed, d)
            | abort swap_id ↦ (failed, d)
            | unaddressed ↦ (panicked, d)
          ])
      passed (addressed swap_id msg) =
          elim (Bool-cases (same (swap swap_id) d.world.runtime.identity)) [
            | inl e ↦
                rw e (ih n source (from_peer (addressed swap_id msg)) d enough (of_peer msg) h s)
            | inr e ↦ rw e s
          ]
      passed (abort swap_id) = s
      passed unaddressed = s

  retry_if-Fine :
      (o : Option Incoming) (d : Daemon)
      → level d ≤ n
      → Stored d
      → Fine n (retry_if (execute_state_machine env fuel) source o d)
  unfolding retry_if return
  retry_if-Fine none d h s = (h, s)
  retry_if-Fine (some m) d h s = handle_msg-Fine m d h s

  handle_sync-Fine :
      (c : TransactionConfirmations) (d : Daemon)
      → level d ≤ n
      → Stored d
      → Fine n
          (handle_sync env (execute_state_machine env fuel) source (transaction_confirmations c) d)
  unfolding handle_sync run request_of
  handle_sync-Fine c d h s =
      let (w, e, noted) = note_event-Noted c env source d.world in
      rw e (
        ih n source (from_syncer (transaction_confirmations c)) (record d { world = w }) enough
          (of_confs c) (rw (noted.owes d.swap_state_machine) h) (noted.keeps s))

  replay_if-Fine :
      (o : Option Event) (d : Daemon)
      → Confs o
      → level d ≤ n
      → Stored d
      → Fine n (replay_if env (execute_state_machine env fuel) source o d)
  unfolding replay_if return
  replay_if-Fine none d k h s = (h, s)
  replay_if-Fine (some (transaction_confirmations c)) d k h s = handle_sync-Fine c d h s
  replay_if-Fine (some (Event.height_changed _)) d k h s = absurd k
  replay_if-Fine (some (Event.transaction_retrieved _ _)) d k h s = absurd k
  replay_if-Fine (some (Event.transaction_broadcasted _ _ _)) d k h s = absurd k
  replay_if-Fine (some (Event.address_transaction _)) d k h s = absurd k
  replay_if-Fine (some (Event.sweep_success _ _)) d k h s = absurd k
  replay_if-Fine (some (Event.task_aborted _ _)) d k h s = absurd k
  replay_if-Fine (some (Event.fee_estimation _ _)) d k h s = absurd k
  replay_if-Fine (some (Event.empty _)) d k h s = absurd k
  replay_if-Fine (some (Event.health_result _ _)) d k h s = absurd k
  replay_if-Fine (some (Event.address_balance _ _ _ _)) d k h s = absurd k

  replays-Fine :
      (d : Daemon)
      → level d ≤ n
      → Stored d
      → Fine n (replays env (execute_state_machine env fuel) source d)
  unfolding replays ◌then_do◌ replay retry_unhandled
  replays-Fine d h s = Fine-after n _ _ (retry_if-Fine d.unhandled_peer_message d h s) (λ d h s.
      Fine-after n _ _
        (replay_if-Fine d.world.runtime.syncer_state.buy_tx_confs d s.buy_tx_confs h s)
        (λ d h s.
          Fine-after n _ _
            (replay_if-Fine d.world.runtime.syncer_state.lock_tx_confs d s.lock_tx_confs h s)
            (λ d h s.
              replay_if-Fine d.world.runtime.syncer_state.cancel_tx_confs d s.cancel_tx_confs h s)))

  end_swap-Fine :
      (outcome : Outcome) (d : Daemon) → level d ≤ n → Stored d → Fine n (end_swap env outcome d)
  unfolding end_swap ◌then_do◌
  end_swap-Fine outcome d h s = Fine-after n _ _ (Fine-report env n d h s) (λ d h s.
      Fine-after n _ _
        (Fine-perform n (send_to env farcasterd (swap_outcome outcome)) d (search (keeps_rules)) h
          s)
        (λ d h s. Fine-report env n d h s))

  follow_up-Fine :
      (a : Arrival) (o : Option Outcome) (d : Daemon)
      → level d ≤ n
      → Stored d
      → Fine n (follow_up env (execute_state_machine env fuel) source a o d)
  unfolding follow_up unset_handled
  follow_up-Fine a none d h s = replays-Fine (unset_handled a d) h s
  follow_up-Fine a (some outcome) d h s = end_swap-Fine outcome d h s

keep_unhandled-Fine :
    (n : ℕ) (a : Arrival) (d : Daemon) → level d ≤ n → Stored d → Fine n (keep_unhandled a d)
unfolding keep_unhandled
keep_unhandled-Fine n (from_peer m) d h s = (h, s)
keep_unhandled-Fine n (control r) d h s = (h, s)
keep_unhandled-Fine n (from_syncer e) d h s = (h, s)
keep_unhandled-Fine n sync_task d h s = (h, s)

-- What `next` has come to, from the state of `d`.
abbrev pub Reached : Daemon → ℕ → ℕ → Result (Option State) × World → Type 0
Reached d fuel n (ok none, w) = potential d.swap_state_machine w.runtime ≤ n
Reached d fuel n (ok (some t), w) = (potential t w.runtime < fuel) × (potential t w.runtime ≤ n)
Reached d fuel n (err, w) = Unit

after_next-Fine :
    (env : Env) (fuel : ℕ)
    → Executes env fuel
    → (n : ℕ) (source : ServiceId) (a : Arrival) (d : Daemon) (r : Result (Option State) × World)
    → AllConfs (kept r.1.runtime)
    → Reached d fuel n r
    → Fine n (ran d r (after_next env (execute_state_machine env fuel) source a))
unfolding after_next after_move
after_next-Fine env fuel ih n source a d (ok none, w) s h =
    keep_unhandled-Fine n a (record d { world = w }) h s
after_next-Fine env fuel ih n source a d (ok (some t), w) s h =
    Fine-weaken (potential t w.runtime) n _ h.1 (
      follow_up-Fine env fuel ih (potential t w.runtime) h.0 source a (ended t)
        (record d { world = w; swap_state_machine = t }) (omega arith) s)
after_next-Fine env fuel ih n source a d (err, w) s h = s

-- Where `next` is run, only confirmations are kept before and after.
next-AllConfs :
    (env : Env) (source : ServiceId) (a : Arrival) (d : Daemon)
    → Stored d
    → AllConfs (kept (next env d.swap_state_machine source (request_of a) d.world).1.runtime)
next-AllConfs env source a d s =
    subst AllConfs (sym ((next-Keeps env source d.swap_state_machine (request_of a)).keeps d.world))
      s

Sinks-Reached :
    (d : Daemon) (fuel n : ℕ) (r : Result (Option State) × World)
    → n < suc fuel
    → level d ≤ n
    → Sinks d.swap_state_machine d.world r
    → Reached d fuel n r
Sinks-Reached d fuel n (ok none, w) e h k = omega arith
Sinks-Reached d fuel n (ok (some t), w) e h k = (omega arith, omega arith)
Sinks-Reached d fuel n (err, w) e h k = tt

pub executes : (env : Env) (fuel : ℕ) → Executes env fuel
unfolding execute_state_machine run
executes env zero n source a d enough q h s = absurd (omega arith)
executes env (suc fuel) n source a d enough q h s =
    after_next-Fine env fuel (executes env fuel) n source a d _ (next-AllConfs env source a d s) (
      Sinks-Reached d fuel n (next env d.swap_state_machine source (request_of a) d.world) enough h
        (next-Sinks env source d.swap_state_machine (request_of a) d.world q))

bound-Reached :
    (d : Daemon) (fuel : ℕ) (r : Result (Option State) × World) → 114 ≤ fuel → Reached d fuel 113 r
bound-Reached d fuel (ok none, w) h = potential-bound d.swap_state_machine w.runtime
bound-Reached d fuel (ok (some t), w) h = let b = potential-bound t w.runtime in (omega arith, b)
bound-Reached d fuel (err, w) h = tt

-- Any arrival is handled with fuel for 115 calls.
pub execute_state_machine-Fine :
    (env : Env) (fuel : ℕ) (source : ServiceId) (a : Arrival) (d : Daemon)
    → 115 ≤ fuel
    → Stored d
    → Fine 113 (execute_state_machine env fuel source a d)
unfolding execute_state_machine run
execute_state_machine-Fine env zero source a d enough s = absurd (omega arith)
execute_state_machine-Fine env (suc fuel) source a d enough s =
    after_next-Fine env fuel (executes env fuel) 113 source a d _ (next-AllConfs env source a d s) (
      bound-Reached d fuel (next env d.swap_state_machine source (request_of a) d.world)
        (omega arith))
