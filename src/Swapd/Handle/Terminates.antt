-- ===== src/Swapd/Handle/Terminates.antt =====
-- `execute_state_machine` of src/swapd/runtime.rs and its own calls: fuel for 114 of them.
pub mod Induction
use farcaster_node.Base.{
  ℕ, zero, suc, ◌<◌, ◌≤◌, ◌≡◌, ◌≢◌, refl, sym, ap, subst, ◌∙◌, Bool, true, false, not, ◌&&◌, Option,
  none, some, inl, inr, arith, Option-cases, Bool-cases, same,
}
use farcaster_node.Bus.{Bytes, ServiceId, ServiceId_eq, swap, farcasterd}
use farcaster_node.Syncerd.Types.{Event, TransactionConfirmations, transaction_confirmations}
use farcaster_node.Swapd.StateReport
use farcaster_node.Swapd.StateReport.{StateReport-discrete, generate_progress_update_or_transition}
use farcaster_node.Swapd.Messages.{Message, PeerMsg, State, Outcome, progress, swap_outcome}
use farcaster_node.Swapd.Runtime.{
  Runtime, World, Env, Result, ok, err, Exec, send_to, to_enquirer, send_if_any,
}
use farcaster_node.Swapd.Runtime.Keeps.{Keeps, keeps_rules}
use farcaster_node.Swapd.SwapState.Next.{next}
use farcaster_node.Swapd.Handle.{
  Incoming, addressed, abort, unaddressed, Daemon, Verdict, returned, failed, panicked, exited,
  out_of_fuel, Handler, after, ◌then_do◌, run, ran, perform, return, Arrival, from_peer,
  from_syncer, request_of, Executor, handle_msg, handle_sync, is_peer, display,
  report_potential_state_change, end_swap, retry_unhandled, replay_if, replay, replays,
  keep_unhandled, unset_handled, ended, after_move, after_next, execute_state_machine, note_event,
}
use farcaster_node.Swapd.Handle.Kept.{kept}
use farcaster_node.Swapd.Handle.Kept.Next.{next-Keeps}
use farcaster_node.Swapd.Handle.Debts.{potential, potential-bound, Replayable, of_peer, of_confs}
use farcaster_node.Swapd.Handle.Potential.{Sinks, next-Sinks}
use farcaster_node.Swapd.Handle.Stored.{Confs, AllConfs, Noted, note_event-Noted}

abbrev pub Stored : Daemon → Type 0
Stored d = AllConfs (kept d.world.runtime)

abbrev pub level : Daemon → ℕ
level d = potential d.swap_state_machine d.world.runtime

-- A handler that was not stopped for lack of fuel, and after which only confirmations are kept; if it
-- returned, the potential is at most `n`.
abbrev pub Fine : ℕ → Verdict × Daemon → Type 0
Fine n (returned, d) = (level d ≤ n) × Stored d
Fine n (failed, d) = Stored d
Fine n (panicked, d) = Stored d
Fine n (exited, d) = Stored d
Fine n (out_of_fuel, d) = ⊥

pub Fine-after :
    (n : ℕ) (x : Verdict × Daemon) (h : Handler)
    → Fine n x
    → ((d : Daemon) → level d ≤ n → Stored d → Fine n (h d))
    → Fine n (after x h)
Fine-after n (returned, d) h p k = k d p.0 p.1
Fine-after n (failed, d) h p k = p
Fine-after n (panicked, d) h p k = p
Fine-after n (exited, d) h p k = p
Fine-after n (out_of_fuel, d) h p k = p

pub Fine-weaken : (m n : ℕ) (x : Verdict × Daemon) → m ≤ n → Fine m x → Fine n x
Fine-weaken m n (returned, d) h p = (omega arith, p.1)
Fine-weaken m n (failed, d) h p = p
Fine-weaken m n (panicked, d) h p = p
Fine-weaken m n (exited, d) h p = p
Fine-weaken m n (out_of_fuel, d) h p = p

-- Code that leaves the runtime as it is.
abbrev Sends : Exec (Unit {0}) → Type 0
Sends m = Keeps (λ r. r) m

Fine-perform :
    (n : ℕ) (m : Exec (Unit {0})) (d : Daemon)
    → Sends m
    → level d ≤ n
    → Stored d
    → Fine n (perform m d)
unfolding perform run return
Fine-perform n m d k h s = go (m d.world) (k.keeps d.world)
  where
    go :
        (r : Result (Unit {0}) × World)
        → r.1.runtime ≡ d.world.runtime
        → Fine n (ran d r (λ _. return))
    go (ok a, w) e = (
      subst (λ r. potential d.swap_state_machine r ≤ n) (sym e) h,
      subst (λ r. AllConfs (kept r)) (sym e) s,
    )
    go (err, w) e = subst (λ r. AllConfs (kept r)) (sym e) s

module _ (env : Env) where
  Sends-send_if_any : (dest : Option ServiceId) (m : Message) → Sends (send_if_any env dest m)
  unfolding send_if_any
  Sends-send_if_any none m = search (keeps_rules)
  Sends-send_if_any (some dest) m = search (keeps_rules)

  Sends-to_enquirer : (m : Message) → Sends (to_enquirer env m)
  unfolding to_enquirer
  Sends-to_enquirer m = search (keeps_rules, Sends-send_if_any)

  pub Fine-report :
      (n : ℕ) (d : Daemon) → level d ≤ n → Stored d → Fine n (report_potential_state_change env d)
  unfolding report_potential_state_change
  Fine-report n d h s =
      elim (StateReport-discrete d.latest_state_report (
          StateReport.new (display d.swap_state_machine) d.world.runtime.temporal_safety
            d.world.runtime.syncer_state))
        as (λ x. Fine n (elim x [
          | yes _ ↦ (returned, d)
          | no _ ↦
              perform
                (to_enquirer env (
                  progress (
                    generate_progress_update_or_transition d.latest_state_report (
                      StateReport.new (display d.swap_state_machine) d.world.runtime.temporal_safety
                        d.world.runtime.syncer_state))))
                (record d {
                  latest_state_report =
                      StateReport.new (display d.swap_state_machine) d.world.runtime.temporal_safety
                        d.world.runtime.syncer_state;
                })
        ])) [ yes _ ↦ (h, s) | no _ ↦ Fine-perform n _ _ (Sends-to_enquirer _) h s ]
