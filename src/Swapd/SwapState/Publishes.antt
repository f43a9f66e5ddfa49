-- ===== src/Swapd/SwapState/Publishes.antt =====
-- When the handlers of src/swapd/swap_state.rs may broadcast, and how they interrupt a swap whose lock
-- is out.
use farcaster_node.Base.{Option, none, refl, Bool, false, ℕ, Bool, true, ◌≡◌, some, arith, ◌&&◌}
use farcaster_node.Bus.{Bytes, bitcoin, ServiceId}
use farcaster_node.Syncerd.Types.{transaction_confirmations, TransactionConfirmations}
use farcaster_node.Swapd.Messages.{
  BuyProcedureSignature, Request, SwapRole, bob, alice, abort_swap, p2p, sync_event,
  refund_procedure_signatures, buy_procedure_signature,
}
use farcaster_node.Swapd.SyncerClient.{TxLabel, lock, buy, cancel, refund, punish}
use farcaster_node.Swapd.TemporalSafety.{TemporalSafety, final_tx, valid_cancel, valid_punish}
use farcaster_node.Swapd.Runtime.{Runtime, World, Env}
use farcaster_node.Swapd.Runtime.Casts.{Casts, quiet_rules, quiet_calls}
use farcaster_node.Swapd.Runtime.CastsOnce.{casts_rules, Casts-Quiet, Casts-confirmed}
use farcaster_node.Swapd.SwapState.Common.{
  watched_tx, broadcast_cancel, handle_bob_swap_interrupt_after_lock,
  handle_alice_swap_interrupt_after_lock,
}
use farcaster_node.Swapd.SwapState.QuietParts.{quiet_parts}
use farcaster_node.Swapd.SwapState.Graph
use farcaster_node.Swapd.Runtime.Keeps.{holds}
use farcaster_node.Swapd.SwapState.Alice.{lock_confirmations}
use farcaster_node.Swapd.SwapState.Graph.{Phase, Locked}

abbrev pub late_by : TemporalSafety → Option ℕ → Bool
late_by t none = false
late_by t (some n) = valid_cancel t n

-- The confirmations of the lock that were last seen reach the cancel timelock.
unfoldable pub too_late : Runtime → Bool
too_late r = late_by r.temporal_safety (lock_confirmations r)

pub holds-late_by :
    (o : Option ℕ) (r : Runtime)
    → holds o (λ n q. valid_cancel q.temporal_safety n) r ≡ late_by r.temporal_safety o
holds-late_by none r = refl
holds-late_by (some n) r = refl

-- When a transaction may go out: `r` is the runtime when the request arrives.
pub data May (r : Runtime) : Phase → Request → TxLabel → Type 0 where
  -- Bob's lock, once Alice has signed his refund.
  lock_signed : {s : Bytes} → May r Graph.bob_funded (p2p (refund_procedure_signatures s)) lock
  -- A cancel, once the lock is as deep as the cancel timelock.
  cancel_due :
      {role : SwapRole} {p : Phase} {c : TransactionConfirmations} (n : ℕ)
      → Locked role p
      → c.confirmations ≡ some n
      → watched_tx lock c.id r ≡ true
      → valid_cancel r.temporal_safety n ≡ true
      → May r p (sync_event (transaction_confirmations c)) cancel
  cancel_again :
      {c : TransactionConfirmations} (n : ℕ)
      → c.confirmations ≡ some n
      → watched_tx lock c.id r ≡ true
      → valid_cancel r.temporal_safety n ≡ true
      → May r Graph.alice_canceled (sync_event (transaction_confirmations c)) cancel
  -- Once Bob has signed the buy: Alice's cancel if the lock is known to be past the cancel timelock,
  -- and her buy if not.
  cancel_signed :
      {b : BuyProcedureSignature}
      → too_late r ≡ true
      → May r Graph.alice_accordant_lock (p2p (buy_procedure_signature b)) cancel
  buy_signed :
      {b : BuyProcedureSignature}
      → too_late r ≡ false
      → May r Graph.alice_accordant_lock (p2p (buy_procedure_signature b)) buy
  -- Bob's refund, once the cancel is final.
  refund_due :
      {c : TransactionConfirmations} (n : ℕ)
      → c.confirmations ≡ some n
      → watched_tx cancel c.id r ≡ true
      → final_tx r.temporal_safety n bitcoin ≡ true
      → May r Graph.bob_canceled (sync_event (transaction_confirmations c)) refund
  -- Alice's punish, once the cancel is as deep as the punish timelock.
  punish_due :
      {c : TransactionConfirmations} (n : ℕ)
      → c.confirmations ≡ some n
      → watched_tx cancel c.id r ≡ true
      → valid_punish r.temporal_safety n ≡ true
      → May r Graph.alice_canceled (sync_event (transaction_confirmations c)) punish

pub and_left : (a b : Bool) → (a && b) ≡ true → a ≡ true
and_left a b h = ground arith

pub and_right : (a b : Bool) → (a && b) ≡ true → b ≡ true
and_right a b h = ground arith

module _ (env : Env) (source : ServiceId) where
  Casts-broadcast_cancel :
      (P : TxLabel → Type 0) (w : World) → P cancel → Casts P (broadcast_cancel env) w
  unfolding broadcast_cancel
  Casts-broadcast_cancel P w h =
      search (casts_rules, quiet_rules, quiet_calls, quiet_parts) depth 20

  -- Bob's interruption in a state whose lock is out.
  pub Casts-bob_interrupt :
      (p : Phase) (q : Request) (w : World)
      → Locked bob p
      → Casts (May w.runtime p q) (handle_bob_swap_interrupt_after_lock env source q) w
  unfolding handle_bob_swap_interrupt_after_lock
  Casts-bob_interrupt p abort_swap w l =
      Casts-Quiet _ _ w (search (quiet_rules, quiet_calls, quiet_parts) depth 20)
  Casts-bob_interrupt p (sync_event (transaction_confirmations c)) w l =
      Casts-confirmed _ c.confirmations _ _ _ w
        (λ n e t. Casts-broadcast_cancel _ w (
          May.cancel_due n l e (and_left _ _ (and_right _ _ t))
            (and_left _ _ (and_right _ _ (and_right _ _ t)))))
        (Casts-Quiet _ _ w (search (quiet_rules, quiet_calls, quiet_parts) depth 20))
  Casts-bob_interrupt p _ w l =
      Casts-Quiet _ _ w (search (quiet_rules, quiet_calls, quiet_parts) depth 20)

  pub Casts-alice_interrupt :
      (p : Phase) (q : Request) (wallet : Bytes) (w : World)
      → Locked alice p
      → Casts (May w.runtime p q) (handle_alice_swap_interrupt_after_lock env source q wallet) w
  unfolding handle_alice_swap_interrupt_after_lock
  Casts-alice_interrupt p abort_swap wallet w l =
      Casts-Quiet _ _ w (search (quiet_rules, quiet_calls, quiet_parts) depth 20)
  Casts-alice_interrupt p (sync_event (transaction_confirmations c)) wallet w l =
      Casts-confirmed _ c.confirmations _ _ _ w
        (λ n e t. Casts-Quiet _ _ w (search (quiet_rules, quiet_calls, quiet_parts) depth 20))
        (Casts-confirmed _ c.confirmations _ _ _ w
          (λ n e t.
            Casts-broadcast_cancel _ w
              (May.cancel_due n l e (and_left _ _ t) (and_left _ _ (and_right _ _ t))))
          (Casts-Quiet _ _ w (search (quiet_rules, quiet_calls, quiet_parts) depth 20)))
  Casts-alice_interrupt p _ wallet w l =
      Casts-Quiet _ _ w (search (quiet_rules, quiet_calls, quiet_parts) depth 20)
