-- ===== src/Swapd/Handle/Kept/Next.antt =====
-- `next` of src/swapd/swap_state.rs on the confirmations kept for a replay.
use farcaster_node.Base.{none}
use farcaster_node.Bus.{ServiceId}
use farcaster_node.Swapd.Messages.{Request, State}
use farcaster_node.Swapd.Runtime.{Env}
use farcaster_node.Swapd.Runtime.Keeps.{Keeps, Keeps-done}
use farcaster_node.Swapd.SwapState.Next.{next}
use farcaster_node.Swapd.Handle.Kept.{kept}
use farcaster_node.Swapd.Handle.Kept.Start
use farcaster_node.Swapd.Handle.Kept.Bob
use farcaster_node.Swapd.Handle.Kept.Alice

module _ (env : Env) (source : ServiceId) where
  pub next-Keeps : (s : State) (q : Request) → Keeps kept (next env s source q)
  unfolding next
  next-Keeps (State.start_taker r) q = Start.start_taker-Keeps env source r q
  next-Keeps (State.start_maker r) q = Start.start_maker-Keeps env source r q
  next-Keeps (State.bob_init_taker l w) q = Start.bob_init_taker-Keeps env source l w q
  next-Keeps (State.alice_init_taker l w) q = Start.alice_init_taker-Keeps env source l w q
  next-Keeps (State.bob_init_maker l c w) q = Start.bob_init_maker-Keeps env source l c w q
  next-Keeps (State.bob_taker_maker_commit l c w) q =
      Start.bob_taker_maker_commit-Keeps env source l c w q
  next-Keeps (State.alice_init_maker l c w) q = Start.alice_init_maker-Keeps env source l c w q
  next-Keeps (State.alice_taker_maker_commit l c w) q =
      Start.alice_taker_maker_commit-Keeps env source l c w q
  next-Keeps (State.bob_reveal l r w) q = Start.bob_reveal-Keeps env source l r w q
  next-Keeps (State.bob_fee_estimated l m r w) q =
      Start.bob_fee_estimated-Keeps env source l m r w q
  next-Keeps (State.bob_funded l r w) q = Start.bob_funded-Keeps env source l r w q
  next-Keeps (State.bob_refund_procedure_signatures l r w b) q =
      Bob.bob_refund_procedure_signatures-Keeps env source l r w b q
  next-Keeps (State.bob_accordant_lock l r w b) q =
      Bob.bob_accordant_lock-Keeps env source l r w b q
  next-Keeps (State.bob_accordant_lock_final l r w) q =
      Bob.bob_accordant_lock_final-Keeps env source l r w q
  next-Keeps (State.bob_buy_final s) q = Bob.bob_buy_final-Keeps env source s q
  next-Keeps State.bob_buy_sweeping q = Bob.bob_buy_sweeping-Keeps env source q
  next-Keeps State.bob_canceled q = Bob.bob_canceled-Keeps env source q
  next-Keeps State.bob_cancel_final q = Bob.bob_cancel_final-Keeps env source q
  next-Keeps State.bob_abort_awaiting_bitcoin_sweep q =
      Bob.bob_abort_awaiting_bitcoin_sweep-Keeps env source q
  next-Keeps (State.alice_reveal l r w) q = Alice.alice_reveal-Keeps env source l r w q
  next-Keeps (State.alice_core_arbitrating_setup l r w) q =
      Alice.alice_core_arbitrating_setup-Keeps env source l r w q
  next-Keeps (State.alice_arbitrating_lock_final w i m) q =
      Alice.alice_arbitrating_lock_final-Keeps env source w i m q
  next-Keeps (State.alice_accordant_lock w) q = Alice.alice_accordant_lock-Keeps env source w q
  next-Keeps State.alice_buy_procedure_signature q =
      Alice.alice_buy_procedure_signature-Keeps env source q
  next-Keeps (State.alice_canceled w) q = Alice.alice_canceled-Keeps env source w q
  next-Keeps (State.alice_refund s) q = Alice.alice_refund-Keeps env source s q
  next-Keeps State.alice_refund_sweeping q = Alice.alice_refund_sweeping-Keeps env source q
  next-Keeps (State.swap_end o) q = Keeps-done kept none
