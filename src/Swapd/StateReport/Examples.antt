-- ===== src/Swapd/StateReport/Examples.antt =====
-- The report of src/swapd/state_report.rs on concrete swaps.
use farcaster_node.Base.{◌≡◌, ◌↔◌, refl, true, false, [], ◌∷◌, some, arith}
use farcaster_node.Swapd.TemporalSafety.{TemporalSafety}
use farcaster_node.Swapd.SyncerClient.{SyncerState, TxLabel-discrete, lock, acc_lock, get_confs}
use farcaster_node.Swapd.Runtime.Samples.{runtime}
use farcaster_node.Swapd.StateReport.{new}
use farcaster_node.Swapd.StateReport.Laws.{arb_locked-blocks_until_safe_buy}

-- Monero is final with ten confirmations, Bitcoin with one.
abbrev slow_monero : TemporalSafety
slow_monero = record (runtime.temporal_safety) { xmr_finality_thr = 10 }

-- Both locks have two confirmations.
abbrev locked : SyncerState
locked = record (runtime.syncer_state) { confirmations = (lock, some 2) ∷ (acc_lock, some 2) ∷ [] }

arb_locked-blocks_until_safe_buy_example :
    ((new [] slow_monero locked).arb_locked ≡ true)
    ↔ ((new [] slow_monero locked).blocks_until_safe_buy ≡ some 0)
unfolding get_confs TxLabel-discrete farcaster_node.Base.lookup
arb_locked-blocks_until_safe_buy_example =
    arb_locked-blocks_until_safe_buy [] slow_monero locked 2 refl
