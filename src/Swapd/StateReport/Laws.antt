-- ===== src/Swapd/StateReport/Laws.antt =====
-- The flags of src/swapd/state_report.rs beside its countdowns and the thresholds.
use farcaster_node.Base.{ℕ, ◌≡◌, ◌↔◌, true, some, arith}
use farcaster_node.Bus.{Bytes}
use farcaster_node.Swapd.TemporalSafety.{TemporalSafety, final_tx}
use farcaster_node.Swapd.SyncerClient.{SyncerState, lock, get_confs}
use farcaster_node.Swapd.StateReport.{new}

-- For a lock with confirmations, the report says that it is locked exactly when it gives no block
-- more to wait for a safe buy.
pub arb_locked-blocks_until_safe_buy :
    (state : Bytes) (t : TemporalSafety) (s : SyncerState) (confs : ℕ)
    → get_confs lock s ≡ some confs
    → ((new state t s).arb_locked ≡ true) ↔ ((new state t s).blocks_until_safe_buy ≡ some 0)
unfolding new final_tx
arb_locked-blocks_until_safe_buy state t s confs e = (λ h. ground arith, λ h. ground arith)
