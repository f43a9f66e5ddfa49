-- ===== src/Swapd/TemporalSafety/Examples.antt =====
-- The thresholds of src/swapd/temporal_safety.rs at concrete parameters.
use farcaster_node.Base.{◌+◌, ◌≤◌, ◌≡◌, ◌↔◌, ℕ, true, false, refl, arith}
use farcaster_node.Bus.{bitcoin}
use farcaster_node.Base.Int.{IsNonPositive}
use farcaster_node.Swapd.TemporalSafety.{
  TemporalSafety, valid_params, final_tx, stop_funding_before_cancel, blocks_until_stop_funding,
  valid_cancel, blocks_until_cancel, safe_buy, safe_refund, valid_punish,
  blocks_until_punish_after_cancel,
}
use farcaster_node.Swapd.TemporalSafety.Windows.{
  IsValid, safe_buy-valid_cancel, safe_refund-valid_punish, safe_buy_window,
  stop_funding-valid_cancel, stop_funding_countdown, valid_of_countdowns,
}

abbrev params : TemporalSafety
params = record {
  cancel_timelock = 30;
  punish_timelock = 60;
  race_thr = 20;
  btc_finality_thr = 1;
  xmr_finality_thr = 1;
  sweep_monero_thr = 10;
}

params-IsValid : IsValid params
unfolding valid_params
params-IsValid = record { valid = refl; cancel_u32 = omega arith; punish_u32 = omega arith }

safe_buy-valid_cancel_example : valid_cancel params (10 + 19) ≡ false
unfolding safe_buy
safe_buy-valid_cancel_example = safe_buy-valid_cancel params params-IsValid 10 19 refl (omega arith)

safe_refund-valid_punish_example : valid_punish params (40 + 19) ≡ false
unfolding safe_refund
safe_refund-valid_punish_example =
    safe_refund-valid_punish params params-IsValid 40 19 refl (omega arith)

safe_buy_window_example : ((n : ℕ) × (safe_buy params n ≡ true)) ↔ (1 + 20 ≤ 30)
safe_buy_window_example = safe_buy_window params params-IsValid

stop_funding-valid_cancel_example : stop_funding_before_cancel params (30 + 5) ≡ true
unfolding valid_cancel
stop_funding-valid_cancel_example =
    stop_funding-valid_cancel params params-IsValid 30 5 (omega arith) refl

stop_funding_countdown_example :
    (stop_funding_before_cancel params (9 + 2) ≡ false)
    × (stop_funding_before_cancel params (9 + 3) ≡ true)
unfolding blocks_until_stop_funding final_tx
stop_funding_countdown_example = stop_funding_countdown params params-IsValid 9 refl refl

valid_of_countdowns_example :
    ((valid_cancel params 30 ≡ true)
      ↔ ((final_tx params 30 bitcoin ≡ true) × IsNonPositive (blocks_until_cancel params 30)))
    × ((valid_punish params 30 ≡ true) ↔ (
        (final_tx params 30 bitcoin ≡ true)
        × IsNonPositive (blocks_until_punish_after_cancel params 30)))
valid_of_countdowns_example = valid_of_countdowns params 30
