-- ===== src/Swapd/TemporalSafety/Windows.antt =====
-- The windows of src/swapd/temporal_safety.rs.
use farcaster_node.Base.{ℕ, ◌+◌, ◌≤◌, ◌<◌, ◌≡◌, ◌↔◌, true, false, u32_mod, arith}
use farcaster_node.Bus.{bitcoin}
use farcaster_node.Base.Int.{pos, IsNonPositive}
use farcaster_node.Swapd.TemporalSafety.{
  TemporalSafety, valid_params, final_tx, stop_funding_before_cancel, blocks_until_stop_funding,
  valid_cancel, blocks_until_cancel, safe_buy, safe_refund, valid_punish,
  blocks_until_punish_after_cancel,
}

-- Parameters that pass `valid_params`, in fields of type `u32`.
pub record IsValid (t : TemporalSafety) : Type 0 where
  pub valid : valid_params t ≡ true
  pub cancel_u32 : t.cancel_timelock < u32_mod
  pub punish_u32 : t.punish_timelock < u32_mod

module _ (t : TemporalSafety) (v : IsValid t) where
  -- If the parameters are valid and buying is safe at `n` confirmations of the lock, then
  -- cancel is not valid at `n + m` confirmations, for any `m` below the race threshold.
  pub safe_buy-valid_cancel :
      (n m : ℕ) → safe_buy t n ≡ true → m < t.race_thr → valid_cancel t (n + m) ≡ false
  unfolding valid_params safe_buy valid_cancel
  safe_buy-valid_cancel n m safe h = ground (arith, v.valid, v.cancel_u32)

  -- If the parameters are valid and refunding is safe at `n` confirmations of cancel, then
  -- punish is not valid at `n + m` confirmations, for any `m` below the race threshold.
  pub safe_refund-valid_punish :
      (n m : ℕ) → safe_refund t n ≡ true → m < t.race_thr → valid_punish t (n + m) ≡ false
  unfolding valid_params safe_refund valid_punish
  safe_refund-valid_punish n m safe h = ground (arith, v.valid, v.punish_u32)

  safe_buy_at_finality :
      t.btc_finality_thr + t.race_thr ≤ t.cancel_timelock → safe_buy t t.btc_finality_thr ≡ true
  unfolding valid_params safe_buy
  safe_buy_at_finality h = ground (arith, v.valid, v.cancel_u32)

  room_of_safe_buy :
      (n : ℕ) → safe_buy t n ≡ true → t.btc_finality_thr + t.race_thr ≤ t.cancel_timelock
  unfolding valid_params safe_buy
  room_of_safe_buy n h = ground (arith, v.valid, v.cancel_u32)

  -- With valid parameters there is a number of lock confirmations at which buying is safe exactly
  -- when the Bitcoin finality and race thresholds together fit below the cancel timelock.
  pub safe_buy_window :
      ((n : ℕ) × (safe_buy t n ≡ true)) ↔ (t.btc_finality_thr + t.race_thr ≤ t.cancel_timelock)
  safe_buy_window =
      (λ w. room_of_safe_buy w.0 w.1, λ h. (t.btc_finality_thr, safe_buy_at_finality h))

  -- With valid parameters and a race threshold of at least two blocks, funding has been stopped
  -- at every number of lock confirmations at which cancel is valid, and stays stopped afterwards.
  pub stop_funding-valid_cancel :
      (n m : ℕ)
      → 2 ≤ t.race_thr
      → valid_cancel t n ≡ true
      → stop_funding_before_cancel t (n + m) ≡ true
  unfolding valid_params stop_funding_before_cancel valid_cancel
  stop_funding-valid_cancel n m r h = ground (arith, v.valid, v.cancel_u32)

  -- With valid parameters, when `blocks_until_stop_funding` shows 0 and the lock is final three
  -- confirmations later, funding is still not stopped two confirmations later, and is stopped
  -- three confirmations later.
  pub stop_funding_countdown :
      (n : ℕ)
      → blocks_until_stop_funding t n ≡ pos 0
      → final_tx t (n + 3) bitcoin ≡ true
      → (stop_funding_before_cancel t (n + 2) ≡ false)
        × (stop_funding_before_cancel t (n + 3) ≡ true)
  unfolding valid_params stop_funding_before_cancel blocks_until_stop_funding
  stop_funding_countdown n h f =
      (ground (arith, v.valid, v.cancel_u32), ground (arith, v.valid, v.cancel_u32))

module _ (t : TemporalSafety) where
  valid_cancel-blocks_until :
      (n : ℕ)
      → (valid_cancel t n ≡ true)
        ↔ ((final_tx t n bitcoin ≡ true) × IsNonPositive (blocks_until_cancel t n))
  unfolding valid_cancel blocks_until_cancel
  valid_cancel-blocks_until n = (λ h. ground arith, λ h. ground arith)

  valid_punish-blocks_until :
      (n : ℕ)
      → (valid_punish t n ≡ true)
        ↔ ((final_tx t n bitcoin ≡ true) × IsNonPositive (blocks_until_punish_after_cancel t n))
  unfolding valid_punish blocks_until_punish_after_cancel
  valid_punish-blocks_until n = (λ h. ground arith, λ h. ground arith)

  -- Cancel is valid exactly when the lock is final and `blocks_until_cancel` has come down to 0
  -- or below, and punish is valid exactly when cancel is final and
  -- `blocks_until_punish_after_cancel` has come down to 0 or below.
  pub valid_of_countdowns :
      (n : ℕ)
      → ((valid_cancel t n ≡ true)
          ↔ ((final_tx t n bitcoin ≡ true) × IsNonPositive (blocks_until_cancel t n)))
        × ((valid_punish t n ≡ true) ↔ (
            (final_tx t n bitcoin ≡ true) × IsNonPositive (blocks_until_punish_after_cancel t n)))
  valid_of_countdowns n = (valid_cancel-blocks_until n, valid_punish-blocks_until n)
