-- ===== src/Swapd/TemporalSafety.antt =====
-- src/swapd/temporal_safety.rs: the confirmation thresholds that decide when a swap may move.
pub mod Windows
mod Examples
use farcaster_node.Base.{ℕ, ◌+◌, Bool, ◌&&◌, ltb, leb, add32, sub32}
use farcaster_node.Bus.{Blockchain, bitcoin, monero}
use farcaster_node.Base.Int.{ℤ, sub_ℕ}

abbrev pub sweep_monero_threshold : ℕ
sweep_monero_threshold = 10

pub record TemporalSafety : Type 0 where
  pub cancel_timelock : ℕ
  pub punish_timelock : ℕ
  pub race_thr : ℕ
  pub btc_finality_thr : ℕ
  pub xmr_finality_thr : ℕ
  pub sweep_monero_thr : ℕ

-- `true` is `Ok(())`, `false` the error.
pub valid_params : TemporalSafety → Bool
valid_params t =
    ltb btc_finality cancel
    && (ltb cancel punish && (ltb btc_finality race && (ltb race punish && ltb race cancel)))
  where
    open t use {
      btc_finality_thr as btc_finality, cancel_timelock as cancel, punish_timelock as punish,
      race_thr as race,
    }

finality_thr : TemporalSafety → Blockchain → ℕ
finality_thr t bitcoin = t.btc_finality_thr
finality_thr t monero = t.xmr_finality_thr

unfoldable pub final_tx : TemporalSafety → ℕ → Blockchain → Bool
unfolding finality_thr
final_tx t confs blockchain = leb (finality_thr t blockchain) confs

unfoldable pub stop_funding_before_cancel : TemporalSafety → ℕ → Bool
unfolding final_tx
stop_funding_before_cancel t lock_confirmations =
    final_tx t lock_confirmations bitcoin
    && ltb (add32 (sub32 t.cancel_timelock t.race_thr) 1) lock_confirmations

pub blocks_until_stop_funding : TemporalSafety → ℕ → ℤ
blocks_until_stop_funding t lock_confirmations =
    sub_ℕ t.cancel_timelock (t.race_thr + 1 + lock_confirmations)

unfoldable pub valid_cancel : TemporalSafety → ℕ → Bool
unfolding final_tx
valid_cancel t lock_confirmations =
    final_tx t lock_confirmations bitcoin && leb t.cancel_timelock lock_confirmations

pub blocks_until_cancel : TemporalSafety → ℕ → ℤ
blocks_until_cancel t lock_confirmations = sub_ℕ t.cancel_timelock lock_confirmations

pub safe_buy : TemporalSafety → ℕ → Bool
unfolding final_tx
safe_buy t lock_confirmations =
    final_tx t lock_confirmations bitcoin
    && leb lock_confirmations (sub32 t.cancel_timelock t.race_thr)

unfoldable pub safe_refund : TemporalSafety → ℕ → Bool
unfolding final_tx
safe_refund t cancel_confirmations =
    final_tx t cancel_confirmations bitcoin
    && leb cancel_confirmations (sub32 t.punish_timelock t.race_thr)

unfoldable pub valid_punish : TemporalSafety → ℕ → Bool
unfolding final_tx
valid_punish t cancel_confirmations =
    final_tx t cancel_confirmations bitcoin && leb t.punish_timelock cancel_confirmations

pub blocks_until_punish_after_cancel : TemporalSafety → ℕ → ℤ
blocks_until_punish_after_cancel t cancel_confirmations =
    sub_ℕ t.punish_timelock cancel_confirmations
