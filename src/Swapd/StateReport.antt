-- ===== src/Swapd/StateReport.antt =====
-- src/swapd/state_report.rs: what a swap tells its clients about its state. Texts are lists of codes.
mod Laws
mod Examples
use farcaster_node.Base.{ℕ, ◌-◌, Bool, true, false, Option, none, some, ℕ_discrete, Eq}
use farcaster_node.Base.Int.{ℤ}
use farcaster_node.Bus.{Bytes, Bytes-discrete, bitcoin}
use farcaster_node.Swapd.TemporalSafety.{
  TemporalSafety, final_tx, blocks_until_cancel, blocks_until_punish_after_cancel,
}
use farcaster_node.Swapd.SyncerClient.{
  SyncerState, TxLabel, lock, acc_lock, cancel, buy, refund, get_confs,
}

pub record StateReport : Type 0 where
  pub state : Bytes
  pub arb_block_height : ℕ
  pub acc_block_height : ℕ
  pub arb_locked : Bool
  pub acc_locked : Bool
  pub canceled : Bool
  pub buy_seen : Bool
  pub refund_seen : Bool
  pub overfunded : Bool
  pub arb_lock_confirmations : Option ℕ
  pub acc_lock_confirmations : Option ℕ
  pub cancel_confirmations : Option ℕ
  pub blocks_until_cancel_possible : Option ℤ
  pub blocks_until_punish_possible : Option ℤ
  pub blocks_until_safe_buy : Option ℕ
  pub blocks_until_safe_monero_buy_sweep : Option ℕ

unfoldable pub StateReport-discrete : Discrete StateReport
StateReport-discrete = hlevel ℕ_discrete

instance abbrev pub StateReport_eq : Eq StateReport
StateReport_eq = record { eq_dec = StateReport-discrete }

abbrev pub unwrap_or_zero : Option ℕ → ℕ
unwrap_or_zero none = 0
unwrap_or_zero (some n) = n

abbrev pub is_some : Option ℕ → Bool
is_some none = false
is_some (some n) = true

abbrev pub map_confs : {A : Type 0} → (ℕ → A) → Option ℕ → Option A
map_confs f none = none
map_confs f (some n) = some (f n)

-- `StateReport::new`. Whether the Monero lock is final goes by the threshold for Bitcoin, as in the
-- code; `checked_sub(..).unwrap_or(0)` is the subtraction that stops at 0.
unfoldable pub new : Bytes → TemporalSafety → SyncerState → StateReport
new state t s = record {
  state = state;
  arb_block_height = s.bitcoin_height;
  acc_block_height = s.monero_height;
  arb_locked = final_tx t (unwrap_or_zero (get_confs lock s)) bitcoin;
  acc_locked = final_tx t (unwrap_or_zero (get_confs acc_lock s)) bitcoin;
  canceled = final_tx t (unwrap_or_zero (get_confs cancel s)) bitcoin;
  buy_seen = is_some (get_confs buy s);
  refund_seen = is_some (get_confs refund s);
  overfunded = false;
  arb_lock_confirmations = get_confs lock s;
  acc_lock_confirmations = get_confs acc_lock s;
  cancel_confirmations = get_confs cancel s;
  blocks_until_cancel_possible = map_confs (blocks_until_cancel t) (get_confs lock s);
  blocks_until_punish_possible =
      map_confs (blocks_until_punish_after_cancel t) (get_confs cancel s);
  blocks_until_safe_buy = map_confs (λ c. t.btc_finality_thr - c) (get_confs lock s);
  blocks_until_safe_monero_buy_sweep =
      map_confs (λ c. t.sweep_monero_thr - c) (get_confs acc_lock s);
}

pub data Progress : Type 0 where
  message : Progress
  state_update : StateReport → Progress
  state_transition : StateReport → StateReport → Progress

unfoldable pub generate_progress_update_or_transition : StateReport → StateReport → Progress
generate_progress_update_or_transition old new_report =
    elim (Bytes-discrete old.state new_report.state) [
      | yes _ ↦ state_update new_report
      | no _ ↦ state_transition old new_report
    ]
