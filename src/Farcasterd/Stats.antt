-- ===== src/Farcasterd/Stats.antt =====
-- src/farcasterd/stats.rs: the counters of the swaps of a node. The counters are `u64`; a hash set is a
-- list. `success_rate`, a float that is logged, is left out, as are the warnings.
mod History
mod Examples
use farcaster_node.Base.{ℕ, ◌+◌, ◌%◌, List, [], set_insert, set_remove, u64_mod}
use farcaster_node.Bus.{Bytes, Bytes_eq, Blockchain, bitcoin, monero}
use farcaster_node.Swapd.Messages.{
  Outcome, success_swap, failure_refund, failure_punish, failure_abort,
}

pub record Stats : Type 0 where
  pub success : ℕ
  pub refund : ℕ
  pub punish : ℕ
  pub abort : ℕ
  pub initialized : ℕ
  pub awaiting_funding_btc : List Bytes
  pub awaiting_funding_xmr : List Bytes
  pub funded_xmr : ℕ
  pub funded_btc : ℕ
  pub funding_canceled_xmr : ℕ
  pub funding_canceled_btc : ℕ

abbrev pub default : Stats
default = record {
  success = 0;
  refund = 0;
  punish = 0;
  abort = 0;
  initialized = 0;
  awaiting_funding_btc = [];
  awaiting_funding_xmr = [];
  funded_xmr = 0;
  funded_btc = 0;
  funding_canceled_xmr = 0;
  funding_canceled_btc = 0;
}

-- `+= 1` on a `u64`, as in a release build.
abbrev pub incr : ℕ → ℕ
incr n = (n + 1) % u64_mod

unfoldable pub incr_outcome : Outcome → Stats → Stats
incr_outcome success_swap s = record s { success = incr s.success }
incr_outcome failure_refund s = record s { refund = incr s.refund }
incr_outcome failure_punish s = record s { punish = incr s.punish }
incr_outcome failure_abort s = record s { abort = incr s.abort }

unfoldable pub incr_initiated : Stats → Stats
incr_initiated s = record s { initialized = incr s.initialized }

unfoldable pub incr_awaiting_funding : Blockchain → Bytes → Stats → Stats
incr_awaiting_funding monero swapid s = record s {
  awaiting_funding_xmr = set_insert swapid s.awaiting_funding_xmr;
}
incr_awaiting_funding bitcoin swapid s = record s {
  awaiting_funding_btc = set_insert swapid s.awaiting_funding_btc;
}

unfoldable pub incr_funded : Blockchain → Bytes → Stats → Stats
incr_funded monero swapid s = record s {
  funded_xmr = incr s.funded_xmr;
  awaiting_funding_xmr = set_remove swapid s.awaiting_funding_xmr;
}
incr_funded bitcoin swapid s = record s {
  funded_btc = incr s.funded_btc;
  awaiting_funding_btc = set_remove swapid s.awaiting_funding_btc;
}

unfoldable pub incr_funding_canceled : Blockchain → Bytes → Stats → Stats
incr_funding_canceled monero swapid s = record s {
  awaiting_funding_xmr = set_remove swapid s.awaiting_funding_xmr;
  funding_canceled_xmr = incr s.funding_canceled_xmr;
}
incr_funding_canceled bitcoin swapid s = record s {
  awaiting_funding_btc = set_remove swapid s.awaiting_funding_btc;
  funding_canceled_btc = incr s.funding_canceled_btc;
}
