-- ===== src/Farcasterd/Stats/History.antt =====
-- The statistics of src/farcasterd/stats.rs against the list of all that was reported to them.
use farcaster_node.Base.{
  ℕ, ◌+◌, ◌%◌, ◌≡◌, refl, ap, ◌∙◌, Bool, true, false, ◌&&◌, List, [], ◌∷◌, if◌then◌else◌, same,
  member, member-set_insert, member-set_remove, u64_mod, arith,
}
use farcaster_node.Bus.{Bytes, Bytes_eq, Blockchain, bitcoin, monero}
use farcaster_node.Swapd.Messages.{
  Outcome, success_swap, failure_refund, failure_punish, failure_abort,
}
use farcaster_node.Farcasterd.Stats.{
  Stats, default, incr_outcome, incr_initiated, incr_awaiting_funding, incr_funded,
  incr_funding_canceled,
}

pub data Report : Type 0 where
  ended : Outcome → Report
  initiated : Report
  awaiting funded canceled : Blockchain → Bytes → Report

abbrev pub note : Report → Stats → Stats
note (ended o) = incr_outcome o
note initiated = incr_initiated
note (awaiting b id) = incr_awaiting_funding b id
note (funded b id) = incr_funded b id
note (canceled b id) = incr_funding_canceled b id

-- The statistics after the reports, the newest first.
abbrev pub stats_of : List Report → Stats
stats_of [] = default
stats_of (r ∷ rs) = note r (stats_of rs)

abbrev pub awaiting_set : Blockchain → Stats → List Bytes
awaiting_set bitcoin s = s.awaiting_funding_btc
awaiting_set monero s = s.awaiting_funding_xmr

abbrev pub same_chain : Blockchain → Blockchain → Bool
same_chain bitcoin bitcoin = true
same_chain monero monero = true
same_chain bitcoin monero = false
same_chain monero bitcoin = false

-- Whether the last report on the funding of a swap on a chain is that it is awaited.
abbrev pub awaits : Blockchain → Bytes → List Report → Bool
awaits b id [] = false
awaits b id (awaiting c k ∷ rs) =
    let rest = awaits b id rs in if same_chain b c && same k id then true else rest
awaits b id (funded c k ∷ rs) =
    let rest = awaits b id rs in if same_chain b c && same k id then false else rest
awaits b id (canceled c k ∷ rs) =
    let rest = awaits b id rs in if same_chain b c && same k id then false else rest
awaits b id (ended o ∷ rs) = awaits b id rs
awaits b id (initiated ∷ rs) = awaits b id rs

incr_awaiting_funding-member :
    (b c : Blockchain) (k id : Bytes) (s : Stats)
    → member id (awaiting_set b (incr_awaiting_funding c k s))
      ≡ (if same_chain b c && same k id then true else member id (awaiting_set b s))
unfolding incr_awaiting_funding
incr_awaiting_funding-member bitcoin bitcoin k id s =
    ground (arith, member-set_insert id k s.awaiting_funding_btc)
incr_awaiting_funding-member monero monero k id s =
    ground (arith, member-set_insert id k s.awaiting_funding_xmr)
incr_awaiting_funding-member bitcoin monero k id s = refl
incr_awaiting_funding-member monero bitcoin k id s = refl

incr_funded-member :
    (b c : Blockchain) (k id : Bytes) (s : Stats)
    → member id (awaiting_set b (incr_funded c k s))
      ≡ (if same_chain b c && same k id then false else member id (awaiting_set b s))
unfolding incr_funded
incr_funded-member bitcoin bitcoin k id s =
    ground (arith, member-set_remove id k s.awaiting_funding_btc)
incr_funded-member monero monero k id s =
    ground (arith, member-set_remove id k s.awaiting_funding_xmr)
incr_funded-member bitcoin monero k id s = refl
incr_funded-member monero bitcoin k id s = refl

incr_funding_canceled-member :
    (b c : Blockchain) (k id : Bytes) (s : Stats)
    → member id (awaiting_set b (incr_funding_canceled c k s))
      ≡ (if same_chain b c && same k id then false else member id (awaiting_set b s))
unfolding incr_funding_canceled
incr_funding_canceled-member bitcoin bitcoin k id s =
    ground (arith, member-set_remove id k s.awaiting_funding_btc)
incr_funding_canceled-member monero monero k id s =
    ground (arith, member-set_remove id k s.awaiting_funding_xmr)
incr_funding_canceled-member bitcoin monero k id s = refl
incr_funding_canceled-member monero bitcoin k id s = refl

incr_outcome-awaiting :
    (b : Blockchain) (o : Outcome) (s : Stats)
    → awaiting_set b (incr_outcome o s) ≡ awaiting_set b s
unfolding incr_outcome
incr_outcome-awaiting b o s = ground arith

incr_initiated-awaiting :
    (b : Blockchain) (s : Stats) → awaiting_set b (incr_initiated s) ≡ awaiting_set b s
unfolding incr_initiated
incr_initiated-awaiting b s = ground arith

-- A swap is among those that await funding on a chain exactly if the last report on its funding
-- there is that it is awaited, whatever was reported of other swaps, of the other chain or between.
pub awaiting-last_report :
    (b : Blockchain) (id : Bytes) (rs : List Report)
    → member id (awaiting_set b (stats_of rs)) ≡ awaits b id rs
unfolding member
awaiting-last_report bitcoin id [] = refl
awaiting-last_report monero id [] = refl
awaiting-last_report b id (ended o ∷ rs) =
    ap (member id) (incr_outcome-awaiting b o (stats_of rs)) ∙ awaiting-last_report b id rs
awaiting-last_report b id (initiated ∷ rs) =
    ap (member id) (incr_initiated-awaiting b (stats_of rs)) ∙ awaiting-last_report b id rs
awaiting-last_report b id (awaiting c k ∷ rs) =
    incr_awaiting_funding-member b c k id (stats_of rs)
    ∙ ap (λ m. if same_chain b c && same k id then true else m) (awaiting-last_report b id rs)
awaiting-last_report b id (funded c k ∷ rs) =
    incr_funded-member b c k id (stats_of rs)
    ∙ ap (λ m. if same_chain b c && same k id then false else m) (awaiting-last_report b id rs)
awaiting-last_report b id (canceled c k ∷ rs) =
    incr_funding_canceled-member b c k id (stats_of rs)
    ∙ ap (λ m. if same_chain b c && same k id then false else m) (awaiting-last_report b id rs)

abbrev pub counter : Outcome → Stats → ℕ
counter success_swap s = s.success
counter failure_refund s = s.refund
counter failure_punish s = s.punish
counter failure_abort s = s.abort

abbrev pub one_if_same : Outcome → Outcome → ℕ
one_if_same success_swap success_swap = 1
one_if_same failure_refund failure_refund = 1
one_if_same failure_punish failure_punish = 1
one_if_same failure_abort failure_abort = 1
one_if_same _ _ = 0

-- How many swaps have ended with an outcome.
abbrev pub tally : Outcome → List Report → ℕ
tally o [] = 0
tally o (ended p ∷ rs) = let rest = tally o rs in rest + one_if_same o p
tally o (initiated ∷ rs) = tally o rs
tally o (awaiting _ _ ∷ rs) = tally o rs
tally o (funded _ _ ∷ rs) = tally o rs
tally o (canceled _ _ ∷ rs) = tally o rs

incr_outcome-counter :
    (o p : Outcome) (s : Stats)
    → counter o s ≡ counter o s % u64_mod
    → counter o (incr_outcome p s) ≡ (counter o s + one_if_same o p) % u64_mod
unfolding incr_outcome
incr_outcome-counter o p s h = ground arith

-- Each of the four counters of outcomes is the number of swaps that were reported to have ended with
-- it, modulo the size of a `u64`.
pub counter-tally :
    (o : Outcome) (rs : List Report) → counter o (stats_of rs) ≡ tally o rs % u64_mod
unfolding incr_initiated incr_awaiting_funding incr_funded incr_funding_canceled
counter-tally o [] = ground arith
counter-tally o (ended p ∷ rs) =
    let h = counter-tally o rs in incr_outcome-counter o p (stats_of rs) (omega arith) ∙ omega arith
counter-tally o (initiated ∷ rs) = ground (arith, counter-tally o rs)
counter-tally o (awaiting b k ∷ rs) = ground (arith, counter-tally o rs)
counter-tally o (funded b k ∷ rs) = ground (arith, counter-tally o rs)
counter-tally o (canceled b k ∷ rs) = ground (arith, counter-tally o rs)
