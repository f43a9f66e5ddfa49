-- ===== src/Farcasterd/Stats/Examples.antt =====
-- The statistics of src/farcasterd/stats.rs on concrete reports.
use farcaster_node.Base.{◌≡◌, ◌%◌, List, [], ◌∷◌, member, u64_mod}
use farcaster_node.Bus.{Bytes_eq, bitcoin, monero}
use farcaster_node.Swapd.Messages.{success_swap}
use farcaster_node.Farcasterd.Stats.History.{
  Report, ended, initiated, awaiting, funded, stats_of, awaiting_set, awaits, counter, tally,
  awaiting-last_report, counter-tally,
}

-- Two swaps, of which one was funded with Bitcoin and has ended.
abbrev reports : List Report
reports =
    ended success_swap
    ∷ awaiting monero (7 ∷ [])
    ∷ funded bitcoin (7 ∷ [])
    ∷ awaiting bitcoin (8 ∷ [])
    ∷ awaiting bitcoin (7 ∷ [])
    ∷ initiated
    ∷ []

awaiting-last_report_example :
    member (8 ∷ []) (awaiting_set bitcoin (stats_of reports)) ≡ awaits bitcoin (8 ∷ []) reports
awaiting-last_report_example = awaiting-last_report bitcoin (8 ∷ []) reports

counter-tally_example :
    counter success_swap (stats_of reports) ≡ tally success_swap reports % u64_mod
counter-tally_example = counter-tally success_swap reports
