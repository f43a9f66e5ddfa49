-- ===== src/Swapd/Handle/Debts.antt =====
-- How often the state machine of src/swapd/swap_state.rs can still move without leaving its phase on
-- the requests that src/swapd/runtime.rs replays.
use farcaster_node.Base.{
  ℕ, ◌+◌, ◌*◌, ◌-◌, ◌<◌, ◌≤◌, ◌≡◌, Bool, true, false, Option, none, some, ◌⊎◌, arith, contains_key,
}
use farcaster_node.Syncerd.Types.{TransactionConfirmations, transaction_confirmations}
use farcaster_node.Swapd.SyncerClient.{TxLabel, TxLabel_eq, buy, refund, punish, cancel}
use farcaster_node.Swapd.Messages.{State, Request, PeerMsg, p2p, sync_event}
use farcaster_node.Swapd.Runtime.{Runtime}
use farcaster_node.Swapd.SwapState.Graph.{phase}
use farcaster_node.Swapd.SwapState.Ranks.{rank, rank-bound}

abbrev pub one : Bool → ℕ
one true = 1
one false = 0

abbrev pub has_txid : TxLabel → Runtime → Bool
has_txid label r = contains_key label r.syncer_state.tasks.txids

abbrev pub has_tx : TxLabel → Runtime → Bool
has_tx label r = contains_key label r.txs

abbrev pub awaits : Runtime → Bool
awaits r = r.syncer_state.awaiting_funding

-- What a canceled swap of Alice still has to act on.
pub record Dues : Type 0 where
  pub refund_txid : Bool
  pub punish_tx : Bool
  pub cancel_tx : Bool

abbrev pub dues : Runtime → Dues
dues r = record {
  refund_txid = has_txid refund r;
  punish_tx = has_tx punish r;
  cancel_tx = has_tx cancel r;
}

abbrev pub total : Dues → ℕ
total d = one d.refund_txid + one d.punish_tx + one d.cancel_tx

abbrev pub debt : State → Runtime → ℕ
debt (State.bob_accordant_lock_final _ _ _) r = one (has_txid buy r)
debt (State.alice_arbitrating_lock_final _ _ _) r = one (awaits r)
debt (State.alice_canceled _) r = total (dues r)
debt _ r = 0

abbrev pub potential : State → Runtime → ℕ
potential s r = 10 * (11 - rank (phase s)) + debt s r

one-bound : (b : Bool) → one b ≤ 1
one-bound true = omega arith
one-bound false = omega arith

debt-bound : (s : State) (r : Runtime) → debt s r ≤ 3
debt-bound (State.bob_accordant_lock_final _ _ _) r =
    let h = one-bound (has_txid buy r) in omega arith
debt-bound (State.alice_arbitrating_lock_final _ _ _) r =
    let h = one-bound (awaits r) in omega arith
debt-bound (State.alice_canceled _) r =
    let h = one-bound (has_txid refund r) in
    let i = one-bound (has_tx punish r) in let j = one-bound (has_tx cancel r) in omega arith
debt-bound _ r = omega arith

pub potential-bound : (s : State) (r : Runtime) → potential s r ≤ 113
potential-bound s r = let h = debt-bound s r in omega arith

-- A climb pays for any debt.
pub climb-pays :
    (s t : State) (r r' : Runtime)
    → rank (phase s) < rank (phase t)
    → potential t r' < potential s r
climb-pays s t r r' h = let i = debt-bound t r' in let j = rank-bound (phase t) in omega arith

-- The requests that are replayed.
pub data Replayable : Request → Type 0 where
  of_peer : (m : PeerMsg) → Replayable (p2p m)
  of_confs : (c : TransactionConfirmations) → Replayable (sync_event (transaction_confirmations c))

-- A step from `s` with debt `n` that stays within the debt.
abbrev pub Pays : State → ℕ → Option State → Runtime → Type 0
Pays s n none r = debt s r ≤ n
Pays s n (some t) r =
    (rank (phase s) < rank (phase t)) ⊎ ((rank (phase s) ≡ rank (phase t)) × (debt t r < n))
