-- ===== src/Syncerd/State/Change.antt =====
-- What a syncer learns from its chain: `change_height`, `fee_estimated`, `success_sweep`,
-- `fail_sweep` and `health_result` of src/syncerd/syncer_state.rs.
use farcaster_node.Base.{
  ℕ, Bool, true, false, not, ◌&&◌, ◌||◌, Option, none, some, List, [], ◌∷◌, if◌then◌else◌, ◌==◌,
  ltb, lookup, remove, same, ℕ_eq,
}
use farcaster_node.Base.Panics.{◌>>=◌}
use farcaster_node.Bus.{Bytes, ServiceId, Bytes_eq}
use farcaster_node.Syncerd.Types.{
  WatchHeight, WatchEstimateFee, SweepAddress, FeeEstimations, Health, Event, BridgeEvent,
  height_changed, sweep_success, task_aborted, fee_estimation, health_result as health_event,
  sweep_failed, FeeEstimations_eq,
}
use farcaster_node.Syncerd.State.{SyncerState, send_event, to, drop_lifetimes, remove_lifetime_id}

unfoldable pub handle_change_height : ℕ → Bytes → SyncerState → SyncerState
handle_change_height h b s =
    if ltb s.block_height h && not (same b s.block_hash)
    then record s { block_height = h; block_hash = b }
    else if (h == s.block_height) && not (same b s.block_hash)
    then record s { block_hash = b }
    else if ltb h s.block_height && not (same b s.block_hash)
    then record s { block_height = h; block_hash = b }
    else s

unfoldable pub height_events :
    List (ℕ × ServiceId) → Bytes → ℕ → List (ℕ × WatchHeight) → Option (List BridgeEvent)
height_events sources block height [] = some []
height_events sources block height ((id, task) ∷ rest) = do
  source ← lookup id sources
  events ← height_events sources block height rest
  some (
      to source (height_changed (record { id = task.id; block = block; height = height })) ∷ events)

-- The result says whether the tip changed.
unfoldable pub change_height : ℕ → Bytes → SyncerState → Option (Bool × SyncerState)
change_height h b s =
    if not (s.block_height == h) || not (same s.block_hash b)
    then (let t = drop_lifetimes (handle_change_height h b s) in
        do
          events ← height_events t.tasks_sources b t.block_height t.watch_height
          some (true, send_event events t))
    else some (false, s)

unfoldable pub fee_events :
    List (ℕ × ServiceId) → FeeEstimations → List (ℕ × WatchEstimateFee) → Option (List BridgeEvent)
fee_events sources fees [] = some []
fee_events sources fees ((id, task) ∷ rest) = do
  source ← lookup id sources
  events ← fee_events sources fees rest
  some (to source (fee_estimation task.id fees) ∷ events)

unfoldable pub is_cached : FeeEstimations → Option FeeEstimations → Bool
is_cached fees none = false
is_cached fees (some cached) = same cached fees

unfoldable pub fee_estimated : FeeEstimations → SyncerState → Option SyncerState
unfolding is_cached
fee_estimated fees s = if is_cached fees s.fee_estimation then some (drop_lifetimes s) else (do
  events ← fee_events s.tasks_sources fees s.watch_fee_estimation
  some (drop_lifetimes (send_event events (record s { fee_estimation = some fees }))))

-- The end of `success_sweep` and of `fail_sweep`.
unfoldable pub finish_sweep : ℕ → SweepAddress → SyncerState → SyncerState
finish_sweep id task s = record s {
  lifetimes = remove_lifetime_id task.lifetime id s.lifetimes;
  sweep_addresses = remove id s.sweep_addresses;
  tasks_sources = remove id s.tasks_sources;
}

-- An unknown sweep is ignored; for a known one the event goes to its source.
unfoldable pub sweep_ended : ℕ → (ℕ → Event) → SyncerState → Option SyncerState
unfolding finish_sweep
sweep_ended id event s = elim (lookup id s.sweep_addresses) [
  | none ↦ some s
  | some task ↦ do
    source ← lookup id s.tasks_sources
    some (finish_sweep id task (send_event (to source (event task.id) ∷ []) s))
]

unfoldable pub success_sweep : ℕ → List Bytes → SyncerState → Option SyncerState
unfolding sweep_ended
success_sweep id txids s = sweep_ended id (λ task_id. sweep_success task_id txids) s

unfoldable pub fail_sweep : ℕ → SyncerState → Option SyncerState
unfolding sweep_ended
fail_sweep id s = sweep_ended id (λ task_id. task_aborted (task_id ∷ []) (some sweep_failed)) s

unfoldable pub health_result : ℕ → Health → ServiceId → SyncerState → SyncerState
health_result id health source s = send_event (to source (health_event id health) ∷ []) s
