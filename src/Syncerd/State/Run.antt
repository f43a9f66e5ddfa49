-- ===== src/Syncerd/State/Run.antt =====
-- The calls that the syncers make on `SyncerState` of src/syncerd/syncer_state.rs, one after another.
use farcaster_node.Base.{ℕ, Bool, Option, some, List, [], ◌∷◌}
use farcaster_node.Base.Panics.{◌>>=◌}
use farcaster_node.Bus.{Bytes, ServiceId}
use farcaster_node.Syncerd.Types.{
  TaskTarget, WatchHeight, WatchAddress, WatchTransaction, WatchEstimateFee, SweepAddress,
  AddressAddendum, FeeEstimations, Health,
}
use farcaster_node.Syncerd.State.{SyncerState, AddressTx}
use farcaster_node.Syncerd.State.Watch
use farcaster_node.Syncerd.State.Abort
use farcaster_node.Syncerd.State.Change
use farcaster_node.Syncerd.State.ChangeAddress
use farcaster_node.Syncerd.State.ChangeTransaction

pub data Call : Type 0 where
  abort : TaskTarget → ServiceId → Bool → Call
  watch_height : WatchHeight → ServiceId → Call
  watch_address : WatchAddress → ServiceId → Call
  address_subscribed : ℕ → Call
  unsubscribe_addresses : Call
  watch_transaction : WatchTransaction → ServiceId → Call
  estimate_fee : WatchEstimateFee → ServiceId → Call
  sweep_address : SweepAddress → ServiceId → Call
  change_height : ℕ → Bytes → Call
  change_address : AddressAddendum → List AddressTx → Call
  change_transaction : Bytes → Option Bytes → Option ℕ → Bytes → Call
  success_sweep : ℕ → List Bytes → Call
  fail_sweep : ℕ → Call
  fee_estimated : FeeEstimations → Call
  health_result : ℕ → Health → ServiceId → Call

unfoldable pub step : Call → SyncerState → Option SyncerState
step (abort target source respond) s = some (Abort.abort target source respond s)
step (watch_height task source) s = some (Watch.watch_height task source s)
step (watch_address task source) s = some (Watch.watch_address task source s)
step (address_subscribed id) s = some (Watch.address_subscribed id s)
step unsubscribe_addresses s = some (Watch.unsubscribe_addresses s)
step (watch_transaction task source) s = some (Watch.watch_transaction task source s)
step (estimate_fee task source) s = some (Watch.estimate_fee task source s)
step (sweep_address task source) s = some (Watch.sweep_address task source s)
step (change_height height block) s = do (_, t) ← Change.change_height height block s; some t
step (change_address addendum txs) s = ChangeAddress.change_address addendum txs s
step (change_transaction tx_id block confirmations tx) s =
    ChangeTransaction.change_transaction tx_id block confirmations tx s
step (success_sweep id txids) s = Change.success_sweep id txids s
step (fail_sweep id) s = Change.fail_sweep id s
step (fee_estimated fees) s = Change.fee_estimated fees s
step (health_result id health source) s = some (Change.health_result id health source s)

unfoldable pub run : List Call → SyncerState → Option SyncerState
run [] s = some s
run (c ∷ cs) s = do t ← step c s; run cs t
