-- ===== src/Swapd/SyncerClient/Examples.antt =====
-- The broadcasts of src/swapd/syncer_client.rs at a concrete state.
use farcaster_node.Base.{
  Option, some, ◌≡◌, refl, [], ◌∷◌, none, false, member, add32, ℕ_eq, ℕ_discrete,
}
use farcaster_node.Bus.{Bytes, bitcoin, monero, local, syncer}
use farcaster_node.Syncerd.Types.{broadcast_task}
use farcaster_node.Swapd.SyncerClient.{
  SyncerState, list_of, broadcast, transaction_broadcasted, pending_broadcast_txs,
}
use farcaster_node.Swapd.SyncerClient.Broadcasts.{pending-broadcast}

-- One broadcast is pending, under the id 3.
abbrev one_pending : SyncerState
one_pending = record {
  tasks = record {
    counter = 3;
    watched_txs = [];
    final_txs = [];
    watched_addrs = [];
    retrieving_txs = [];
    broadcasting_txs = 3 ∷ [];
    sweeping_addr = none;
    txids = [];
    tasks =
        (3, broadcast_task (record { id = 3; tx = 9 ∷ []; broadcast_after_height = none })) ∷ [];
  };
  bitcoin_height = 0;
  monero_height = 0;
  confirmation_bound = 50000;
  lock_tx_confs = none;
  cancel_tx_confs = none;
  buy_tx_confs = none;
  network = local;
  bitcoin_syncer = syncer bitcoin local;
  monero_syncer = syncer monero local;
  xmr_addr_addendum = none;
  confirmations = [];
  awaiting_funding = false;
}

-- Every transaction but the empty one decodes.
abbrev decode : Bytes → Option Bytes
decode [] = none
decode (b ∷ tx) = some (b ∷ tx)

pending-broadcast_example :
    (pending_broadcast_txs decode (broadcast (7 ∷ []) one_pending).1
      ≡ (7 ∷ []) ∷ pending_broadcast_txs decode one_pending)
    × (pending_broadcast_txs decode
          (transaction_broadcasted (add32 3 1) (broadcast (7 ∷ []) one_pending).1)
        ≡ pending_broadcast_txs decode one_pending)
unfolding list_of member ℕ_discrete
pending-broadcast_example = pending-broadcast decode (7 ∷ []) one_pending refl
