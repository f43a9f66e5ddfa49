-- ===== src/Swapd/Runtime/Samples.antt =====
-- A wallet, a bus and a runtime of a swap (src/swapd/runtime.rs) to try its operations on.
use farcaster_node.Base.{[], ◌∷◌, none, some, true, false}
use farcaster_node.Bus.{loopback, local, syncer, bitcoin, monero}
use farcaster_node.Swapd.SyncerClient.{cancel, acc_lock, punish}
use farcaster_node.Swapd.Messages.{bob_params, alice_params}
use farcaster_node.Swapd.Runtime.{Runtime, World, Env}

-- A wallet that answers with fixed bytes, on a bus that delivers everything.
abbrev pub env : Env
env = record {
  delivers = λ trace dest m. true;
  new_taker = λ _ _ _ _. some (1 ∷ [], []);
  new_maker = λ _ _ _ _ _. some (1 ∷ [], []);
  local_params = λ wallet. bob_params wallet;
  commit = λ _. 2 ∷ [];
  validate_reveal = λ reveal _. some (alice_params reveal);
  handle_maker_commit = λ wallet commit. some (commit, wallet);
  handle_alice_reveals = λ wallet _. some (none, wallet);
  handle_bob_reveals = λ wallet _. some (none, wallet);
  funding_address = λ _. some (3 ∷ []);
  process_funding_tx = λ wallet _. some wallet;
  create_core_arb = λ wallet.
      some (record { lock = 4 ∷ []; cancel = 5 ∷ []; refund = 6 ∷ []; signature = [] }, wallet);
  handle_refund_procedure_signatures = λ wallet _. none;
  handle_core_arbitrating_setup = λ wallet _. none;
  handle_buy_procedure_signature = λ wallet _. none;
  process_buy_tx = λ wallet _ _. none;
  process_refund_tx = λ wallet _ _. none;
  process_get_sweep_bitcoin_address = λ wallet _. none;
  aggregate_xmr_spend_view = λ a b. (a, b);
  address_from_viewpair = λ spend view. spend;
  deserialize = λ tx. some tx;
  consensus_decode = λ tx. some tx;
  extract_tx = λ tx. tx;
  txid = λ tx. tx;
  p2wpkh_signed_tx_fee = λ rate. rate;
}

-- A swap that watches the cancel as task 2 and the Monero lock's address as task 3.
abbrev pub runtime : Runtime
runtime = record {
  swap_id = 8 ∷ [];
  identity = loopback;
  peer_service = loopback;
  connected = true;
  enquirer = none;
  syncer_state = record {
    tasks = record {
      counter = 3;
      watched_txs = (2, cancel) ∷ [];
      final_txs = [];
      watched_addrs = (3, acc_lock) ∷ [];
      retrieving_txs = [];
      broadcasting_txs = [];
      sweeping_addr = none;
      txids = [];
      tasks = [];
    };
    bitcoin_height = 100;
    monero_height = 100;
    confirmation_bound = 50000;
    lock_tx_confs = none;
    cancel_tx_confs = none;
    buy_tx_confs = none;
    network = local;
    bitcoin_syncer = syncer bitcoin local;
    monero_syncer = syncer monero local;
    xmr_addr_addendum = none;
    confirmations = [];
    awaiting_funding = false;
  };
  temporal_safety = record {
    cancel_timelock = 30;
    punish_timelock = 60;
    race_thr = 20;
    btc_finality_thr = 1;
    xmr_finality_thr = 1;
    sweep_monero_thr = 10;
  };
  pending_peer_request = [];
  txs = (punish, 9 ∷ []) ∷ [];
  accordant_amount = 5;
  arbitrating_amount = 5;
  monero_address_creation_height = none;
}

abbrev pub world : World
world = record { runtime = runtime; trace = [] }
