-- ===== src/Swapd/Runtime.antt =====
-- `Runtime` of src/swapd/runtime.rs, the state beside the state machine of a swap, and the calls on
-- it. What runs on it may fail with an error, and what was done before the error stays done. Of the
-- runtime's log lines only that of `broadcast` is kept.
pub mod Rules
pub mod Plain
pub mod Casts
pub mod CastsOnce
pub mod Keeps
pub mod Samples
pub use farcaster_node.Base.{Result, ok, err}
use farcaster_node.Base.{
  ℕ, ◌+◌, Bool, true, false, Option, none, some, List, [], ◌∷◌, ◌++◌, if◌then◌else◌, ◌%◌, u64_mod,
}
use farcaster_node.Bus.{
  Bytes, Blockchain, bitcoin, monero, ServiceId, grpcd_client, grpcd, farcasterd, database, peer,
}
use farcaster_node.Syncerd.Types.{Task, SweepMoneroAddress, SweepBitcoinAddress}
use farcaster_node.Swapd.TemporalSafety.{TemporalSafety}
use farcaster_node.Swapd.SyncerClient.{TxLabel, SyncerState}
use farcaster_node.Swapd.SyncerClient
use farcaster_node.Swapd.Messages.{
  Params, CoreArbitratingSetup, BuyProcedureSignature, PeerMsg, State, Effect, Message, send,
  broadcasting, task, peer_msg, peerd_unreachable, checkpoint, bitcoin_funding_info, progress_text,
  info_text, failure_text, set_address_secret_key, funding_canceled,
}

pub record Runtime : Type 0 where
  pub swap_id : Bytes
  pub identity : ServiceId
  pub peer_service : ServiceId
  pub connected : Bool
  pub enquirer : Option ServiceId
  pub syncer_state : SyncerState
  pub temporal_safety : TemporalSafety
  pub pending_peer_request : List PeerMsg
  pub txs : List (TxLabel × Bytes)
  pub accordant_amount : ℕ
  pub arbitrating_amount : ℕ
  pub monero_address_creation_height : Option ℕ

-- The runtime with all that it has done, newest first.
pub record World : Type 0 where
  pub runtime : Runtime
  pub trace : List Effect

-- What the swap calls and does not implement: the wallet (src/swapd/wallet.rs, over the crates for
-- Bitcoin, Monero and the swap protocol), where `none` is an error and a list of keys is what the
-- wallet has `databased` store, and whether the bus delivers a message after what was sent before.
pub record Env : Type 0 where
  pub delivers : List Effect → ServiceId → Message → Bool
  pub new_taker : Bytes → Bytes → Bytes → Bytes → Option (Bytes × List Bytes)
  pub new_maker : Bytes → Bytes → Bytes → Bytes → Bytes → Option (Bytes × List Bytes)
  pub local_params : Bytes → Params
  pub commit : Params → Bytes
  pub validate_reveal : Bytes → Bytes → Option Params
  pub handle_maker_commit : Bytes → Bytes → Option (Bytes × Bytes)
  pub handle_alice_reveals : Bytes → Bytes → Option (Option Bytes × Bytes)
  pub handle_bob_reveals : Bytes → Bytes → Option (Option Bytes × Bytes)
  pub funding_address : Bytes → Option Bytes
  pub process_funding_tx : Bytes → Bytes → Option Bytes
  pub create_core_arb : Bytes → Option (CoreArbitratingSetup × Bytes)
  pub handle_refund_procedure_signatures :
      Bytes
      → Bytes
      → Option (
          BuyProcedureSignature
          × record { lock_tx : Bytes; cancel_tx : Bytes; refund_tx : Bytes }
          × Bytes)
  pub handle_core_arbitrating_setup :
      Bytes
      → CoreArbitratingSetup
      → Option (Bytes × record { cancel_tx : Bytes; punish_tx : Bytes } × Bytes)
  pub handle_buy_procedure_signature :
      Bytes → BuyProcedureSignature → Option (record { cancel_tx : Bytes; buy_tx : Bytes } × Bytes)
  pub process_buy_tx : Bytes → Bytes → Option ℕ → Option (SweepMoneroAddress × Bytes × List Bytes)
  pub process_refund_tx :
      Bytes → Bytes → Option ℕ → Option (SweepMoneroAddress × Bytes × List Bytes)
  pub process_get_sweep_bitcoin_address : Bytes → Bytes → Option (SweepBitcoinAddress × Bytes)
  pub aggregate_xmr_spend_view : Bytes → Bytes → Bytes × Bytes
  pub address_from_viewpair : Bytes → Bytes → Bytes
  pub deserialize : Bytes → Option Bytes
  pub consensus_decode : Bytes → Option Bytes
  pub extract_tx : Bytes → Bytes
  pub txid : Bytes → Bytes
  pub p2wpkh_signed_tx_fee : ℕ → ℕ

abbrev pub Exec : Type 0 → Type 0
Exec A = World → Result A × World

module _ {A : Type 0} where
  unfoldable pub done : A → Exec A
  done a w = (ok a, w)

  unfoldable pub fail : Exec A
  fail w = (err, w)

  unfoldable pub lift : Option A → Exec A
  lift none w = (err, w)
  lift (some a) w = (ok a, w)

  unfoldable pub gets : (Runtime → A) → Exec A
  gets f w = (ok (f w.runtime), w)

  -- A call on the syncer state that returns a value.
  unfoldable pub on_syncer : (SyncerState → A × SyncerState) → Exec A
  on_syncer f w =
      let (a, s) = f w.runtime.syncer_state in
      (ok a, record w { runtime = record (w.runtime) { syncer_state = s } })

module _ {A : Type 0} where
  -- A branch on the runtime, as the guard of a match arm.
  unfoldable pub guarded : (Runtime → Bool) → Exec A → Exec A → Exec A
  guarded test m n w = if test w.runtime then m w else n w

  -- An arm for an event with a number of confirmations.
  unfoldable pub confirmed : Option ℕ → (ℕ → Runtime → Bool) → (ℕ → Exec A) → Exec A → Exec A
  unfolding guarded
  confirmed none test m n = n
  confirmed (some confs) test m n = guarded (test confs) (m confs) n

unfoldable pub modify : (Runtime → Runtime) → Exec (Unit {0})
modify f w = (ok tt, record w { runtime = f w.runtime })

unfoldable pub emit : Effect → Exec (Unit {0})
emit e w = (ok tt, record w { trace = e ∷ w.trace })

module _ {A B : Type 0} where
  abbrev pub continue : Result A → (A → Exec B) → Exec B
  continue (ok a) f w = f a w
  continue err f w = (err, w)

  infixl 10 ◌>>=◌ ◌>>◌
  unfoldable pub ◌>>=◌ : Exec A → (A → Exec B) → Exec B
  unfolding done fail lift gets on_syncer modify emit
  ◌>>=◌ m f w = let (r, w') = m w in continue r f w'

  abbrev pub ◌>>◌ : Exec A → Exec B → Exec B
  m >> n = m >>= λ _. n

module _ (env : Env) where
  -- `Endpoints::send_to`: whether the message was delivered.
  unfoldable pub try_send : ServiceId → Message → Exec Bool
  try_send dest m w =
      if env.delivers w.trace dest m
      then (ok true, record w { trace = send dest m ∷ w.trace })
      else (ok false, w)

  unfoldable pub or_error : Bool → Exec (Unit {0})
  or_error true = done tt
  or_error false = fail

  -- A send whose failure is an error of the caller (`?`).
  unfoldable pub send_to : ServiceId → Message → Exec (Unit {0})
  unfolding or_error
  send_to dest m = do sent ← try_send dest m; or_error sent

  -- A reply to a client goes through `grpcd` if it came from there.
  unfoldable pub reply_dest : ServiceId → ServiceId
  reply_dest (grpcd_client _) = grpcd
  reply_dest source = source

  unfoldable pub complete_client : ServiceId → Message → Exec (Unit {0})
  unfolding reply_dest
  complete_client source m = send_to (reply_dest source) m

  unfoldable pub send_bitcoin : Task → Exec (Unit {0})
  send_bitcoin t = do dest ← gets (λ r. r.syncer_state.bitcoin_syncer); send_to dest (task t)

  unfoldable pub send_monero : Task → Exec (Unit {0})
  send_monero t = do dest ← gets (λ r. r.syncer_state.monero_syncer); send_to dest (task t)

  -- A peer message that is not delivered is kept, and farcasterd is told.
  unfoldable pub keep_unsent : Bool → PeerMsg → Exec (Unit {0})
  keep_unsent true m = done tt
  keep_unsent false m = do
    modify (λ r. record r { connected = false })
    peer_service ← gets (λ r. r.peer_service)
    send_to farcasterd (peerd_unreachable peer_service)
    modify (λ r. record r { pending_peer_request = r.pending_peer_request ++ m ∷ [] })

  unfoldable pub send_peer : PeerMsg → Exec (Unit {0})
  unfolding keep_unsent
  send_peer m = do
    peer_service ← gets (λ r. r.peer_service)
    sent ← try_send peer_service (peer_msg m)
    keep_unsent sent m

  unfoldable pub broadcast : Bytes → TxLabel → Exec (Unit {0})
  broadcast tx label = do
    emit (broadcasting label tx)
    t ← on_syncer (SyncerClient.broadcast tx)
    send_bitcoin t

  unfoldable pub watch_height : Blockchain → Exec (Unit {0})
  watch_height bitcoin = do t ← on_syncer (SyncerClient.height_task bitcoin); send_bitcoin t
  watch_height monero = do t ← on_syncer (SyncerClient.height_task monero); send_monero t

  unfoldable pub watch_bitcoin_fee : Exec (Unit {0})
  watch_bitcoin_fee = do t ← on_syncer SyncerClient.estimate_fee_btc; send_bitcoin t

  unfoldable pub send_if_any : Option ServiceId → Message → Exec (Unit {0})
  send_if_any none m = done tt
  send_if_any (some dest) m = send_to dest m

  unfoldable pub to_enquirer : Message → Exec (Unit {0})
  unfolding send_if_any
  to_enquirer m = do dest ← gets (λ r. r.enquirer); send_if_any dest m

  unfoldable pub report_progress_message : Exec (Unit {0})
  report_progress_message = to_enquirer progress_text

  -- `let _ =`: a failure to report is ignored.
  unfoldable pub ignore_send : Option ServiceId → Message → Exec (Unit {0})
  ignore_send none m = done tt
  ignore_send (some dest) m = do _ ← try_send dest m; done tt

  -- `taker_commit` and `maker_commit`, which differ in the text of their report.
  unfoldable pub local_commit : Params → Exec Bytes
  unfolding ignore_send
  local_commit params = do
    dest ← gets (λ r. r.enquirer)
    ignore_send dest progress_text
    done (env.commit params)

  unfoldable pub checkpoint_state : Option PeerMsg → State → Exec (Unit {0})
  checkpoint_state pending_msg next_state = do
    m ← gets (λ r. checkpoint (record {
      state = next_state;
      pending_msg = pending_msg;
      enquirer = r.enquirer;
      xmr_addr_addendum = r.syncer_state.xmr_addr_addendum;
      temporal_safety = r.temporal_safety;
      txs = r.txs;
      txids = r.syncer_state.tasks.txids;
      pending_broadcasts = SyncerClient.pending_broadcast_txs env.consensus_decode r.syncer_state;
      monero_address_creation_height = r.monero_address_creation_height;
    }))
    send_to database m

  -- `Amount` panics on a sum past 2^64, which no amount of coins reaches; the sum is unbounded here.
  unfoldable pub ask_bob_to_fund : ℕ → Bytes → Exec ℕ
  ask_bob_to_fund sat_per_kvb address = do
    amount ← gets (λ r. r.arbitrating_amount + env.p2wpkh_signed_tx_fee sat_per_kvb)
    modify (λ r. record r { syncer_state = record (r.syncer_state) { awaiting_funding = true } })
    to_enquirer (bitcoin_funding_info address amount)
    done amount

  -- The keys that the wallet hands to `databased`.
  unfoldable pub store_keys : List Bytes → Exec (Unit {0})
  store_keys [] = done tt
  store_keys (k ∷ ks) = do send_to database (set_address_secret_key k); store_keys ks
