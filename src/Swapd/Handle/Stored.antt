-- ===== src/Swapd/Handle/Stored.antt =====
-- The events that `handle_sync` of src/swapd/runtime.rs keeps for a replay.
use farcaster_node.Base.{
  ℕ, ◌≡◌, refl, sym, subst, ◌∙◌, Option, none, some, inl, inr, Bool-cases, same, arith,
}
use farcaster_node.Bus.{ServiceId, ServiceId_eq}
use farcaster_node.Syncerd.Types.{Task, Event, TransactionConfirmations, transaction_confirmations}
use farcaster_node.Swapd.SyncerClient
use farcaster_node.Swapd.SyncerClient.{
  TxLabel, SyncerState, lock, cancel, buy, refund, punish, funding, acc_lock, handle_tx_confs,
  handle_height_change,
}
use farcaster_node.Swapd.Messages.{State}
use farcaster_node.Swapd.Runtime.{Runtime, World, Env, Exec, ok, guarded, modify, done}
use farcaster_node.Swapd.Handle.{
  keep_event, is_final_watched, note_confirmations, note_monero, note_event, note_bitcoin,
  retrieve_again,
}
use farcaster_node.Swapd.Handle.Kept.{Kept, kept, kept_of, kept-handle_tx_confs, kept-send_bitcoin}
use farcaster_node.Swapd.Runtime.Keeps.{Keeps, keeps_rules}
use farcaster_node.Swapd.Handle.Debts.{debt}

abbrev pub Confs : Option Event → Type 0
Confs none = Unit
Confs (some (transaction_confirmations c)) = Unit
Confs _ = ⊥

-- All that is kept are confirmations.
pub record AllConfs (k : Kept) : Type 0 where
  pub lock_tx_confs : Confs k.lock_tx_confs
  pub cancel_tx_confs : Confs k.cancel_tx_confs
  pub buy_tx_confs : Confs k.buy_tx_confs

debt-same :
    (s : State) (r r' : Runtime)
    → r'.syncer_state.tasks.txids ≡ r.syncer_state.tasks.txids
    → r'.txs ≡ r.txs
    → r'.syncer_state.awaiting_funding ≡ r.syncer_state.awaiting_funding
    → debt s r' ≡ debt s r
debt-same (State.bob_accordant_lock_final _ _ _) r r' i t a = rw i refl
debt-same (State.alice_arbitrating_lock_final _ _ _) r r' i t a = rw a refl
debt-same (State.alice_canceled _) r r' i t a = rw i (rw t refl)
debt-same _ r r' i t a = refl

handle_tx_confs-txids :
    (id : ℕ) (confs : Option ℕ) (thr : ℕ) (s : SyncerState)
    → ((handle_tx_confs id confs thr s).tasks.txids ≡ s.tasks.txids)
      × ((handle_tx_confs id confs thr s).awaiting_funding ≡ s.awaiting_funding)
unfolding handle_tx_confs SyncerClient.mark_final
handle_tx_confs-txids id none thr s = (ground arith, ground arith)
handle_tx_confs-txids id (some c) thr s = (ground arith, ground arith)

module _ (c : TransactionConfirmations) where
  keep_event-AllConfs :
      (l : Option TxLabel) (s : SyncerState)
      → AllConfs (kept_of s)
      → AllConfs (kept_of (keep_event (transaction_confirmations c) l s))
  unfolding keep_event
  keep_event-AllConfs (some lock) s h = record {
    lock_tx_confs = tt;
    cancel_tx_confs = h.cancel_tx_confs;
    buy_tx_confs = h.buy_tx_confs;
  }
  keep_event-AllConfs (some cancel) s h = record {
    lock_tx_confs = h.lock_tx_confs;
    cancel_tx_confs = tt;
    buy_tx_confs = h.buy_tx_confs;
  }
  keep_event-AllConfs (some buy) s h = record {
    lock_tx_confs = h.lock_tx_confs;
    cancel_tx_confs = h.cancel_tx_confs;
    buy_tx_confs = tt;
  }
  keep_event-AllConfs (some refund) s h = h
  keep_event-AllConfs (some punish) s h = h
  keep_event-AllConfs (some funding) s h = h
  keep_event-AllConfs (some acc_lock) s h = h
  keep_event-AllConfs none s h = h

  keep_event-txids :
      (l : Option TxLabel) (s : SyncerState)
      → ((keep_event (transaction_confirmations c) l s).tasks.txids ≡ s.tasks.txids)
        × ((keep_event (transaction_confirmations c) l s).awaiting_funding ≡ s.awaiting_funding)
  unfolding keep_event
  keep_event-txids (some lock) s = (refl, refl)
  keep_event-txids (some cancel) s = (refl, refl)
  keep_event-txids (some buy) s = (refl, refl)
  keep_event-txids (some refund) s = (refl, refl)
  keep_event-txids (some punish) s = (refl, refl)
  keep_event-txids (some funding) s = (refl, refl)
  keep_event-txids (some acc_lock) s = (refl, refl)
  keep_event-txids none s = (refl, refl)

  -- Confirmations change neither what is owed nor that only confirmations are kept.
  pub record Noted (r r' : Runtime) : Type 0 where
    pub owes : (s : State) → debt s r' ≡ debt s r
    pub keeps : AllConfs (kept r) → AllConfs (kept r')

  Noted-monero :
      (id : ℕ) (confs : Option ℕ) (thr : ℕ) (r : Runtime)
      → Noted r (record r { syncer_state = handle_tx_confs id confs thr r.syncer_state })
  Noted-monero id confs thr r = record {
    owes = λ s.
        debt-same s r _ (handle_tx_confs-txids id confs thr r.syncer_state).0 refl
          (handle_tx_confs-txids id confs thr r.syncer_state).1;
    keeps = λ h. subst AllConfs (sym (kept-handle_tx_confs id confs thr r.syncer_state)) h;
  }

  -- The same, and the event is kept.
  Noted-kept :
      (l : Option TxLabel) (id : ℕ) (confs : Option ℕ) (thr : ℕ) (r : Runtime)
      → Noted r (record r {
        syncer_state =
            keep_event
              (transaction_confirmations c)
              l
              (handle_tx_confs id confs thr r.syncer_state);
      })
  Noted-kept l id confs thr r =
      let noted = handle_tx_confs id confs thr r.syncer_state in
      record {
        owes = λ s.
            debt-same s r _
              ((keep_event-txids l noted).0 ∙ (handle_tx_confs-txids id confs thr r.syncer_state).0)
              refl
              ((keep_event-txids l noted).1
                ∙ (handle_tx_confs-txids id confs thr r.syncer_state).1);
        keeps = λ h. keep_event-AllConfs l noted ((Noted-monero id confs thr r).keeps h);
      }

  Noted-bitcoin :
      (r : Runtime)
      → Noted r (note_confirmations c.id c.confirmations (transaction_confirmations c) r)
  unfolding note_confirmations
  Noted-bitcoin r = elim (Bool-cases (is_final_watched c.confirmations c.id r)) [
    | inl e ↦ rw e (Noted-kept _ c.id c.confirmations r.temporal_safety.btc_finality_thr r)
    | inr e ↦ rw e (Noted-monero c.id c.confirmations r.temporal_safety.btc_finality_thr r)
  ]

  -- `note_event` of confirmations does not fail.
  pub note_event-Noted :
      (env : Env) (source : ServiceId) (w : World)
      → (w' : World) × (note_event env source (transaction_confirmations c) w ≡ (ok tt, w'))
        × Noted w.runtime w'.runtime
  unfolding note_event note_monero note_bitcoin guarded modify done
  note_event-Noted env source w =
      elim (Bool-cases (same source w.runtime.syncer_state.monero_syncer)) [
        | inl e ↦
            let r = record (w.runtime) {
              syncer_state =
                  handle_tx_confs c.id c.confirmations w.runtime.temporal_safety.xmr_finality_thr
                    w.runtime.syncer_state;
            } in
            (
              record w { runtime = r },
              rw e refl,
              Noted-monero c.id c.confirmations w.runtime.temporal_safety.xmr_finality_thr
                  w.runtime,
            )
        | inr e ↦ elim (Bool-cases (same source w.runtime.syncer_state.bitcoin_syncer)) [
          | inl f ↦ (
            record w {
              runtime =
                  note_confirmations c.id c.confirmations (transaction_confirmations c) w.runtime;
            },
            rw e (rw f refl),
            Noted-bitcoin w.runtime,
          )
          | inr f ↦ (w, rw e (rw f refl), record { owes = λ s. refl; keeps = λ h. h })
        ]
      ]

kept-retrieve_again :
    (env : Env) (entry : Option (TxLabel × Task)) → Keeps kept (retrieve_again env entry)
unfolding retrieve_again
kept-retrieve_again env none = search (keeps_rules)
kept-retrieve_again env (some (l, t)) = kept-send_bitcoin env t

ruleset noting = (keeps_rules, kept-retrieve_again)

unkept :
    (m : Exec (Unit {0})) (w : World)
    → Keeps kept m
    → AllConfs (kept w.runtime)
    → AllConfs (kept (m w).1.runtime)
unkept m w k h = subst AllConfs (sym (k.keeps w)) h

-- What any event leaves kept.
pub note_event-AllConfs :
    (env : Env) (source : ServiceId) (e : Event) (w : World)
    → AllConfs (kept w.runtime)
    → AllConfs (kept (note_event env source e w).1.runtime)
unfolding note_event note_monero note_bitcoin handle_height_change
    SyncerClient.transaction_broadcasted
note_event-AllConfs env source (transaction_confirmations c) w h =
    let (w', e, noted) = note_event-Noted c env source w in
    subst (λ r. AllConfs (kept r.1.runtime)) (sym e) (noted.keeps h)
note_event-AllConfs env source (Event.height_changed a) w h =
    unkept (note_event env source (Event.height_changed a)) w (search (noting) depth 10) h
note_event-AllConfs env source (Event.transaction_retrieved a none) w h =
    unkept (note_event env source (Event.transaction_retrieved a none)) w (search (noting) depth 10)
      h
note_event-AllConfs env source (Event.transaction_retrieved a (some b)) w h =
    unkept (note_event env source (Event.transaction_retrieved a (some b))) w
      (search (noting) depth 10) h
note_event-AllConfs env source (Event.transaction_broadcasted a b c) w h =
    unkept (note_event env source (Event.transaction_broadcasted a b c)) w
      (search (noting) depth 10) h
note_event-AllConfs env source (Event.address_transaction a) w h =
    unkept (note_event env source (Event.address_transaction a)) w (search (noting) depth 10) h
note_event-AllConfs env source (Event.sweep_success a b) w h =
    unkept (note_event env source (Event.sweep_success a b)) w (search (noting) depth 10) h
note_event-AllConfs env source (Event.task_aborted a b) w h =
    unkept (note_event env source (Event.task_aborted a b)) w (search (noting) depth 10) h
note_event-AllConfs env source (Event.fee_estimation a b) w h =
    unkept (note_event env source (Event.fee_estimation a b)) w (search (noting) depth 10) h
note_event-AllConfs env source (Event.empty a) w h =
    unkept (note_event env source (Event.empty a)) w (search (noting) depth 10) h
note_event-AllConfs env source (Event.health_result a b) w h =
    unkept (note_event env source (Event.health_result a b)) w (search (noting) depth 10) h
note_event-AllConfs env source (Event.address_balance a b c d) w h =
    unkept (note_event env source (Event.address_balance a b c d)) w (search (noting) depth 10) h
