-- ===== src/Swapd/Handle/Payments.antt =====
-- The handlers of src/swapd/swap_state.rs that can stay in their phase, on a transaction's
-- confirmations: what they leave to act on.
use farcaster_node.Base.{
  ℕ, ◌≡◌, ◌≢◌, List, remove, insert, ◌<◌, refl, sym, ap, subst, ◌∙◌, Bool, true, false, ◌&&◌,
  Option, none, some, inl, inr, arith, lookup, if_pos, if_neg, contains_key, contains_key-remove,
  contains_key-insert, Option-cases, eq_dec,
}
use farcaster_node.Bus.{Bytes, ServiceId, bitcoin}
use farcaster_node.Syncerd.Types.{Task, TransactionConfirmations, transaction_confirmations}
use farcaster_node.Swapd.SyncerClient.{
  TxLabel, TxLabel_eq, funding, lock, buy, cancel, refund, punish, acc_lock, retrieve_tx_btc,
  watch_tx_btc, new_task, broadcast,
}
use farcaster_node.Swapd.TemporalSafety.{final_tx, stop_funding_before_cancel}
use farcaster_node.Swapd.Messages.{PeerMsg, p2p, MoneroFundingInfo, Params, State, sync_event}
use farcaster_node.Swapd.Runtime
use farcaster_node.Swapd.Runtime.{
  Runtime, World, Env, Result, ok, err, Exec, done, gets, lift, modify, ◌>>=◌, ◌>>◌, on_syncer,
  send_bitcoin, emit,
}
use farcaster_node.Swapd.Runtime.Keeps.{Keeps, Keeps-bind, Keeps-gets, Keeps-on_syncer, keeps_rules}
use farcaster_node.Swapd.SwapState.Common.{
  watched_tx, take_tx, watch_bitcoin_tx, broadcast_cancel, set_awaiting,
  handle_bob_swap_interrupt_after_lock, handle_alice_swap_interrupt_after_lock,
}
use farcaster_node.Swapd.SwapState.BobEnd.{take_txid, try_bob_accordant_lock_final_to_bob_buy_final}
use farcaster_node.Swapd.SwapState.Alice.{try_alice_arbitrating_lock_final_to_alice_accordant_lock}
use farcaster_node.Swapd.SwapState.AliceEnd.{
  publish, alice_canceled_confs, try_alice_canceled_to_alice_refund_or_alice_punish,
}
use farcaster_node.Swapd.SwapState.Next.{next}
use farcaster_node.Swapd.Handle.Triples.{
  After, Triple, Triple-done, Triple-guarded, Triple-confirmed, Triple-given, Triple-named,
  Triple-weaken, Triple-bind, Triple-Keeps,
}
use farcaster_node.Swapd.Handle.Debts.{one, has_txid, has_tx, awaits, Dues, dues, total, debt, Pays}

and_right : (a b : Bool) → (a && b) ≡ true → b ≡ true
and_right true b h = h
and_right false b h = cc

and_fourth : (a b c d : Bool) → (a && (b && (c && d))) ≡ true → d ≡ true
and_fourth a b c d h = and_right c d (and_right b _ (and_right a _ h))

After-any : {A : Type 0} (r : Result A × World) → After (λ a r. Unit {0}) r
After-any (ok a, w) = tt
After-any (err, w) = tt

Triple-any : {A : Type 0} {P : Runtime → Type 0} (m : Exec A) → Triple P m (λ a r. Unit {0})
Triple-any m = record { at = λ w p. After-any (m w) }

-- A key that is taken out is no longer there.
dropped : (l : TxLabel) (m : List (TxLabel × Bytes)) → contains_key l (remove l m) ≡ false
dropped l m = contains_key-remove l l m ∙ if_pos (eq_dec l l) refl _ _

take_txid-drops : (l : TxLabel) → Triple (λ r. Unit {0}) (take_txid l) (λ a r. has_txid l r ≡ false)
unfolding take_txid ◌>>=◌ gets lift modify done
take_txid-drops l = record {
  at = λ w p. elim (Option-cases (lookup l w.runtime.syncer_state.tasks.txids)) [
    | inl e ↦ rw e tt
    | inr (t, e) ↦ rw e (dropped l w.runtime.syncer_state.tasks.txids)
  ];
}

awaiting-drops : Triple (λ r. Unit {0}) (modify (set_awaiting false)) (λ a r. awaits r ≡ false)
unfolding modify set_awaiting
awaiting-drops = record { at = λ w p. refl }

-- A view of what the debts are read from.
abbrev View : Type 0 → Type 0
View X = List (TxLabel × Bytes) → List (TxLabel × Bytes) → Bool → X

abbrev view : {X : Type 0} → View X → Runtime → X
view g r = g r.syncer_state.tasks.txids r.txs r.syncer_state.awaiting_funding

module _ {X : Type 0} (g : View X) where
  Keeps-retrieve :
      (txid : Bytes) (l : TxLabel) → Keeps (view g) (on_syncer (retrieve_tx_btc txid l))
  unfolding retrieve_tx_btc new_task
  Keeps-retrieve txid l = search (keeps_rules)

  Keeps-send_bitcoin : (env : Env) (t : Task) → Keeps (view g) (send_bitcoin env t)
  unfolding send_bitcoin
  Keeps-send_bitcoin env t = search (keeps_rules)

  Keeps-broadcast :
      (env : Env) (tx : Bytes) (l : TxLabel) → Keeps (view g) (Runtime.broadcast env tx l)
  unfolding Runtime.broadcast broadcast new_task
  Keeps-broadcast env tx l = search (keeps_rules, Keeps-send_bitcoin) depth 10

Keeps-take_tx :
    {X : Type 0} (g : List (TxLabel × Bytes) → Bool → X) (l : TxLabel)
    → Keeps (view (λ txids txs awaiting. g txids awaiting)) (take_tx l)
unfolding take_tx
Keeps-take_tx g l = search (keeps_rules) depth 10

-- The cancel transaction is taken out and broadcast, and the swap stays where it is.
broadcast_cancel-Pays :
    (env : Env) (s : State) (n : ℕ)
    → Keeps (debt s) (take_tx cancel)
    → ((tx : Bytes) → Keeps (debt s) (Runtime.broadcast env tx cancel))
    → Triple (λ r. debt s r ≡ n) (broadcast_cancel env) (Pays s n)
unfolding broadcast_cancel
broadcast_cancel-Pays env s n k j = Triple-bind _ _ (Triple-Keeps (debt s) n _ k) (λ tx.
    Triple-bind _ _ (Triple-Keeps (debt s) n _ (j tx)) (λ _. Triple-done none (λ r h. omega arith)))

others :
    (j k : TxLabel) (m : List (TxLabel × Bytes))
    → k ≢ j
    → contains_key j (remove k m) ≡ contains_key j m
others j k m h = contains_key-remove j k m ∙ if_neg (eq_dec k j) h _ _

others-insert :
    (j k : TxLabel) (v : Bytes) (m : List (TxLabel × Bytes))
    → k ≢ j
    → contains_key j (insert k v m) ≡ contains_key j m
others-insert j k v m h = contains_key-insert j k v m ∙ if_neg (eq_dec k j) h _ _

take_txid-refund :
    (d : Dues)
    → Triple (λ r. dues r ≡ d) (take_txid refund) (λ a r. dues r ≡ record d { refund_txid = false })
unfolding take_txid ◌>>=◌ gets lift modify done
take_txid-refund d = record {
  at = λ w p. elim (Option-cases (lookup refund w.runtime.syncer_state.tasks.txids)) [
    | inl e ↦ rw e tt
    | inr (t, e) ↦ rw e (
        rw (dropped refund w.runtime.syncer_state.tasks.txids)
          (ap {A = Dues} (λ d. record d { refund_txid = false }) p))
  ];
}

take_tx-punish :
    (d : Dues)
    → Triple (λ r. dues r ≡ d) (take_tx punish) (λ a r. dues r ≡ record d { punish_tx = false })
unfolding take_tx ◌>>=◌ gets lift modify done
take_tx-punish d = record {
  at = λ w p. elim (Option-cases (lookup punish w.runtime.txs)) [
    | inl e ↦ rw e tt
    | inr (t, e) ↦ rw e (
        rw (dropped punish w.runtime.txs) (
          rw (others cancel punish w.runtime.txs (λ e. cc))
            (ap {A = Dues} (λ d. record d { punish_tx = false }) p)))
  ];
}

take_tx-cancel :
    (d : Dues)
    → Triple (λ r. dues r ≡ d) (take_tx cancel) (λ a r. dues r ≡ record d { cancel_tx = false })
unfolding take_tx ◌>>=◌ gets lift modify done
take_tx-cancel d = record {
  at = λ w p. elim (Option-cases (lookup cancel w.runtime.txs)) [
    | inl e ↦ rw e tt
    | inr (t, e) ↦ rw e (
        rw (dropped cancel w.runtime.txs) (
          rw (others punish cancel w.runtime.txs (λ e. cc))
            (ap {A = Dues} (λ d. record d { cancel_tx = false }) p)))
  ];
}

less-refund_txid :
    (n : ℕ) (d : Dues)
    → total d ≡ n
    → d.refund_txid ≡ true
    → total (record d { refund_txid = false }) < n
less-refund_txid n d e h = rw⁻¹ e (rw h (omega arith))

less-punish_tx :
    (n : ℕ) (d : Dues)
    → total d ≡ n
    → d.punish_tx ≡ true
    → total (record d { punish_tx = false }) < n
less-punish_tx n d e h = rw⁻¹ e (rw h (omega arith))

less-cancel_tx :
    (n : ℕ) (d : Dues)
    → total d ≡ n
    → d.cancel_tx ≡ true
    → total (record d { cancel_tx = false }) < n
less-cancel_tx n d e h = rw⁻¹ e (rw h (omega arith))

abbrev dues_view : View Dues
dues_view i t a = record {
  refund_txid = contains_key refund i;
  punish_tx = contains_key punish t;
  cancel_tx = contains_key cancel t;
}

Keeps-watch :
    (env : Env) (l : TxLabel) (txid : Bytes) → l ≢ refund → Keeps dues (watch_bitcoin_tx env l txid)
unfolding watch_bitcoin_tx watch_tx_btc new_task
Keeps-watch env l txid h =
    Keeps-bind dues _ _
      (Keeps-on_syncer dues _
        (λ r. rw (others-insert refund l txid r.syncer_state.tasks.txids h) refl))
      (λ t. Keeps-send_bitcoin dues_view env t)

-- What is published is no longer due.
publish-Pays :
    (env : Env) (l : TxLabel) (w : Bytes) (n : ℕ) (d d' : Dues)
    → l ≢ refund
    → Triple (λ r. dues r ≡ d) (take_tx l) (λ a r. dues r ≡ d')
    → total d' < n
    → Triple (λ r. dues r ≡ d) (publish env l w) (Pays (State.alice_canceled w) n)
unfolding publish
publish-Pays env l w n d d' h take less = Triple-bind _ _ take (λ tx.
    Triple-bind _ _ (Triple-Keeps dues d' _ (Keeps-watch env l (env.txid tx) h)) (λ _.
      Triple-bind _ _ (Triple-Keeps dues d' _ (Keeps-broadcast dues_view env tx l))
        (λ _. Triple-done _ (λ r p. inr (refl, subst (λ d. total d < n) (sym p) less)))))

module _ (env : Env) (source : ServiceId) where
  -- Before the buy transaction is asked for its id is there, and after it is not.
  pub bob_accordant_lock_final-Pays :
      (l r : Params) (w : Bytes) (n : ℕ) (c : TransactionConfirmations)
      → Triple
          (λ rt. debt (State.bob_accordant_lock_final l r w) rt ≡ n)
          (next env
            (State.bob_accordant_lock_final l r w)
            source
            (sync_event (transaction_confirmations c)))
          (Pays (State.bob_accordant_lock_final l r w) n)
  unfolding next try_bob_accordant_lock_final_to_bob_buy_final handle_bob_swap_interrupt_after_lock
  bob_accordant_lock_final-Pays l r w n c =
      Triple-confirmed c.confirmations _ _ _
        (λ confs.
          Triple-given {X = n ≡ 1} _ (λ rt p. sym p.0 ∙ ap one (and_right _ _ (and_right _ _ p.1)))
            (λ e. Triple-bind _ _ (Triple-any _) (λ _.
              Triple-bind _ _ (take_txid-drops buy) (λ txid.
                Triple-bind _ _
                  (Triple-Keeps (has_txid buy) false _
                    (Keeps-retrieve (λ i t a. contains_key buy i) txid buy))
                  (λ t.
                    Triple-bind _ _
                      (Triple-Keeps (has_txid buy) false _
                        (Keeps-send_bitcoin (λ i t a. contains_key buy i) env t))
                      (λ _. Triple-done _ (λ rt h. inr (refl, rw h (rw e (omega arith))))))))))
        (Triple-confirmed c.confirmations _ _ _
          (λ confs.
            Triple-weaken _ (λ rt p. p.0)
              (broadcast_cancel-Pays env (State.bob_accordant_lock_final l r w) n
                (Keeps-take_tx (λ i a. one (contains_key buy i)) cancel)
                (λ tx. Keeps-broadcast (λ i t a. one (contains_key buy i)) env tx cancel)))
          (Triple-confirmed c.confirmations _ _ _
            (λ confs. Triple-done _ (λ rt h. inl (omega arith)))
            (Triple-done none (λ rt h. omega arith))))

  -- A funding that is given up was awaited before, and is not after.
  pub alice_arbitrating_lock_final-Pays :
      (w : Bytes) (i : MoneroFundingInfo) (m n : ℕ) (c : TransactionConfirmations)
      → Triple
          (λ rt. debt (State.alice_arbitrating_lock_final w i m) rt ≡ n)
          (next env
            (State.alice_arbitrating_lock_final w i m)
            source
            (sync_event (transaction_confirmations c)))
          (Pays (State.alice_arbitrating_lock_final w i m) n)
  unfolding next try_alice_arbitrating_lock_final_to_alice_accordant_lock
      handle_alice_swap_interrupt_after_lock
  alice_arbitrating_lock_final-Pays w i m n c =
      Triple-confirmed c.confirmations _ _ _
        (λ confs.
          Triple-given {X = n ≡ 1} _
            (λ rt p.
              sym p.0
              ∙ ap one (
                  and_fourth (final_tx rt.temporal_safety confs bitcoin) (watched_tx lock c.id rt)
                    (stop_funding_before_cancel rt.temporal_safety confs) (awaits rt) p.1))
            (λ e. Triple-bind _ _ (Triple-any _) (λ _.
              Triple-bind _ _ awaiting-drops
                (λ _. Triple-done _ (λ rt h. inr (refl, rw h (rw e (omega arith))))))))
        (Triple-confirmed c.confirmations _ _ _
          (λ confs.
            Triple-bind _ _ (Triple-any _) (λ b.
              Triple-bind _ _ (Triple-any _) (λ _. Triple-done _ (λ rt h. inl (omega arith)))))
          (Triple-confirmed c.confirmations _ _ _
            (λ confs.
              Triple-weaken _ (λ rt p. p.0)
                (broadcast_cancel-Pays env (State.alice_arbitrating_lock_final w i m) n
                  (Keeps-take_tx (λ i a. one a) cancel)
                  (λ tx. Keeps-broadcast (λ i t a. one a) env tx cancel)))
            (Triple-done none (λ rt h. omega arith))))

  alice_canceled_confs-Pays :
      (w : Bytes) (n confs : ℕ) (label : Option TxLabel)
      → Triple
          (λ r. debt (State.alice_canceled w) r ≡ n)
          (alice_canceled_confs env w confs label)
          (Pays (State.alice_canceled w) n)
  unfolding alice_canceled_confs
  alice_canceled_confs-Pays w n confs (some refund) =
      Triple-guarded _ _ _
        (Triple-named dues _ (λ d.
          Triple-given {X = total (record d { refund_txid = false }) < n} _
            (λ r p.
              less-refund_txid n d (sym (ap total p.1) ∙ p.0.0)
                (ap (λ d. d.refund_txid) (sym p.1) ∙ p.0.1))
            (λ less.
              Triple-weaken _ (λ r p. p.1)
                (Triple-bind _ _ (take_txid-refund d) (λ txid.
                  Triple-bind _ _ (Triple-Keeps dues _ _ (Keeps-retrieve dues_view txid refund))
                    (λ t.
                      Triple-bind _ _ (Triple-Keeps dues _ _ (Keeps-send_bitcoin dues_view env t))
                        (λ _.
                          Triple-done _
                            (λ r p. inr (refl, subst (λ d. total d < n) (sym p) less)))))))))
        (Triple-done none (λ r h. omega arith))
  alice_canceled_confs-Pays w n confs (some cancel) =
      Triple-guarded _ _ _
        (Triple-named dues _ (λ d.
          Triple-given {X = total (record d { punish_tx = false }) < n} _
            (λ r p.
              less-punish_tx n d (sym (ap total p.1) ∙ p.0.0)
                (ap (λ d. d.punish_tx) (sym p.1) ∙ and_right _ (has_tx punish r) p.0.1))
            (λ less.
              Triple-weaken _ (λ r p. p.1)
                (publish-Pays env punish w n d _ (λ e. cc) (take_tx-punish d) less))))
        (Triple-done none (λ r h. omega arith))
  alice_canceled_confs-Pays w n confs (some punish) =
      Triple-bind _ _ (Triple-any _)
        (λ _. Triple-bind _ _ (Triple-any _) (λ _. Triple-done _ (λ r h. inl (omega arith))))
  alice_canceled_confs-Pays w n confs (some lock) =
      Triple-guarded _ _ _
        (Triple-named dues _ (λ d.
          Triple-given {X = total (record d { cancel_tx = false }) < n} _
            (λ r p.
              less-cancel_tx n d (sym (ap total p.1) ∙ p.0.0)
                (ap (λ d. d.cancel_tx) (sym p.1) ∙ and_right _ (has_tx cancel r) p.0.1))
            (λ less.
              Triple-weaken _ (λ r p. p.1)
                (publish-Pays env cancel w n d _ (λ e. cc) (take_tx-cancel d) less))))
        (Triple-done none (λ r h. omega arith))
  alice_canceled_confs-Pays w n confs (some funding) = Triple-done none (λ r h. omega arith)
  alice_canceled_confs-Pays w n confs (some buy) = Triple-done none (λ r h. omega arith)
  alice_canceled_confs-Pays w n confs (some acc_lock) = Triple-done none (λ r h. omega arith)
  alice_canceled_confs-Pays w n confs none = Triple-done none (λ r h. omega arith)

  -- A canceled swap of Alice acts once on each transaction.
  pub alice_canceled-Pays :
      (w : Bytes) (n : ℕ) (c : TransactionConfirmations)
      → Triple
          (λ r. debt (State.alice_canceled w) r ≡ n)
          (next env (State.alice_canceled w) source (sync_event (transaction_confirmations c)))
          (Pays (State.alice_canceled w) n)
  unfolding next try_alice_canceled_to_alice_refund_or_alice_punish
  alice_canceled-Pays w n c =
      Triple-confirmed c.confirmations _ _ _
        (λ confs.
          Triple-weaken _ (λ r p. p.0)
            (Triple-bind _ _ (Triple-Keeps (debt (State.alice_canceled w)) n _ (Keeps-gets _ _))
              (λ label. alice_canceled_confs-Pays w n confs label)))
        (Triple-done none (λ r h. omega arith))

  -- A message of the peer does nothing in these states.
  pub bob_accordant_lock_final-unmoved :
      (l r : Params) (b : Bytes) (m : PeerMsg) (w : World)
      → next env (State.bob_accordant_lock_final l r b) source (p2p m) w ≡ (ok none, w)
  unfolding next try_bob_accordant_lock_final_to_bob_buy_final handle_bob_swap_interrupt_after_lock
      done
  bob_accordant_lock_final-unmoved l r b m w = refl

  pub alice_arbitrating_lock_final-unmoved :
      (b : Bytes) (i : MoneroFundingInfo) (n : ℕ) (m : PeerMsg) (w : World)
      → next env (State.alice_arbitrating_lock_final b i n) source (p2p m) w ≡ (ok none, w)
  unfolding next try_alice_arbitrating_lock_final_to_alice_accordant_lock
      handle_alice_swap_interrupt_after_lock done
  alice_arbitrating_lock_final-unmoved b i n m w = refl

  pub alice_canceled-unmoved :
      (b : Bytes) (m : PeerMsg) (w : World)
      → next env (State.alice_canceled b) source (p2p m) w ≡ (ok none, w)
  unfolding next try_alice_canceled_to_alice_refund_or_alice_punish done
  alice_canceled-unmoved b m w = refl
