-- ===== src/Swapd/Runtime/CastsOnce.antt =====
-- Rules for code on the runtime of a swap (src/swapd/runtime.rs) that broadcasts one transaction at
-- most.
use farcaster_node.Base.{
  ℕ, ◌≡◌, refl, ap, ◌∙◌, sym, Bool, true, false, Option, none, some, [], ◌∷◌, ◌++◌, inl, inr,
  Bool-cases,
}
use farcaster_node.Bus.{Bytes}
use farcaster_node.Swapd.SyncerClient
use farcaster_node.Swapd.SyncerClient.{TxLabel, new_task}
use farcaster_node.Swapd.Messages.{broadcasting, task}
use farcaster_node.Swapd.Runtime.{
  Runtime, World, Env, Result, ok, err, Exec, emit, guarded, confirmed, continue, ◌>>=◌, broadcast,
  gets, on_syncer, send_bitcoin, send_to, try_send, or_error,
}
use farcaster_node.Swapd.Runtime.Plain.{broadcasts, logged, given}
use farcaster_node.Swapd.Runtime.Casts.{Quiet, Casts, silent, cast, not_handed, handed_to}

module _ (P : TxLabel → Type 0) {A : Type 0} where
  pub Casts-Quiet : (m : Exec A) (w : World) → Quiet m → Casts P m w
  Casts-Quiet m w q = silent (q.quiet w)

  pub Casts-guarded :
      (test : Runtime → Bool) (m n : Exec A) (w : World)
      → (test w.runtime ≡ true → Casts P m w)
      → Casts P n w
      → Casts P (guarded test m n) w
  unfolding guarded
  Casts-guarded test m n w p q = elim (Bool-cases (test w.runtime)) [
    | inl e ↦ taken e (p e)
    | inr e ↦ passed e q
  ]
    where
      taken : test w.runtime ≡ true → Casts P m w → Casts P (guarded test m n) w
      taken e (silent h) = silent (rw e h)
      taken e (cast l tx out a i h) = cast l tx out a i (rw e h)

      passed : test w.runtime ≡ false → Casts P n w → Casts P (guarded test m n) w
      passed e (silent h) = silent (rw e h)
      passed e (cast l tx out a i h) = cast l tx out a i (rw e h)

  pub Casts-confirmed :
      (o : Option ℕ) (test : ℕ → Runtime → Bool) (m : ℕ → Exec A) (n : Exec A) (w : World)
      → ((c : ℕ) → o ≡ some c → test c w.runtime ≡ true → Casts P (m c) w)
      → Casts P n w
      → Casts P (confirmed o test m n) w
  unfolding confirmed
  Casts-confirmed none test m n w p q = q
  Casts-confirmed (some c) test m n w p q = Casts-guarded (test c) (m c) n w (p c refl) q

module _ (P : TxLabel → Type 0) {A B : Type 0} where
  -- What comes before the broadcast broadcasts nothing.
  pub Casts-after :
      (m : Exec A) (f : A → Exec B) (w : World)
      → Quiet m
      → ((a : A) (w' : World) → Casts P (f a) w')
      → Casts P (m >>= f) w
  unfolding ◌>>=◌
  Casts-after m f w p q = go (m w) refl
    where
      go : (r : Result A × World) → m w ≡ r → Casts P (m >>= f) w
      go (ok a, w') e = elim (q a w') [
        | silent h ↦ silent (rw e (h ∙ ap (λ r. broadcasts r.1.trace) (sym e) ∙ p.quiet w))
        | cast l tx out x i h ↦ cast l tx out x i (
            rw e (
              h
              ∙ ap (λ r. out ++ (logged l tx ∷ broadcasts r.1.trace)) (sym e)
              ∙ ap (λ t. out ++ (logged l tx ∷ t)) (p.quiet w)))
      ]
      go (err, w') e = silent (rw e (ap (λ r. broadcasts r.1.trace) (sym e) ∙ p.quiet w))

  -- What comes after the broadcast broadcasts nothing.
  pub Casts-before :
      (m : Exec A) (f : A → Exec B) (w : World)
      → Casts P m w
      → ((a : A) → Quiet (f a))
      → Casts P (m >>= f) w
  unfolding ◌>>=◌
  Casts-before m f w c q = elim c [
    | silent h ↦ silent (rest (m w) ∙ h)
    | cast l tx out x i h ↦ cast l tx out x i (rest (m w) ∙ h)
  ]
    where
      rest : (r : Result A × World) → broadcasts (continue r.0 f r.1).1.trace ≡ broadcasts r.1.trace
      rest (ok a, w') = (q a).quiet w'
      rest (err, w') = refl

pub Casts-gets :
    (P : TxLabel → Type 0) {A B : Type 0} (g : Runtime → A) (f : A → Exec B) (w : World)
    → Casts P (f (g w.runtime)) w
    → Casts P (gets g >>= f) w
unfolding ◌>>=◌ gets
Casts-gets P g f w (silent h) = silent h
Casts-gets P g f w (cast l tx out a i h) = cast l tx out a i h

-- `Runtime::broadcast`: the log line, and the task if the bus delivers it.
pub Casts-broadcast :
    (P : TxLabel → Type 0) (env : Env) (tx : Bytes) (label : TxLabel) (w : World)
    → P label
    → Casts P (broadcast env tx label) w
unfolding broadcast emit ◌>>=◌ on_syncer SyncerClient.broadcast new_task send_bitcoin gets send_to
    try_send or_error given
Casts-broadcast P env tx label w h =
    let (t, s) = SyncerClient.broadcast tx w.runtime.syncer_state in
    elim (Bool-cases (env.delivers (broadcasting label tx ∷ w.trace) s.bitcoin_syncer (task t))) [
      | inl e ↦ cast label tx _ h (handed_to s.bitcoin_syncer) (rw e refl)
      | inr e ↦ cast label tx [] h not_handed (rw e refl)
    ]

pub ruleset casts_rules =
    (Casts-Quiet, Casts-guarded, Casts-confirmed, Casts-after, Casts-before, Casts-broadcast)
