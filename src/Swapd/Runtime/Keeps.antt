-- ===== src/Swapd/Runtime/Keeps.antt =====
-- Rules for code on the runtime of a swap (src/swapd/runtime.rs) that leaves a view `f` of it as it
-- is, and for a branch on that view before a broadcast.
use farcaster_node.Base.{
  ℕ, ◌≡◌, refl, sym, ap, ◌∙◌, Bool, true, false, Option, none, some, ◌∷◌, ◌++◌, inl, inr,
  Bool-cases, if◌then◌else◌,
}
use farcaster_node.Bus.{ServiceId}
use farcaster_node.Swapd.SyncerClient.{TxLabel, SyncerState}
use farcaster_node.Swapd.Messages.{Message, Effect}
use farcaster_node.Swapd.Runtime.{
  Runtime, World, Env, Result, ok, err, Exec, done, fail, lift, gets, on_syncer, modify, guarded,
  confirmed, continue, emit, ◌>>=◌, try_send, or_error, send_to,
}
use farcaster_node.Swapd.Runtime.Casts.{Quiet, Casts, silent, cast}
use farcaster_node.Swapd.Runtime.Plain.{broadcasts, logged}

pub record Keeps {X A : Type 0} (f : Runtime → X) (m : Exec A) : Type 0 where
  pub keeps : (w : World) → f (m w).1.runtime ≡ f w.runtime

module _ {X : Type 0} (f : Runtime → X) where
  pub Keeps-done : {A : Type 0} (a : A) → Keeps f (done a)
  unfolding done
  Keeps-done a = record { keeps = λ w. refl }

  pub Keeps-lift : {A : Type 0} (o : Option A) → Keeps f (lift o)
  unfolding lift
  Keeps-lift none = record { keeps = λ w. refl }
  Keeps-lift (some a) = record { keeps = λ w. refl }

  pub Keeps-gets : {A : Type 0} (g : Runtime → A) → Keeps f (gets g)
  unfolding gets
  Keeps-gets g = record { keeps = λ w. refl }

  pub Keeps-modify : (g : Runtime → Runtime) → ((r : Runtime) → f (g r) ≡ f r) → Keeps f (modify g)
  unfolding modify
  Keeps-modify g h = record { keeps = λ w. h w.runtime }

  pub Keeps-on_syncer :
      {A : Type 0} (g : SyncerState → A × SyncerState)
      → ((r : Runtime) → f (record r { syncer_state = (g r.syncer_state).1 }) ≡ f r)
      → Keeps f (on_syncer g)
  unfolding on_syncer
  Keeps-on_syncer g h = record { keeps = λ w. h w.runtime }

  pub Keeps-bind :
      {A B : Type 0} (m : Exec A) (k : A → Exec B)
      → Keeps f m
      → ((a : A) → Keeps f (k a))
      → Keeps f (m >>= k)
  unfolding ◌>>=◌
  Keeps-bind m k p q = record { keeps = λ w. go (m w) ∙ p.keeps w }
    where
      go : (r : Result _ × World) → f (continue r.0 k r.1).1.runtime ≡ f r.1.runtime
      go (ok a, w) = (q a).keeps w
      go (err, w) = refl

  pub Keeps-send_to : (env : Env) (dest : ServiceId) (m : Message) → Keeps f (send_to env dest m)
  unfolding send_to try_send ◌>>=◌ or_error fail done
  Keeps-send_to env dest m = record {
    keeps = λ w. elim (Bool-cases (env.delivers w.trace dest m)) [
      | inl e ↦ rw e refl
      | inr e ↦ rw e refl
    ];
  }

  pub Keeps-if :
      {A : Type 0} (b : Bool) (m n : Exec A) → Keeps f m → Keeps f n → Keeps f (if b then m else n)
  Keeps-if true m n p q = p
  Keeps-if false m n p q = q

  pub Keeps-guarded :
      {A : Type 0} (test : Runtime → Bool) (m n : Exec A)
      → Keeps f m
      → Keeps f n
      → Keeps f (guarded test m n)
  unfolding guarded
  Keeps-guarded test m n p q = record {
    keeps = λ w. elim (Bool-cases (test w.runtime)) [
      | inl e ↦ rw e (p.keeps w)
      | inr e ↦ rw e (q.keeps w)
    ];
  }

  pub Keeps-confirmed :
      {A : Type 0} (o : Option ℕ) (test : ℕ → Runtime → Bool) (m : ℕ → Exec A) (n : Exec A)
      → ((c : ℕ) → Keeps f (m c))
      → Keeps f n
      → Keeps f (confirmed o test m n)
  unfolding confirmed
  Keeps-confirmed none test m n p q = q
  Keeps-confirmed (some c) test m n p q = Keeps-guarded (test c) (m c) n (p c) q

  pub Keeps-emit : (e : Effect) → Keeps f (emit e)
  unfolding emit
  Keeps-emit e = record { keeps = λ w. refl }

  pub Keeps-try_send : (env : Env) (dest : ServiceId) (m : Message) → Keeps f (try_send env dest m)
  unfolding try_send
  Keeps-try_send env dest m = record {
    keeps = λ w. elim (Bool-cases (env.delivers w.trace dest m)) [
      | inl e ↦ rw e refl
      | inr e ↦ rw e refl
    ];
  }

pub ruleset keeps_rules = (
  Keeps-done, Keeps-lift, Keeps-gets, Keeps-modify, Keeps-on_syncer, Keeps-bind, Keeps-send_to,
  Keeps-if, Keeps-guarded, Keeps-confirmed, Keeps-emit, Keeps-try_send,
)

-- Whether the arm of `confirmed` is taken.
abbrev pub holds : Option ℕ → (ℕ → Runtime → Bool) → Runtime → Bool
holds none test r = false
holds (some c) test r = test c r

module _ (P : TxLabel → Type 0) where
  -- What comes before the broadcast broadcasts nothing and keeps the view.
  pub Casts-keeping :
      {X A B : Type 0} (f : Runtime → X) (m : Exec A) (k : A → Exec B) (w : World)
      → Quiet m
      → Keeps f m
      → ((a : A) (w' : World) → f w'.runtime ≡ f w.runtime → Casts P (k a) w')
      → Casts P (m >>= k) w
  unfolding ◌>>=◌
  Casts-keeping f m k w p h q = go (m w) refl
    where
      go : (r : Result _ × World) → m w ≡ r → Casts P (m >>= k) w
      go (ok a, w') e = elim (q a w' (ap (λ r. f r.1.runtime) (sym e) ∙ h.keeps w)) [
        | silent c ↦ silent (rw e (c ∙ ap (λ r. broadcasts r.1.trace) (sym e) ∙ p.quiet w))
        | cast l tx out x i c ↦ cast l tx out x i (
            rw e (
              c
              ∙ ap (λ r. out ++ (logged l tx ∷ broadcasts r.1.trace)) (sym e)
              ∙ ap (λ t. out ++ (logged l tx ∷ t)) (p.quiet w)))
      ]
      go (err, w') e = silent (rw e (ap (λ r. broadcasts r.1.trace) (sym e) ∙ p.quiet w))

  Casts-else :
      {A : Type 0} (test : Runtime → Bool) (m n : Exec A) (w : World)
      → (test w.runtime ≡ true → Casts P m w)
      → (test w.runtime ≡ false → Casts P n w)
      → Casts P (guarded test m n) w
  unfolding guarded
  Casts-else test m n w p q = elim (Bool-cases (test w.runtime)) [
    | inl e ↦ taken e (p e)
    | inr e ↦ passed e (q e)
  ]
    where
      taken : test w.runtime ≡ true → Casts P m w → Casts P (guarded test m n) w
      taken e (silent h) = silent (rw e h)
      taken e (cast l tx out a i h) = cast l tx out a i (rw e h)

      passed : test w.runtime ≡ false → Casts P n w → Casts P (guarded test m n) w
      passed e (silent h) = silent (rw e h)
      passed e (cast l tx out a i h) = cast l tx out a i (rw e h)

  pub Casts-decided :
      {A : Type 0} (o : Option ℕ) (test : ℕ → Runtime → Bool) (m : ℕ → Exec A) (n : Exec A)
      (w : World)
      → ((c : ℕ) → holds o test w.runtime ≡ true → Casts P (m c) w)
      → (holds o test w.runtime ≡ false → Casts P n w)
      → Casts P (confirmed o test m n) w
  unfolding confirmed
  Casts-decided none test m n w p q = q refl
  Casts-decided (some c) test m n w p q = Casts-else (test c) (m c) n w (p c) q
