-- ===== src/Swapd/Runtime/Rules.antt =====
-- Rules for code on the runtime of a swap (src/swapd/runtime.rs): one for each way to build it, about
-- what it returns.
use farcaster_node.Base.{
  ℕ, Bool, true, false, Option, none, some, inl, inr, if◌then◌else◌, Bool-cases,
}
use farcaster_node.Swapd.Runtime.{
  Runtime, World, Result, ok, err, Exec, done, guarded, confirmed, continue, ◌>>=◌,
}

-- `Q` holds of a returned value; of an error nothing is said.
abbrev pub Post : {A : Type 0} → (A → Type 0) → Result A → Type 0
Post Q (ok a) = Q a
Post Q err = Unit

pub record Returns {A : Type 0} (Q : A → Type 0) (m : Exec A) : Type 0 where
  pub at : (w : World) → Post Q (m w).0

module _ {A : Type 0} (Q : A → Type 0) where
  pub Returns-done : (a : A) → Q a → Returns Q (done a)
  unfolding done
  Returns-done a q = record { at = λ w. q }

  pub Returns-if :
      (b : Bool) (m n : Exec A) → Returns Q m → Returns Q n → Returns Q (if b then m else n)
  Returns-if true m n p q = p
  Returns-if false m n p q = q

  pub Returns-guarded :
      (test : Runtime → Bool) (m n : Exec A)
      → Returns Q m
      → Returns Q n
      → Returns Q (guarded test m n)
  unfolding guarded
  Returns-guarded test m n p q = record {
    at = λ w. elim (Bool-cases (test w.runtime)) [ inl e ↦ rw e (p.at w) | inr e ↦ rw e (q.at w) ];
  }

  pub Returns-confirmed :
      (o : Option ℕ) (test : ℕ → Runtime → Bool) (m : ℕ → Exec A) (n : Exec A)
      → ((c : ℕ) → Returns Q (m c))
      → Returns Q n
      → Returns Q (confirmed o test m n)
  unfolding confirmed
  Returns-confirmed none test m n p q = q
  Returns-confirmed (some c) test m n p q = Returns-guarded (test c) (m c) n (p c) q

pub Returns-bind :
    {A B : Type 0} (Q : B → Type 0) (m : Exec A) (f : A → Exec B)
    → ((a : A) → Returns Q (f a))
    → Returns Q (m >>= f)
unfolding ◌>>=◌
Returns-bind Q m f p = record { at = λ w. go (m w) }
  where
    go : (r : Result _ × World) → Post Q (continue r.0 f r.1).0
    go (ok a, w) = (p a).at w
    go (err, w) = tt

pub ruleset returns_rules =
    (Returns-done, Returns-if, Returns-guarded, Returns-confirmed, Returns-bind)
