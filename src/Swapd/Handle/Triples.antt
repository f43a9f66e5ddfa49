-- ===== src/Swapd/Handle/Triples.antt =====
-- What code on the runtime of a swap (src/swapd/runtime.rs) makes of one property of the runtime,
-- unless it fails.
use farcaster_node.Base.{◌≡◌, refl, ◌∙◌, ℕ, Bool, true, Option, none, some, inl, inr, Bool-cases}
use farcaster_node.Swapd.Runtime.{
  Runtime, World, Result, ok, err, Exec, done, guarded, confirmed, continue, ◌>>=◌,
}
use farcaster_node.Swapd.Runtime.Keeps.{Keeps}

abbrev pub After : {A : Type 0} → (A → Runtime → Type 0) → Result A × World → Type 0
After Q (ok a, w) = Q a w.runtime
After Q (err, w) = Unit

pub record Triple {A : Type 0} (P : Runtime → Type 0) (m : Exec A) (Q : A → Runtime → Type 0)
    : Type 0 where
  pub at : (w : World) → P w.runtime → After Q (m w)

After-continue :
    {A B : Type 0} (Q : A → Runtime → Type 0) (R : B → Runtime → Type 0) (k : B → Exec A)
    → ((b : B) → Triple (R b) (k b) Q)
    → (r : Result B × World) → After R r
    → After Q (continue r.0 k r.1)
After-continue Q R k j (ok b, w) q = (j b).at w q
After-continue Q R k j (err, w) q = tt

module _ {A : Type 0} {P : Runtime → Type 0} {Q : A → Runtime → Type 0} where
  pub Triple-done : (a : A) → ((r : Runtime) → P r → Q a r) → Triple P (done a) Q
  unfolding done
  Triple-done a h = record { at = λ w p. h w.runtime p }

  pub Triple-guarded :
      (test : Runtime → Bool) (m n : Exec A)
      → Triple (λ r. P r × (test r ≡ true)) m Q
      → Triple P n Q
      → Triple P (guarded test m n) Q
  unfolding guarded
  Triple-guarded test m n h k = record {
    at = λ w p. elim (Bool-cases (test w.runtime)) [
      | inl e ↦ rw e (h.at w (p, e))
      | inr e ↦ rw e (k.at w p)
    ];
  }

  pub Triple-confirmed :
      (o : Option ℕ) (test : ℕ → Runtime → Bool) (m : ℕ → Exec A) (n : Exec A)
      → ((c : ℕ) → Triple (λ r. P r × (test c r ≡ true)) (m c) Q)
      → Triple P n Q
      → Triple P (confirmed o test m n) Q
  unfolding confirmed
  Triple-confirmed none test m n h k = k
  Triple-confirmed (some c) test m n h k = Triple-guarded (test c) (m c) n (h c) k

  -- What holds before may be used as a fact.
  pub Triple-given :
      {X : Type 0} (m : Exec A) → ((r : Runtime) → P r → X) → (X → Triple P m Q) → Triple P m Q
  Triple-given m f h = record { at = λ w p. (h (f w.runtime p)).at w p }

  pub Triple-weaken :
      {R : Runtime → Type 0} (m : Exec A)
      → ((r : Runtime) → R r → P r)
      → Triple P m Q
      → Triple R m Q
  Triple-weaken m f h = record { at = λ w p. h.at w (f w.runtime p) }

  -- A part of the runtime that holds before may be given a name.
  pub Triple-named :
      {X : Type 0} (f : Runtime → X) (m : Exec A)
      → ((x : X) → Triple (λ r. P r × (f r ≡ x)) m Q)
      → Triple P m Q
  Triple-named f m h = record { at = λ w p. (h (f w.runtime)).at w (p, refl) }

  pub Triple-bind :
      {B : Type 0} {R : B → Runtime → Type 0} (m : Exec B) (k : B → Exec A)
      → Triple P m R
      → ((b : B) → Triple (R b) (k b) Q)
      → Triple P (m >>= k) Q
  unfolding ◌>>=◌
  Triple-bind m k h j = record { at = λ w p. After-continue _ _ k j (m w) (h.at w p) }

module _ {A X : Type 0} (f : Runtime → X) (x : X) where
  After-same : (r : Result A × World) → f r.1.runtime ≡ x → After (λ a r. f r ≡ x) r
  After-same (ok a, w) e = e
  After-same (err, w) e = tt

  pub Triple-Keeps : (m : Exec A) → Keeps f m → Triple (λ r. f r ≡ x) m (λ a r. f r ≡ x)
  Triple-Keeps m k = record { at = λ w p. After-same (m w) (k.keeps w ∙ p) }
