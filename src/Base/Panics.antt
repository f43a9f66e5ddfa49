-- ===== src/Base/Panics.antt =====
-- Code that may panic: `none` is the panic.
use mathlib.Core.Path.{◌≡◌, sym, subst}
use mathlib.Core.Option.{Option, none, some}

infixl 5 ◌>>=◌
abbrev pub ◌>>=◌ : {A B : Type 0} → Option A → (A → Option B) → Option B
none >>= f = none
some a >>= f = f a

-- The code returns, with a result that satisfies `P`.
abbrev pub Yields : {A : Type 0} → (A → Type 0) → Option A → Type 0
Yields P none = ⊥
Yields P (some a) = P a

module _ {A B : Type 0} (P : B → Type 0) (Q : A → Type 0) where
  pub Yields-bind :
      (m : Option A) (f : A → Option B)
      → Yields Q m
      → ((a : A) → Q a → Yields P (f a))
      → Yields P (m >>= f)
  Yields-bind none f h k = h
  Yields-bind (some a) f h k = k a h

pub Yields-of_eq :
    {A : Type 0} (P : A → Type 0) (r : Option A) (a : A) → r ≡ some a → P a → Yields P r
Yields-of_eq P r a e p = subst (Yields P) (sym e) p
