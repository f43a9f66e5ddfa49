-- ===== src/Base/Results.antt =====
-- The results of code that may fail: a value, or an error.
use mathlib.Core.Path.{◌≡◌, ap}

pub data Result (A : Type 0) : Type 0 where
  ok : A → Result A
  err : Result A

or_else : {A : Type 0} → A → Result A → A
or_else a (ok b) = b
or_else a err = a

pub ok-injective : {A : Type 0} (a b : A) → ok a ≡ ok b → a ≡ b
unfolding or_else
ok-injective a b e = ap (or_else a) e
