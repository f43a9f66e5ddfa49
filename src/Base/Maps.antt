-- ===== src/Base/Maps.antt =====
-- Hash maps and hash sets as association lists and lists, with the laws that the components use.
use mathlib.Core.Path.{◌≡◌}
use mathlib.Core.Logic.{ite, if_pos, if_neg}
use mathlib.Core.Bool.{Bool, true, false}
use mathlib.Core.Option.{Option, none, some}
use Prim.Native.Nat.{ℕ}
use mathlib.Core.List.{List, [], ◌∷◌}
use native.Mathlib.Omega.{arith}
use farcaster_node.Base.Tests.{if◌then◌else◌}
use native.Mathlib.Decide.{ℕ_discrete}

-- Equality of keys and of values, the `Eq` of the source.
pub record Eq (A : Type 0) : Type 0 where
  pub eq_dec : Discrete A

abbrev pub eq_dec : {A : Type 0} ⦃e : Eq A⦄ → Discrete A
eq_dec ⦃e⦄ = e.eq_dec

abbrev pub same : {A : Type 0} ⦃e : Eq A⦄ → A → A → Bool
same a b = ite (eq_dec a b) true false

instance abbrev pub ℕ_eq : Eq ℕ
ℕ_eq = record { eq_dec = ℕ_discrete }

module _ {K V : Type 0} ⦃e : Eq K⦄ where
  unfoldable pub lookup : K → List (K × V) → Option V
  lookup k [] = none
  lookup k ((j, v) ∷ m) = ite (eq_dec j k) (some v) (lookup k m)

  unfoldable pub remove : K → List (K × V) → List (K × V)
  remove k [] = []
  remove k ((j, v) ∷ m) = ite (eq_dec j k) (remove k m) ((j, v) ∷ remove k m)

  unfoldable pub insert : K → V → List (K × V) → List (K × V)
  insert k v m = (k, v) ∷ remove k m

  pub lookup-remove :
      (j k : K) (m : List (K × V)) → lookup j (remove k m) ≡ ite (eq_dec k j) none (lookup j m)
  unfolding lookup remove
  lookup-remove j k [] = ground arith
  lookup-remove j k ((i, v) ∷ m) = ground (arith, lookup-remove j k m)

  pub lookup-insert :
      (j k : K) (v : V) (m : List (K × V))
      → lookup j (insert k v m) ≡ ite (eq_dec k j) (some v) (lookup j m)
  unfolding lookup insert
  lookup-insert j k v m = ground (arith, lookup-remove j k m)

  unfoldable pub contains_key : K → List (K × V) → Bool
  contains_key k [] = false
  contains_key k ((j, v) ∷ m) = ite (eq_dec j k) true (contains_key k m)

  pub contains_key-remove :
      (j k : K) (m : List (K × V))
      → contains_key j (remove k m) ≡ ite (eq_dec k j) false (contains_key j m)
  unfolding contains_key remove
  contains_key-remove j k [] = ground arith
  contains_key-remove j k ((i, v) ∷ m) = ground (arith, contains_key-remove j k m)

  pub contains_key-insert :
      (j k : K) (v : V) (m : List (K × V))
      → contains_key j (insert k v m) ≡ ite (eq_dec k j) true (contains_key j m)
  unfolding contains_key insert
  contains_key-insert j k v m = ground (arith, contains_key-remove j k m)

  -- A key that the map holds has a value.
  pub lookup_of_contains_key :
      (k : K) (m : List (K × V)) → contains_key k m ≡ true → (v : V) × (lookup k m ≡ some v)
  unfolding contains_key lookup
  lookup_of_contains_key k [] h = cc
  lookup_of_contains_key k ((j, v) ∷ m) h = elim (eq_dec j k) [
    | yes p ↦ (v, rw (if_pos _ p))
    | no p ↦ rw (if_neg _ p) (lookup_of_contains_key k m (rw (if_neg _ p) at h))
  ]

  pub contains_key_of_lookup :
      (k : K) (m : List (K × V)) (v : V) → lookup k m ≡ some v → contains_key k m ≡ true
  unfolding contains_key lookup
  contains_key_of_lookup k [] v h = cc
  contains_key_of_lookup k ((j, w) ∷ m) v h = ground (arith, contains_key_of_lookup k m v)

module _ {A : Type 0} ⦃e : Eq A⦄ where
  unfoldable pub member : A → List A → Bool
  member a [] = false
  member a (x ∷ xs) = ite (eq_dec x a) true (member a xs)

  unfoldable pub set_remove : A → List A → List A
  set_remove a [] = []
  set_remove a (x ∷ xs) = ite (eq_dec x a) (set_remove a xs) (x ∷ set_remove a xs)

  unfoldable pub set_insert : A → List A → List A
  set_insert a xs = a ∷ set_remove a xs

  -- The elements of the first set that the second does not have.
  unfoldable pub difference : List A → List A → List A
  difference [] ys = []
  difference (x ∷ xs) ys = let rest = difference xs ys in if member x ys then rest else x ∷ rest

  pub member-set_remove :
      (b a : A) (xs : List A) → member b (set_remove a xs) ≡ ite (eq_dec a b) false (member b xs)
  unfolding member set_remove
  member-set_remove b a [] = ground arith
  member-set_remove b a (x ∷ xs) = ground (arith, member-set_remove b a xs)

  pub member-set_insert :
      (b a : A) (xs : List A) → member b (set_insert a xs) ≡ ite (eq_dec a b) true (member b xs)
  unfolding member set_insert
  member-set_insert b a xs = ground (arith, member-set_remove b a xs)
