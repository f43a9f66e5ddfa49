-- ===== src/Base/Int.antt =====
-- Signed integers, for the `i64` results of the source.
use Prim.Native.Nat.{ℕ, ◌-◌, ◌≤◌}
use farcaster_node.Base.Tests.{leb, if◌then◌else◌}

-- `negsuc n` is -(n + 1).
pub data ℤ : Type 0 where
  pos : ℕ → ℤ
  negsuc : ℕ → ℤ

-- a - b, as an integer.
abbrev pub sub_ℕ : ℕ → ℕ → ℤ
sub_ℕ a b = if leb b a then pos (a - b) else negsuc (b - a - 1)

abbrev pub IsNonPositive : ℤ → Type 0
IsNonPositive (pos n) = n ≤ 0
IsNonPositive (negsuc n) = Unit

abbrev pub IsNegative : ℤ → Type 0
IsNegative (pos n) = ⊥
IsNegative (negsuc n) = Unit
