-- ===== src/Base/Int.antt =====
-- Integers over the native numbers.
use Prim.Native.Nat.{ℕ, suc, ◌+◌, ◌-◌, ◌≤◌}
use mathlib.Core.Path.{◌≡◌}
use mathlib.Core.Bool.{Bool}
use native.Mathlib.Omega.{arith}
use mini_sb_agent.Base.Tests.{ltb, leb, if◌then◌else◌}

-- `negsuc n` is -(n + 1).
pub data ℤ : Type 0 where
  pos : ℕ → ℤ
  negsuc : ℕ → ℤ

abbrev pub pos_part : ℤ → ℕ
pos_part (pos n) = n
pos_part (negsuc n) = 0

abbrev pub neg_part : ℤ → ℕ
neg_part (pos n) = 0
neg_part (negsuc n) = suc n

abbrev pub diff : ℕ → ℕ → ℤ
diff a b = if leb b a then pos (a - b) else negsuc (b - a - 1)

infixl 65 ◌+ℤ◌ ◌-ℤ◌
infix 50 ◌≤ℤ◌
unfoldable pub ◌+ℤ◌ : ℤ → ℤ → ℤ
x +ℤ y = diff (pos_part x + pos_part y) (neg_part x + neg_part y)

unfoldable pub ◌-ℤ◌ : ℤ → ℤ → ℤ
x -ℤ y = diff (pos_part x + neg_part y) (neg_part x + pos_part y)

abbrev pub ◌≤ℤ◌ : ℤ → ℤ → Type 0
x ≤ℤ y = pos_part x + neg_part y ≤ pos_part y + neg_part x

abbrev pub ltb_ℤ : ℤ → ℤ → Bool
ltb_ℤ x y = ltb (pos_part x + neg_part y) (pos_part y + neg_part x)

pub +ℤ_parts :
    (x y : ℤ)
    → pos_part (x +ℤ y) + neg_part x + neg_part y ≡ neg_part (x +ℤ y) + pos_part x + pos_part y
unfolding ◌+ℤ◌
+ℤ_parts x y = ground arith

pub -ℤ_parts :
    (x y : ℤ)
    → pos_part (x -ℤ y) + neg_part x + pos_part y ≡ neg_part (x -ℤ y) + pos_part x + neg_part y
unfolding ◌-ℤ◌
-ℤ_parts x y = ground arith
