-- ===== src/Base/Int.antt =====
-- Python's int where it may be negative.
use Prim.Native.Nat.{ℕ, suc, ◌+◌, ◌-◌}
use mathlib.Core.List.{◌∷◌}
use mathlib.Core.Bool.{Bool}
use ee_kernel.Base.Tests.{leb, if◌then◌else◌}
use ee_kernel.Base.Strings.{Text, nat_str}

-- `negsuc n` is -(n + 1).
pub data ℤ : Type 0 where
  pos : ℕ → ℤ
  negsuc : ℕ → ℤ

abbrev pub pos_part : ℤ → ℕ
pos_part (pos n) = n
pos_part (negsuc n) = 0

abbrev pub neg_part : ℤ → ℕ
neg_part (pos n) = 0
neg_part (negsuc n) = suc n

-- a + n for a natural number n
unfoldable pub add_ℕ : ℤ → ℕ → ℤ
add_ℕ (pos m) n = pos (m + n)
add_ℕ (negsuc m) n = if leb (suc m) n then pos (n - suc m) else negsuc (m - n)

-- b - a for a ≤ b
unfoldable pub distance : ℤ → ℤ → ℕ
distance a b = (pos_part b + neg_part a) - (pos_part a + neg_part b)

-- a <= b
unfoldable pub leb_ℤ : ℤ → ℤ → Bool
leb_ℤ a b = leb (pos_part a + neg_part b) (pos_part b + neg_part a)

-- str(a)
unfoldable pub int_str : ℤ → Text
int_str (pos n) = nat_str n
int_str (negsuc n) = 45 ∷ nat_str (suc n)

-- a - b
unfoldable pub minus : ℤ → ℤ → ℤ
minus a b =
    let up = pos_part a + neg_part b in
    let down = pos_part b + neg_part a in
    if leb down up then pos (up - down) else negsuc (down - up - 1)
