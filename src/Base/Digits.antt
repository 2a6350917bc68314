-- ===== src/Base/Digits.antt =====
-- The digits of a seed to mixed bases: `divmod` by one count after the other.
use native.Mathlib.Nat.{
  add-mul-mod_self_right, mod-eq_of_lt, add-mul-div_right, div-eq_of_lt, div-lt_iff_lt-mul,
  div-add-mod', mul_comm,
}
use ee_kernel.Base.{ℕ, zero, suc, ◌+◌, ◌*◌, ◌/◌, ◌%◌, ◌<◌, ◌≡◌, ◌∙◌, arith}

-- Putting a digit below a number, and taking it off again.
pub digit_rest : (i s n : ℕ) → i < n → ((i + s * n) % n ≡ i) × ((i + s * n) / n ≡ s)
digit_rest i s n h = (
  add-mul-mod_self_right i s n ∙ mod-eq_of_lt h,
  add-mul-div_right i s (omega arith) ∙ omega (arith, div-eq_of_lt h),
)

pub digit_bound : (i s n k : ℕ) → i < n → s < k → i + s * n < n * k
digit_bound i s n k h lt = grind arith

pub base_pos : (s a b : ℕ) → s < a * b → 0 < a
base_pos s zero b h = omega arith
base_pos s (suc a) b h = omega arith

pub rest_bound : (s a b : ℕ) → s < a * b → s / a < b
rest_bound s a b h = (div-lt_iff_lt-mul (base_pos s a b h)).1 (rw (mul_comm b a) h)

pub low_bound : (s a b : ℕ) → s < a * b → s % a < a
low_bound s a b h = let pos = base_pos s a b h in omega arith

pub by_digits : (n s t : ℕ) → s % n ≡ t % n → s / n ≡ t / n → s ≡ t
by_digits n s t p q = cc (div-add-mod' s n, div-add-mod' t n, p, q)
