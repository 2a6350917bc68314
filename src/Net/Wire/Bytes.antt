-- ===== src/Net/Wire/Bytes.antt =====
-- Numbers as bytes, the highest first.
use ee_kernel.Base.{
  ℕ, zero, suc, ◌+◌, ◌*◌, ◌/◌, ◌%◌, ◌^◌, ◌<◌, ◌≡◌, refl, ap, arith, [], ◌∷◌, ◌++◌, length,
  length-append, Text, ok, lt→ltb,
}
use native.Mathlib.Nat.{pow-succ'}
use ee_kernel.Base.Digits.{rest_bound}
use ee_kernel.Net.Wire.{pack_be, unpack_be, pack_q}

unpack_be-append :
    (acc : ℕ) (xs ys : Text) → unpack_be acc (xs ++ ys) ≡ unpack_be (unpack_be acc xs) ys
unfolding unpack_be
unpack_be-append acc [] ys = refl
unpack_be-append acc (x ∷ xs) ys = unpack_be-append (acc * 256 + x) xs ys

pub length-pack_be : (w n : ℕ) → length (pack_be w n) ≡ w
unfolding pack_be
length-pack_be zero n = refl
length-pack_be (suc w) n =
    omega (arith, length-pack_be w (n / 256), length-append (pack_be w (n / 256)) ((n % 256) ∷ []))

pow_step : (w : ℕ) → 256 ^ suc w ≡ 256 * 256 ^ w
pow_step w = pow-succ' 256 w

-- A number below 256 ^ w is what its w bytes are unpacked to.
pub unpack_be-pack_be : (w n : ℕ) → n < 256 ^ w → unpack_be 0 (pack_be w n) ≡ n
unfolding pack_be unpack_be
unpack_be-pack_be zero n h = omega arith
unpack_be-pack_be (suc w) n h =
    let high = rest_bound n 256 (256 ^ w) (omega (arith, pow_step w, h)) in
    rw
      (
        unpack_be-append 0 (pack_be w (n / 256)) ((n % 256) ∷ []),
        unpack_be-pack_be w (n / 256) high,
      )
      (omega arith)

pub pack_q-ok : (n : ℕ) → n < 256 ^ 8 → pack_q n ≡ ok (pack_be 8 n)
unfolding pack_q
pack_q-ok n h = rw (lt→ltb n (256 ^ 8) h) refl

-- A number that leaves the highest byte free.
pub pack_be-small : (w n : ℕ) → n < 256 ^ w → pack_be (suc w) n ≡ 0 ∷ pack_be w n
unfolding pack_be
pack_be-small zero n h = let nothing : n ≡ 0 = omega arith in rw nothing refl
pack_be-small (suc w) n h =
    ap (λ s. s ++ (n % 256) ∷ [])
      (pack_be-small w (n / 256) (rest_bound n 256 (256 ^ w) (omega (arith, pow_step w, h))))
