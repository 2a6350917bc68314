-- ===== src/Perm/Shuffle.antt =====
-- `_shuffle` of perm/perm.py: the seed is read as digits to the bases n, n - 1, ..., 1.
pub mod Covers
pub mod Injective
use ee_kernel.Base.{
  ℕ, zero, suc, ◌*◌, ◌/◌, ◌%◌, List, [], ◌∷◌, none, some, length, get_elem?, erase_idx,
}

-- math.factorial
unfoldable pub factorial : ℕ → ℕ
factorial zero = 1
factorial (suc n) = suc n * factorial n

module _ {ℓ} {A : Type ℓ} where
  -- `while items`, one round for each item. An index past the end would be an IndexError; the
  -- remainder never is one.
  unfoldable pub shuffle_loop : ℕ → List A → ℕ → List A
  shuffle_loop zero items seed = []
  shuffle_loop (suc rounds) items seed =
      let ind = seed % length items in
      elim (get_elem? items ind) [
        | none ↦ []
        | some item ↦ item ∷ shuffle_loop rounds (erase_idx items ind) (seed / length items)
      ]

  unfoldable pub shuffle : List A → ℕ → List A
  unfolding shuffle_loop
  shuffle items seed = shuffle_loop (length items) items seed
