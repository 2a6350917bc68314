-- ===== src/Run/Cycle.antt =====
-- cycle_seeds of main.py: the seeds of several permuters in turn.
pub mod Turns
use ee_kernel.Base.{
  ℕ, zero, suc, ◌-◌, ◌%◌, ◌⊎◌, inl, inr, Option, none, some, List, [], ◌∷◌, length, get_elem?,
  set_elem, erase_idx,
}
use ee_kernel.Base.Int.{ℤ, pos, negsuc, add_ℕ, minus}
use ee_kernel.Base.Count.{Eq, count, SameItems, count-append}
use ee_kernel.Base.Iterators.{Drains, ends, gives, Along}

-- i % n, for n that is not 0
unfoldable pub index_mod : ℤ → ℕ → ℕ
index_mod (pos i) n = i % n
index_mod (negsuc i) n = (n - 1) - i % n

-- enumerate
unfoldable pub enumerate {ℓ} : {A : Type ℓ} → ℕ → List A → List (ℕ × A)
enumerate from [] = []
enumerate from (x ∷ xs) = (from, x) ∷ enumerate (suc from) xs

module _ {It : Type 0} (next_seed : It → Option (ℕ × It)) where
  -- The state of cycle_seeds between two of its items: `i` and `iterators`, each iterator with the
  -- index of its permuter.
  abbrev pub Cycling : Type 0
  Cycling = ℤ × List (ℕ × It)

  -- One turn of the loop, for the iterator at place j: what it yields, or the state without it.
  unfoldable pub turn : ℕ → List (ℕ × It) → Option (ℕ × It) → Option ((ℕ × ℕ) × Cycling) ⊎ Cycling
  turn j iterators none = inl none
  turn j iterators (some (perm_ind, it)) = elim (next_seed it) [
    | none ↦ inr (minus (pos j) (pos 1), erase_idx iterators j)
    | some (seed, it') ↦
        inl (some ((perm_ind, seed), (pos (suc j), set_elem iterators j (perm_ind, it'))))
  ]

  -- What the turns behind a turn yield.
  unfoldable pub then_on :
      Option ((ℕ × ℕ) × Cycling) ⊎ Cycling
      → (Cycling → Option ((ℕ × ℕ) × Cycling))
      → Option ((ℕ × ℕ) × Cycling)
  then_on (inl item) more = item
  then_on (inr state) more = more state

  -- The next item. A turn that yields nothing drops an iterator, so there are at most as many as
  -- there are iterators.
  unfoldable pub next_within : ℕ → Cycling → Option ((ℕ × ℕ) × Cycling)
  unfolding turn then_on index_mod
  next_within n (i, []) = none
  next_within zero (i, it ∷ its) = none
  next_within (suc n) (i, it ∷ its) =
      let j = index_mod i (length (it ∷ its)) in
      then_on (turn j (it ∷ its) (get_elem? (it ∷ its) j)) (next_within n)

  unfoldable pub cycle_next : Cycling → Option ((ℕ × ℕ) × Cycling)
  cycle_next (i, iterators) = next_within (length iterators) (i, iterators)

  -- cycle_seeds, before its first item
  unfoldable pub cycle_seeds : List It → Cycling
  unfolding enumerate
  cycle_seeds iterators = (pos 0, enumerate 0 iterators)
