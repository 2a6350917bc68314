-- ===== src/Permuter/Seeds/Endless.antt =====
-- What `seed_iterator` of permuter.py gives: one round, or round after round.
use ee_kernel.Base.{
  ℕ, zero, suc, ◌*◌, ◌<◌, ◌≡◌, refl, arith, true, false, none, List, [], ◌∷◌, ◌++◌, length, ltb,
  if◌then◌else◌,
}
use ee_kernel.Base.Count.{nat_has_eq, count, SameItems, count-append}
use ee_kernel.Base.Iterators.{Drains, ends, gives, Takes, stops, takes, Takes-append}
use ee_kernel.Perm.Tree.{is_random}
use ee_kernel.Perm.Root.{RootPerm}
use ee_kernel.Perm.Seeds.{range}
use ee_kernel.Perm.Seeds.Once.{count-range}
use ee_kernel.Perm.Seeds.Ends.{IsFair, gen_all_seeds_total}
use ee_kernel.Permuter.Seeds.{
  Rounds, round_seeds, SeedIterator, all_seeds, iter, next_seed, perm_gen_all_seeds, seed_iterator,
}

-- The random numbers of every round are below the total, and fair, and shuffling keeps the items.
pub record IsRandomness (draw : ℕ → ℕ → ℕ) (shuffle : ℕ → List ℕ → List ℕ) (total : ℕ)
    : Type 0 where
  pub below : (k n : ℕ) → draw k n < total
  pub fair : (k : ℕ) → IsFair (draw k) total
  pub same_items : (k : ℕ) (xs : List ℕ) → SameItems (shuffle k xs) xs

-- With enough fuel for every round, each round is all of the numbers below the total.
rounds_of :
    (draw : ℕ → ℕ → ℕ) (shuffle : ℕ → List ℕ → List ℕ) (total : ℕ)
    → IsRandomness draw shuffle total
    → (fuel : ℕ → ℕ) × ((k : ℕ)
        → SameItems
            (round_seeds (record { draw = draw; shuffle = shuffle; fuel = fuel }) total k)
            (range 0 total))
unfolding round_seeds
rounds_of draw shuffle total h = (
  (λ k. (gen_all_seeds_total (draw k) (shuffle k) total (h.below k) (h.same_items k) (h.fair k)).0),
  λ k.
      let (fuel, seeds, made, same) =
        gen_all_seeds_total (draw k) (shuffle k) total (h.below k) (h.same_items k) (h.fair k) in
      rw made same,
)

length_of_count : (m : ℕ) (xs : List ℕ) → 0 < count m xs → 0 < length xs
unfolding count
length_of_count m [] h = h
length_of_count m (x ∷ xs) h = omega arith

module _ (r : Rounds) (permutations : RootPerm) where
  iter-Drains : (seeds : List ℕ) → Drains (next_seed r permutations) (iter seeds) seeds
  unfolding next_seed
  iter-Drains [] = ends refl
  iter-Drains (seed ∷ seeds) = gives refl (iter-Drains seeds)

  all_seeds-Takes :
      (k : ℕ) (left : List ℕ)
      → Takes (next_seed r permutations) (all_seeds k left) left (all_seeds k [])
  unfolding next_seed
  all_seeds-Takes k [] = stops
  all_seeds-Takes k (seed ∷ left) = takes refl (all_seeds-Takes k left)

  all_seeds-Drains :
      (k : ℕ) (left : List ℕ)
      → is_random permutations.inner ≡ false
      → Drains (next_seed r permutations) (all_seeds k left) left
  unfolding next_seed
  all_seeds-Drains k [] fixed = ends (rw fixed refl)
  all_seeds-Drains k (seed ∷ left) fixed = gives refl (all_seeds-Drains k left fixed)

  -- From the end of a round through the next one, which is not empty.
  round-Takes :
      (k : ℕ) (seeds : List ℕ)
      → is_random permutations.inner ≡ true
      → round_seeds r permutations.root_count (suc k) ≡ seeds
      → 0 < length seeds
      → Takes (next_seed r permutations) (all_seeds k []) seeds (all_seeds (suc k) [])
  unfolding next_seed
  round-Takes k [] random e h = absurd (omega arith)
  round-Takes k (seed ∷ left) random e h =
      takes (rw (random, e) refl) (all_seeds-Takes (suc k) left)

  -- Through the k-th round, where each round has the same seeds and there are some.
  rounds-Takes :
      (seeds : List ℕ)
      → is_random permutations.inner ≡ true
      → ((k : ℕ) → SameItems (round_seeds r permutations.root_count k) seeds)
      → 0 < count 0 seeds
      → (k : ℕ)
      → (items : List ℕ) × Takes
          (next_seed r permutations)
          (all_seeds 0 (round_seeds r permutations.root_count 0))
          items
          (all_seeds k [])
        × ((m : ℕ) → count m items ≡ suc k * count m seeds)
  rounds-Takes seeds random same h zero = (
    round_seeds r permutations.root_count 0,
    all_seeds-Takes 0 (round_seeds r permutations.root_count 0),
    λ m. omega (arith, same 0 m),
  )
  rounds-Takes seeds random same h (suc k) =
      let (items, taken, counts) = rounds-Takes seeds random same h k in
      let new = round_seeds r permutations.root_count (suc k) in
      let some_left = length_of_count 0 new (omega (arith, same (suc k) 0)) in
      (
        items ++ new,
        Takes-append taken (round-Takes k new random refl some_left),
        λ m. ground (arith, count-append m items new, counts m, same (suc k) m),
      )

-- If the source is not random, no seed is forced, and the random numbers of each round are below the
-- count and fair and shuffling keeps the items, then with enough draws the seed iterator gives each
-- seed below the count once, in some order, and ends.
pub seed_iterator-Drains :
    (permutations : RootPerm) (draw : ℕ → ℕ → ℕ) (shuffle : ℕ → List ℕ → List ℕ)
    → is_random permutations.inner ≡ false
    → IsRandomness draw shuffle permutations.root_count
    → (fuel : ℕ → ℕ) × (seeds : List ℕ) × Drains
        (next_seed (record { draw = draw; shuffle = shuffle; fuel = fuel }) permutations)
        (seed_iterator (record { draw = draw; shuffle = shuffle; fuel = fuel }) permutations none)
        seeds
      × SameItems seeds (range 0 permutations.root_count)
unfolding seed_iterator perm_gen_all_seeds
seed_iterator-Drains permutations draw shuffle fixed h =
    let (fuel, same) = rounds_of draw shuffle permutations.root_count h in
    let r : Rounds = record { draw = draw; shuffle = shuffle; fuel = fuel } in
    (
      fuel,
      round_seeds r permutations.root_count 0,
      all_seeds-Drains r permutations 0 _ fixed,
      same 0,
    )

-- If the source is random, no seed is forced, and the random numbers of each round are below the
-- count and fair and shuffling keeps the items, then with enough draws the seed iterator goes on for
-- any number of rounds: behind round k it has given each seed below the count k + 1 times, and no
-- other number.
pub seed_iterator-endless :
    (permutations : RootPerm) (draw : ℕ → ℕ → ℕ) (shuffle : ℕ → List ℕ → List ℕ)
    → is_random permutations.inner ≡ true
    → IsRandomness draw shuffle permutations.root_count
    → (fuel : ℕ → ℕ) × ((k : ℕ)
        → (items : List ℕ) × (it : SeedIterator) × Takes
            (next_seed (record { draw = draw; shuffle = shuffle; fuel = fuel }) permutations)
            (seed_iterator
              (record { draw = draw; shuffle = shuffle; fuel = fuel })
              permutations
              none)
            items
            it
          × ((m : ℕ) → count m items ≡ (if ltb m permutations.root_count then suc k else 0)))
unfolding seed_iterator perm_gen_all_seeds
seed_iterator-endless permutations draw shuffle random h =
    let (fuel, same) = rounds_of draw shuffle permutations.root_count h in
    let r : Rounds = record { draw = draw; shuffle = shuffle; fuel = fuel } in
    let total = permutations.root_count in
    let one : 0 < count 0 (range 0 total) = ground (arith, count-range 0 0 total, h.below 0 0) in
    (
      fuel,
      λ k.
          let (items, taken, counts) =
            rounds-Takes r permutations (range 0 total) random same one k in
          (items, all_seeds k [], taken, λ m. ground (arith, counts m, count-range m 0 total)),
    )
