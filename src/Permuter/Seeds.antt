-- ===== src/Permuter/Seeds.antt =====
-- seed_iterator of permuter.py, and perm_gen_all_seeds and perm_evaluate_one of perm/eval.py.
pub mod Endless
use ee_kernel.Base.{ℕ, suc, Option, none, some, List, [], ◌∷◌, Text, Result, if◌then◌else◌}
use ee_kernel.Perm.Tree.{is_random}
use ee_kernel.Perm.State.{EvalState, empty_state}
use ee_kernel.Perm.Root.{RootPerm, evaluate_root}
use ee_kernel.Perm.Seeds.{gen_all_seeds}

-- The random numbers of the rounds: `draw k`, `shuffle k` and `fuel k` are those of the k-th call of
-- _gen_all_seeds.
pub record Rounds : Type 0 where
  pub draw : ℕ → ℕ → ℕ
  pub shuffle : ℕ → List ℕ → List ℕ
  pub fuel : ℕ → ℕ

abbrev generated : Option (List ℕ) → List ℕ
generated none = []
generated (some seeds) = seeds

-- What the k-th call of _gen_all_seeds yields. Without enough fuel it is cut off.
unfoldable pub round_seeds : Rounds → ℕ → ℕ → List ℕ
round_seeds r total_count k =
    generated (gen_all_seeds (r.draw k) (r.shuffle k) (r.fuel k) total_count)

-- What seed_iterator returns.
pub data SeedIterator : Type 0 where
  -- perm_gen_all_seeds in its k-th round, with the seeds that are left in it
  all_seeds : (k : ℕ) (left : List ℕ) → SeedIterator
  -- itertools.repeat(seed)
  repeat : (seed : ℕ) → SeedIterator
  -- iter(seeds)
  iter : (seeds : List ℕ) → SeedIterator

-- The first seed of a round. An empty round, which a count of 0 would have, is the end here.
abbrev begin : ℕ → List ℕ → Option (ℕ × SeedIterator)
begin k [] = none
begin k (seed ∷ left) = some (seed, all_seeds k left)

module _ (r : Rounds) (permutations : RootPerm) where
  -- next(it, None)
  unfoldable pub next_seed : SeedIterator → Option (ℕ × SeedIterator)
  next_seed (all_seeds k (seed ∷ left)) = some (seed, all_seeds k left)
  next_seed (all_seeds k []) =
      if is_random permutations.inner
      then begin (suc k) (round_seeds r permutations.root_count (suc k))
      else none
  next_seed (repeat seed) = some (seed, repeat seed)
  next_seed (iter []) = none
  next_seed (iter (seed ∷ seeds)) = some (seed, iter seeds)

  unfoldable pub perm_gen_all_seeds : SeedIterator
  perm_gen_all_seeds = all_seeds 0 (round_seeds r permutations.root_count 0)

  unfoldable pub seed_iterator : Option ℕ → SeedIterator
  unfolding perm_gen_all_seeds
  seed_iterator none = perm_gen_all_seeds
  seed_iterator (some force_seed) =
      if is_random permutations.inner then repeat force_seed else iter (force_seed ∷ [])

-- perm_evaluate_one
unfoldable pub perm_evaluate_one : RootPerm → Result (Text × EvalState)
perm_evaluate_one permutations = evaluate_root permutations 0 empty_state
