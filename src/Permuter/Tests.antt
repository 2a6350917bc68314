-- ===== src/Permuter/Tests.antt =====
-- Runs over a few results, and the theorems at inputs that meet their hypotheses.
use ee_kernel.Base.{
  ℕ, suc, ◌+◌, ◌-◌, ◌%◌, ◌≤◌, ◌≡◌, refl, arith, true, false, none, some, List, [], ◌∷◌, Text, lit,
  text_eq, lookup, ok, ltb, if◌then◌else◌,
}
use ee_kernel.Base.Count.{nat_has_eq, count, SameItems}
use ee_kernel.Base.Iterators.{Drains, Takes}
use ee_kernel.Perm.Tree.{text_perm, general_perm, randomizer_perm, cons, nil, is_random}
use ee_kernel.Perm.Root.{RootPerm}
use ee_kernel.Perm.Seeds.{range}
use ee_kernel.Permuter.Seeds.{SeedIterator, next_seed, seed_iterator}
use ee_kernel.Permuter.Seeds.Endless.{IsRandomness, seed_iterator-Drains, seed_iterator-endless}
use ee_kernel.Permuter.State.{CandidateResult, Options, Permuter}
use ee_kernel.Permuter.Output.{should_output, record_result, post_score, written}
use ee_kernel.Permuter.Output.Novelty.{imperfect_hashes, AreNew, written_novel}
use ee_kernel.Permuter.Output.Best.{AreBetween, IsFrom, behind, behind_best}
use ee_kernel.Permuter.Evaluation.{Calls, Draws, finish, eval_candidate}
use ee_kernel.Permuter.Evaluation.Cache.{Post, IsCache, IsScored, eval_candidate_scores}
use ee_kernel.Permuter.Evaluation.Sent.{finish_sends}
use ee_kernel.Permuter.Output.Ahead.{record_result-IsAhead}

abbrev options : Options
options = record {
  permutations = record { inner = text_perm []; once_options = []; root_count = 1 };
  force_rng_seed = none;
  need_all_sources = false;
  show_errors = false;
  best_only = false;
  better_only = false;
  score_threshold = none;
  base_score = 100;
}

-- Behind the constructor, with the base's score and hash.
abbrev fresh : Permuter ℕ
fresh = record {
  best_score = 100;
  hashes = lit "base" ∷ [];
  cur_seed = none;
  cur_cand = none;
  last_score = none;
  score_for_source = [];
}

abbrev result : ℕ → Text → CandidateResult
result score hash = record { score = score; hash = some hash; source = some (lit "int f;") }

abbrev results : List CandidateResult
results =
    result 60 (lit "a")
    ∷ result 60 (lit "a")
    ∷ result 200 (lit "b")
    ∷ result 0 (lit "c")
    ∷ result 0 (lit "c")
    ∷ []

written_three :
    written options fresh results
    ≡ result 60 (lit "a") ∷ result 0 (lit "c") ∷ result 0 (lit "c") ∷ []
unfolding written post_score should_output record_result text_eq
written_three = refl

written_novel_example : AreNew (lit "base" ∷ []) (imperfect_hashes (written options fresh results))
written_novel_example = written_novel options fresh results

behind_best_example :
    AreBetween (behind options fresh results).best_score 100 (written options fresh results)
    × ((behind options fresh results).best_score ≤ 100)
    × IsFrom options fresh (behind options fresh results) (written options fresh results)
behind_best_example = behind_best options fresh results

-- The parent has seen one result more.
abbrev further : Permuter ℕ
further = record_result (result 60 (lit "a")) fresh

output_b : should_output options further (result 80 (lit "b")) ≡ true
unfolding should_output record_result text_eq
output_b = refl

finish_sends_example :
    finish options fresh (result 80 (lit "b"))
    ≡ (record fresh { last_score = some 80 }, ok (result 80 (lit "b")))
finish_sends_example =
    finish_sends options further fresh (result 80 (lit "b"))
      (record_result-IsAhead fresh (result 60 (lit "a"))) output_b

-- A candidate is its source, and every source has the same score.
abbrev calls : Calls Text
calls = record {
  from_source = λ source state rng_seed. ok source;
  randomize_ast = λ candidate. ok candidate;
  get_source = λ candidate. candidate;
  compile = λ source. some source;
  score = λ o_file. ok (60, lit "a");
  digest = λ source. source;
}

abbrev draws : Draws
draws = record { below_keep_prob = true; rng_seed = 5 }

-- One score is remembered.
abbrev warm : Permuter Text
warm = record {
  best_score = 100;
  hashes = lit "base" ∷ [];
  cur_seed = none;
  cur_cand = none;
  last_score = none;
  score_for_source = (lit "int f;", 60) ∷ [];
}

warm-IsCache : IsCache calls warm
unfolding lookup
warm-IsCache = record {
  right = λ source n found. (lit "a", ground (arith, found));
  small = omega arith;
}

eval_candidate_scores_example :
    Post (IsCache calls) (IsScored calls) (eval_candidate calls options draws 0 warm)
eval_candidate_scores_example =
    eval_candidate_scores calls (λ s t e. e) options draws 0 warm warm-IsCache

-- A choice of two texts
abbrev either : RootPerm
either = record {
  inner = general_perm (cons (text_perm (lit "a")) (cons (text_perm (lit "b")) nil));
  once_options = [];
  root_count = 2;
}

-- The same, and random
abbrev random_either : RootPerm
random_either = record either { inner = randomizer_perm either.inner }

-- Draws that go round and round
alternate : ℕ → ℕ → ℕ
alternate k n = n % 2

unshuffled : ℕ → List ℕ → List ℕ
unshuffled k xs = xs

alternate-IsRandomness : IsRandomness alternate unshuffled 2
unfolding alternate unshuffled
alternate-IsRandomness = record {
  below = λ k n. omega arith;
  fair = λ k m from lt. (m + (2 - from % 2), omega arith);
  same_items = λ k xs a. refl;
}

either-fixed : is_random either.inner ≡ false
unfolding is_random
either-fixed = refl

random_either-random : is_random random_either.inner ≡ true
unfolding is_random
random_either-random = refl

seed_iterator-Drains_example :
    (fuel : ℕ → ℕ) × (seeds : List ℕ) × Drains
      (next_seed (record { draw = alternate; shuffle = unshuffled; fuel = fuel }) either)
      (seed_iterator (record { draw = alternate; shuffle = unshuffled; fuel = fuel }) either none)
      seeds
    × SameItems seeds (range 0 2)
seed_iterator-Drains_example =
    seed_iterator-Drains either alternate unshuffled either-fixed alternate-IsRandomness

seed_iterator-endless_example :
    (fuel : ℕ → ℕ) × ((k : ℕ)
      → (items : List ℕ) × (it : SeedIterator) × Takes
          (next_seed (record { draw = alternate; shuffle = unshuffled; fuel = fuel }) random_either)
          (seed_iterator
            (record { draw = alternate; shuffle = unshuffled; fuel = fuel })
            random_either
            none)
          items
          it
        × ((m : ℕ) → count m items ≡ (if ltb m 2 then suc k else 0)))
seed_iterator-endless_example =
    seed_iterator-endless random_either alternate unshuffled random_either-random
      alternate-IsRandomness
