-- ===== src/Permuter/Create.antt =====
-- The constructor of Permuter in permuter.py, for a source whose function is named.
use ee_kernel.Base.{
  ℕ, ◌≡◌, subst, arith, Bool, Option, none, [], ◌∷◌, Text, Result, ok, err, ◌>>=◌, >>=-eq-ok,
  if◌then◌else◌, exception, lookup,
}
use ee_kernel.Perm.Root.{RootPerm}
use ee_kernel.Perm.Parse.{perm_parse}
use ee_kernel.Permuter.State.{Options, Permuter}
use ee_kernel.Permuter.Evaluation.{Calls, no_file}
use ee_kernel.Permuter.Evaluation.Cache.{IsCache}
use ee_kernel.Permuter.Seeds.{perm_evaluate_one}

-- The arguments of the constructor that stay as they are
pub record PermuterArguments : Type 0 where
  pub forced_rng_seed : Option ℕ
  pub all_sources : Bool
  pub errors_shown : Bool
  pub only_best : Bool
  pub only_better : Bool
  pub threshold : Option ℕ

module _ {Candidate : Type 0} (calls : Calls Candidate) where
  -- The score and the hash of the base, unless it does not compile
  unfoldable pub score_base : Candidate → Result (ℕ × Text × Text)
  score_base base_cand =
      let o_file = calls.compile (calls.get_source base_cand) in
      if no_file o_file
      then err exception
      else calls.score o_file >>= λ (score, hash). ok (score, hash, calls.get_source base_cand)

  -- _create_and_score_base: base_score, base_hash and base_source
  unfoldable pub create_and_score_base : RootPerm → Result (ℕ × Text × Text)
  unfolding score_base
  create_and_score_base permutations =
      perm_evaluate_one permutations >>= λ (base_source, eval_state).
      calls.from_source base_source eval_state 0 >>= score_base

  -- What the constructor sets behind _create_and_score_base
  unfoldable pub fresh_permuter :
      PermuterArguments → RootPerm → ℕ × Text × Text → Options × Permuter Candidate
  fresh_permuter settings permutations (base_score, base_hash, base_source) = (
    record {
      permutations = permutations;
      force_rng_seed = settings.forced_rng_seed;
      need_all_sources = settings.all_sources;
      show_errors = settings.errors_shown;
      best_only = settings.only_best;
      better_only = settings.only_better;
      score_threshold = settings.threshold;
      base_score = base_score;
    },
    record {
      best_score = base_score;
      hashes = base_hash ∷ [];
      cur_seed = none;
      cur_cand = none;
      last_score = none;
      score_for_source = [];
    },
  )

  -- Permuter(...)
  unfoldable pub create_permuter : PermuterArguments → Text → Result (Options × Permuter Candidate)
  unfolding create_and_score_base fresh_permuter
  create_permuter settings source = perm_parse source >>= λ permutations.
      create_and_score_base permutations >>= λ base. ok (fresh_permuter settings permutations base)

  -- A permuter that was created remembers no score.
  pub create_permuter-IsCache :
      (settings : PermuterArguments) (source : Text) (options : Options) (p : Permuter Candidate)
      → create_permuter settings source ≡ ok (options, p)
      → IsCache calls p
  unfolding create_permuter
  create_permuter-IsCache settings source options p e =
      let (permutations, parsed, e1) = >>=-eq-ok (perm_parse source) _ e in
      let (base, scored, e2) = >>=-eq-ok (create_and_score_base permutations) _ e1 in
      subst (IsCache calls) (made settings permutations base options p e2)
        (fresh-IsCache settings permutations base)
    where
      fresh-IsCache :
          (settings : PermuterArguments) (permutations : RootPerm) (base : ℕ × Text × Text)
          → IsCache calls (fresh_permuter settings permutations base).1
      fresh-IsCache settings permutations (score, hash, text) = record {
        right = λ source n found. unfold lookup in cc;
        small = omega arith;
      }

      made :
          (settings : PermuterArguments) (permutations : RootPerm) (base : ℕ × Text × Text)
          (options : Options) (p : Permuter Candidate)
          → ok (fresh_permuter settings permutations base) ≡ ok (options, p)
          → (fresh_permuter settings permutations base).1 ≡ p
      made settings permutations base options p e = cc
