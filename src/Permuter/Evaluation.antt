-- ===== src/Permuter/Evaluation.antt =====
-- `_eval_candidate` of permuter.py. An exception leaves the permuter as it was changed until then,
-- so every stage returns a permuter beside its result.
pub mod Cache
pub mod Sent
pub mod Try
use ee_kernel.Base.{
  [], ◌∷◌, ℕ, zero, suc, Bool, true, false, not, ◌&&◌, ◌||◌, Text, Option, none, some, Result, ok,
  err, compile_failure, lookup, insert, length, ltb, ◌==◌, if◌then◌else◌,
}
use ee_kernel.Perm.Tree.{is_random}
use ee_kernel.Perm.State.{EvalState, empty_state}
use ee_kernel.Perm.Root.{RootPerm, evaluate_root}
use ee_kernel.Scorer.Penalties.{penalty_inf}
use ee_kernel.Permuter.State.{CandidateResult, Options, Permuter}
use ee_kernel.Permuter.Output.{should_output}

-- What the evaluation calls: the parser and the randomizer of candidates, the compiler and the
-- scorer as functions of a source and of an object file, and SHA-256.
pub record Calls (Candidate : Type 0) : Type 0 where
  pub from_source : Text → EvalState → ℕ → Result Candidate
  pub randomize_ast : Candidate → Result Candidate
  pub get_source : Candidate → Text
  pub compile : Text → Option Text
  pub score : Option Text → Result (ℕ × Text)
  pub digest : Text → Text

-- The random numbers of one evaluation: whether random.uniform(0, 1) < keep_prob, and
-- random.randrange(1, 10**20).
pub record Draws : Type 0 where
  pub below_keep_prob : Bool
  pub rng_seed : ℕ

-- A forced seed that is neither None nor 0
abbrev truthy : Option ℕ → Bool
truthy none = false
truthy (some zero) = false
truthy (some (suc n)) = true

-- self._last_score not in (0, PENALTY_INF)
abbrev may_keep : Option ℕ → Bool
may_keep none = true
may_keep (some score) = not (score == 0) && not (score == penalty_inf)

unfoldable pub keeps : Options → Draws → Option ℕ → Bool
keeps options draws last_score =
    (is_random options.permutations.inner && draws.below_keep_prob && may_keep last_score)
    || truthy options.force_rng_seed

-- self._force_rng_seed or random.randrange(1, 10**20)
unfoldable pub chosen_seed : Options → Draws → ℕ
chosen_seed options draws = elim options.force_rng_seed [
  | none ↦ draws.rng_seed
  | some n ↦ if n == 0 then draws.rng_seed else n
]

-- not o_file
abbrev pub no_file : Option Text → Bool
no_file none = true
no_file (some []) = true
no_file (some (c ∷ path)) = false

-- A source that is not needed is not sent.
unfoldable pub sent : Bool → CandidateResult → CandidateResult
sent true result = result
sent false result = record result { source = none; hash = none }

module _ {Candidate : Type 0} where
  -- A stage behind another one, if that one raised nothing.
  unfoldable pub next {ℓ κ} :
      {A : Type ℓ} {B : Type κ}
      → Permuter Candidate × Result A
      → (Permuter Candidate → A → Permuter Candidate × Result B)
      → Permuter Candidate × Result B
  next (p, err e) f = (p, err e)
  next (p, ok a) f = f p a

  -- What follows the parse of a new candidate.
  unfoldable pub set_candidate :
      Permuter Candidate → Result Candidate → Permuter Candidate × Result Candidate
  set_candidate p (err e) = (p, err e)
  set_candidate p (ok c) = (record p { cur_cand = some c }, ok c)

  -- What follows the evaluation of the seed.
  unfoldable pub set_seed :
      Calls Candidate
      → ℕ
      → ℕ
      → Permuter Candidate
      → Result (Text × EvalState)
      → Permuter Candidate × Result Candidate
  unfolding set_candidate
  set_seed calls seed rng_seed p (err e) = (p, err e)
  set_seed calls seed rng_seed p (ok (cand_c, eval_state)) =
      set_candidate (record p { cur_seed = some (seed, rng_seed) })
        (calls.from_source cand_c eval_state rng_seed)

  -- The candidate that is there is kept or replaced by the new one.
  unfoldable pub keep_or :
      Bool
      → Option Candidate
      → Permuter Candidate
      → Permuter Candidate × Result Candidate
      → Permuter Candidate × Result Candidate
  keep_or keep none p new = new
  keep_or keep (some c) p new = if keep then (p, ok c) else new

  -- Create a new candidate, unless there is one to keep.
  unfoldable pub obtain :
      Calls Candidate
      → Options
      → Draws
      → Bool
      → ℕ
      → Permuter Candidate
      → Permuter Candidate × Result Candidate
  unfolding set_seed chosen_seed keep_or
  obtain calls options draws keep seed p = keep_or keep p.cur_cand p (
      set_seed calls seed (chosen_seed options draws) p
        (evaluate_root options.permutations seed empty_state))

  -- self._cur_cand.randomize_ast(), for sources that are random
  unfoldable pub randomize :
      Calls Candidate
      → Options
      → Permuter Candidate
      → Candidate
      → Permuter Candidate × Result Candidate
  unfolding set_candidate
  randomize calls options p c =
      if is_random options.permutations.inner
      then set_candidate p (calls.randomize_ast c)
      else (p, ok c)

  -- if len(self._score_for_source) < 100000: self._score_for_source[source_hash] = score
  remember : Text → ℕ → Permuter Candidate → Permuter Candidate
  remember key score p =
      if ltb (length p.score_for_source) 100000
      then record p { score_for_source = insert key score p.score_for_source }
      else p

  -- What follows the scoring.
  set_score :
      Text
      → Text
      → Permuter Candidate
      → Result (ℕ × Text)
      → Permuter Candidate × Result CandidateResult
  unfolding remember
  set_score source key p (err e) = (p, err e)
  set_score source key p (ok (score, hash)) =
      (remember key score p, ok (record { score = score; hash = some hash; source = some source }))

  -- The score of the candidate: the one remembered for its source, or a new one.
  score_source :
      Calls Candidate
      → Options
      → Option ℕ
      → Text
      → Permuter Candidate
      → Permuter Candidate × Result CandidateResult
  unfolding set_score
  score_source calls options (some old_score) source p =
      (p, ok (record { score = old_score; hash = none; source = some source }))
  score_source calls options none source p =
      let o_file = calls.compile source in
      if no_file o_file && options.show_errors
      then (p, err compile_failure)
      else set_score source (calls.digest source) p (calls.score o_file)

  score_candidate :
      Calls Candidate
      → Options
      → Permuter Candidate
      → Candidate
      → Permuter Candidate × Result CandidateResult
  unfolding score_source
  score_candidate calls options p c =
      let source = calls.get_source c in
      score_source calls options (lookup (calls.digest source) p.score_for_source) source p

  -- The last score is set, and a source that is not needed is dropped.
  unfoldable pub finish :
      Options → Permuter Candidate → CandidateResult → Permuter Candidate × Result CandidateResult
  unfolding should_output sent
  finish options p result =
      let p' = record p { last_score = some result.score } in
      let needed = options.need_all_sources || should_output options p' result in
      (p', ok (sent needed result))

  -- _eval_candidate
  unfoldable pub eval_candidate :
      Calls Candidate
      → Options
      → Draws
      → ℕ
      → Permuter Candidate
      → Permuter Candidate × Result CandidateResult
  unfolding next obtain randomize score_candidate finish keeps
  eval_candidate calls options draws seed p =
      let keep = keeps options draws p.last_score in
      next (obtain calls options draws keep seed (record p { last_score = none })) λ p1 c.
        next (randomize calls options p1 c)
          λ p2 c'. next (score_candidate calls options p2 c') λ p3 result. finish options p3 result
