-- ===== src/Permuter/State.antt =====
-- The fields of Permuter in permuter.py, and CandidateResult of candidate.py.
use ee_kernel.Base.{ℕ, Bool, Text, List, Dict, Option}
use ee_kernel.Perm.Root.{RootPerm}

-- CandidateResult, without its timings
pub record CandidateResult : Type 0 where
  pub score : ℕ
  pub hash : Option Text
  pub source : Option Text

-- EvalResult, without its timings
pub data EvalResult : Type 0 where
  candidate_result : CandidateResult → EvalResult
  eval_error : (exc_str : Option Text) → (seed : Option (ℕ × ℕ)) → EvalResult

-- The fields that stay as the constructor sets them.
pub record Options : Type 0 where
  pub permutations : RootPerm
  pub force_rng_seed : Option ℕ
  pub need_all_sources : Bool
  pub show_errors : Bool
  pub best_only : Bool
  pub better_only : Bool
  pub score_threshold : Option ℕ
  pub base_score : ℕ

-- The fields that change. `Candidate` is the type of candidates.
pub record Permuter (Candidate : Type 0) : Type 0 where
  pub best_score : ℕ
  pub hashes : List Text
  pub cur_seed : Option (ℕ × ℕ)
  pub cur_cand : Option Candidate
  pub last_score : Option ℕ
  pub score_for_source : Dict ℕ
