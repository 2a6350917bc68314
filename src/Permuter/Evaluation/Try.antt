-- ===== src/Permuter/Evaluation/Try.antt =====
-- try_eval_candidate of permuter.py.
use ee_kernel.Base.{compile_failure, ℕ, none, some, Text, Error, Result, ok, err, Option}
use ee_kernel.Permuter.State.{
  CandidateResult, EvalResult, candidate_result, eval_error, Options, Permuter,
}
use ee_kernel.Permuter.Evaluation.{Calls, Draws, eval_candidate}

-- exc_str: None for a candidate that does not compile; `format_exc` is traceback.format_exc.
unfoldable pub exc_str_of : (Error → Text) → Error → Option Text
exc_str_of format_exc compile_failure = none
exc_str_of format_exc e = some (format_exc e)

module _ {Candidate : Type 0} where
  -- What is made of the result of _eval_candidate
  unfoldable pub caught :
      (Error → Text) → Permuter Candidate × Result CandidateResult → Permuter Candidate × EvalResult
  caught format_exc (p, ok result) = (p, candidate_result result)
  caught format_exc (p, err e) = (p, eval_error (exc_str_of format_exc e) p.cur_seed)

  unfoldable pub try_eval_candidate :
      Calls Candidate
      → (Error → Text)
      → Options
      → Draws
      → ℕ
      → Permuter Candidate
      → Permuter Candidate × EvalResult
  unfolding caught
  try_eval_candidate calls format_exc options draws seed p =
      caught format_exc (eval_candidate calls options draws seed p)
