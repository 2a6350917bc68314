-- ===== src/Run/Results.antt =====
-- post_score of main.py, and its calls for the results of one permuter after another.
use ee_kernel.Base.{
  ℕ, suc, ◌+◌, Bool, false, not, ◌&&◌, Option, none, some, is_some, List, [], ◌∷◌, ◌++◌, any,
  get_elem?, set_elem, Text, text_eq, Result, ok, err, ◌==◌, if◌then◌else◌, index_error,
  assertion_error, system_exit,
}
use ee_kernel.Scorer.Penalties.{penalty_inf}
use ee_kernel.Permuter.State.{
  CandidateResult, EvalResult, candidate_result, eval_error, Options, Permuter,
}
use ee_kernel.Permuter.Output.{should_output, record_result}

-- The options of main.py that the run reads
pub record RunOptions : Type 0 where
  pub abort_exceptions : Bool
  pub print_diffs : Bool
  pub stop_on_zero : Bool

-- EvalContext, without what is printed, and the candidates that were written, each with the index
-- of its permuter
pub record EvalContext (Candidate : Type 0) : Type 0 where
  pub iteration : ℕ
  pub errors : ℕ
  pub internal_errors : ℕ
  pub internal_error_stack_traces : List Text
  pub permuters : List (Options × Permuter Candidate)
  pub candidates : List (ℕ × CandidateResult)

-- exc_str in internal_error_stack_traces
abbrev reported : Option Text → List Text → Bool
reported none traces = false
reported (some exc_str) traces = any (text_eq exc_str) traces

abbrev add_trace : Option Text → List Text → List Text
add_trace none traces = traces
add_trace (some exc_str) traces = exc_str ∷ traces

module _ {Candidate : Type 0} where
  -- The failure of an evaluation: it is counted, and reported once.
  unfoldable pub post_error :
      RunOptions → Option Text → EvalContext Candidate → EvalContext Candidate × Result Bool
  post_error options exc_str context =
      let counted = record context { internal_errors = suc context.internal_errors } in
      let told = record counted {
        internal_error_stack_traces = add_trace exc_str context.internal_error_stack_traces;
      } in
      if reported exc_str context.internal_error_stack_traces
      then (counted, ok false)
      else (told, if options.abort_exceptions then err system_exit else ok false)

  -- The counters, and the candidate if it should be output
  unfoldable pub post_candidate :
      ℕ
      → Options × Permuter Candidate
      → CandidateResult
      → EvalContext Candidate
      → EvalContext Candidate
  post_candidate perm_index (own, permuter) result context =
      let counted = record context {
        iteration = suc context.iteration;
        errors = context.errors + (if result.score == penalty_inf then 1 else 0);
      } in
      if should_output own permuter result
      then record counted {
        permuters = set_elem context.permuters perm_index (own, record_result result permuter);
        candidates = context.candidates ++ (perm_index, result) ∷ [];
      }
      else counted

  -- post_score, for the permuter of the index
  unfoldable pub post_score :
      RunOptions
      → ℕ
      → Options × Permuter Candidate
      → EvalResult
      → EvalContext Candidate
      → EvalContext Candidate × Result Bool
  unfolding post_error post_candidate
  post_score options perm_index permuter (eval_error exc_str seed) context =
      post_error options exc_str context
  post_score options perm_index permuter (candidate_result result) context =
      if options.print_diffs && not (is_some result.source)
      then (context, err assertion_error)
      else (post_candidate perm_index permuter result context, ok (result.score == 0))

  abbrev post_for :
      RunOptions
      → ℕ
      → EvalResult
      → EvalContext Candidate
      → Option (Options × Permuter Candidate)
      → EvalContext Candidate × Result Bool
  post_for options perm_index result context none = (context, err index_error)
  post_for options perm_index result context (some permuter) =
      post_score options perm_index permuter result context

  -- process_result
  unfoldable pub process_result :
      RunOptions → ℕ → EvalResult → EvalContext Candidate → EvalContext Candidate × Result Bool
  unfolding post_score
  process_result options perm_index result context =
      post_for options perm_index result context (get_elem? context.permuters perm_index)
