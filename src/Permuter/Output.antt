-- ===== src/Permuter/Output.antt =====
-- `should_output` and `record_result`, and the loop of main.py that outputs results.
pub mod Novelty
pub mod Best
pub mod Ahead
use ee_kernel.Base.{
  is_some, ℕ, min, Bool, true, false, not, ◌&&◌, ◌||◌, Text, text_eq, any, List, [], ◌∷◌, Option,
  none, some, ltb, leb, ◌==◌, if◌then◌else◌,
}
use ee_kernel.Permuter.State.{CandidateResult, Options, Permuter}

-- score_threshold is None or score < score_threshold
abbrev below_threshold : ℕ → Option ℕ → Bool
below_threshold score none = true
below_threshold score (some threshold) = ltb score threshold

-- hash in hashes, for a hash that is there
abbrev pub known : Option Text → List Text → Bool
known none hashes = false
known (some hash) hashes = any (text_eq hash) hashes

-- hashes.add(hash), unless it is None
abbrev add_hash : Option Text → List Text → List Text
add_hash none hashes = hashes
add_hash (some hash) hashes = hash ∷ hashes

module _ {Candidate : Type 0} where
  unfoldable pub should_output : Options → Permuter Candidate → CandidateResult → Bool
  should_output options p result =
      leb result.score options.base_score
      && is_some result.hash
      && is_some result.source
      && not (ltb p.best_score result.score && options.best_only)
      && (ltb result.score options.base_score
          || (result.score == options.base_score && not options.better_only))
      && below_threshold result.score options.score_threshold
      && not (known result.hash p.hashes)

  unfoldable pub record_result : CandidateResult → Permuter Candidate → Permuter Candidate
  record_result result p = record p {
    best_score = min p.best_score result.score;
    hashes = if result.score == 0 then p.hashes else add_hash result.hash p.hashes;
  }

  -- post_score of main.py: a result that should be output is recorded and written.
  unfoldable pub post_score : Options → CandidateResult → Permuter Candidate → Permuter Candidate
  unfolding should_output record_result
  post_score options result p = if should_output options p result then record_result result p else p

  -- The results of a run that are written, in order, and the state behind them.
  unfoldable pub written :
      Options → Permuter Candidate → List CandidateResult → List CandidateResult
  unfolding post_score
  written options p [] = []
  written options p (r ∷ rs) =
      let rest = written options (post_score options r p) rs in
      if should_output options p r then r ∷ rest else rest
