-- ===== src/Permuter/Output/Best.antt =====
-- `best_score` of permuter.py over a run.
use ee_kernel.Base.{
  ℕ, ◌≤◌, ◌≡◌, ◌⊎◌, refl, ap, ◌∙◌, arith, true, false, Bool-cases, inl, inr, All, List, [], ◌∷◌,
}
use ee_kernel.Permuter.State.{CandidateResult, Options, Permuter}
use ee_kernel.Permuter.Output.{should_output, record_result, post_score, written}

-- The score is one of the scores in the list.
abbrev pub IsScoreOf : ℕ → List CandidateResult → Type 0
IsScoreOf n [] = ⊥
IsScoreOf n (r ∷ rs) = (n ≡ r.score) ⊎ IsScoreOf n rs

-- What a run writes, between the bound and the best score behind it.
abbrev pub AreBetween : ℕ → ℕ → List CandidateResult → Type 0
AreBetween low high rs = All (λ r. (r.score ≤ high) × (low ≤ r.score)) rs

module _ {Candidate : Type 0} (options : Options) where
  -- The state behind a run over results.
  unfoldable pub behind : Permuter Candidate → List CandidateResult → Permuter Candidate
  unfolding post_score
  behind p [] = p
  behind p (r ∷ rs) = behind (post_score options r p) rs

  output_not_worse :
      (p : Permuter Candidate) (r : CandidateResult)
      → should_output options p r ≡ true
      → r.score ≤ options.base_score
  unfolding should_output
  output_not_worse p r h = ground arith

  best_of_record :
      (p : Permuter Candidate) (r : CandidateResult)
      → ((record_result r p).best_score ≤ r.score)
        × ((record_result r p).best_score ≤ p.best_score)
        × (((record_result r p).best_score ≡ r.score)
            ⊎ ((record_result r p).best_score ≡ p.best_score))
  unfolding record_result
  best_of_record p r = (omega arith, omega arith, ground arith)

  -- The best score of a run is the old one or one that the run wrote.
  abbrev pub IsFrom : Permuter Candidate → Permuter Candidate → List CandidateResult → Type 0
  IsFrom p q rs = (q.best_score ≡ p.best_score) ⊎ IsScoreOf q.best_score rs

  IsFrom-record :
      (p q : Permuter Candidate) (r : CandidateResult) (rs : List CandidateResult)
      → IsFrom (record_result r p) q rs
      → IsFrom p q (r ∷ rs)
  IsFrom-record p q r rs (inr later) = inr (inr later)
  IsFrom-record p q r rs (inl same) = elim (best_of_record p r).2 [
    | inl new ↦ inr (inl (same ∙ new))
    | inr old ↦ inl (same ∙ old)
  ]

  post_score-out :
      (p : Permuter Candidate) (r : CandidateResult)
      → should_output options p r ≡ true
      → post_score options r p ≡ record_result r p
  unfolding post_score
  post_score-out p r out = rw out refl

  output_step :
      (p : Permuter Candidate) (r : CandidateResult) (rs : List CandidateResult)
      → should_output options p r ≡ true
      → (behind p (r ∷ rs) ≡ behind (record_result r p) rs)
        × (written options p (r ∷ rs) ≡ r ∷ written options (record_result r p) rs)
  unfolding behind written
  output_step p r rs out = (ap (λ q. behind q rs) (post_score-out p r out), rw out refl)

  skip_step :
      (p : Permuter Candidate) (r : CandidateResult) (rs : List CandidateResult)
      → should_output options p r ≡ false
      → (behind p (r ∷ rs) ≡ behind p rs) × (written options p (r ∷ rs) ≡ written options p rs)
  unfolding behind written
  skip_step p r rs skip = rw skip (refl, refl)

  -- No written result is worse than the base, none is better than the best score behind the run,
  -- and that score is the one before the run or the score of a written result.
  pub behind_best :
      (p : Permuter Candidate) (rs : List CandidateResult)
      → AreBetween (behind p rs).best_score options.base_score (written options p rs)
        × ((behind p rs).best_score ≤ p.best_score)
        × IsFrom p (behind p rs) (written options p rs)
  behind_best p [] = unfold behind written in (tt, omega arith, inl refl)
  behind_best p (r ∷ rs) = elim (Bool-cases (should_output options p r)) [
    | inr skip ↦ let (e, e') = skip_step p r rs skip in rw (e, e') (behind_best p rs)
    | inl out ↦
        let (each, low, which) = behind_best (record_result r p) rs in
        let (under, best, new) = best_of_record p r in
        let (e, e') = output_step p r rs out in
        rw (e, e')
          (
            ((output_not_worse p r out, omega (arith, low, under)), each),
            omega (arith, low, best),
            IsFrom-record p (behind (record_result r p) rs) r
                (written options (record_result r p) rs) which,
          )
  ]
