-- ===== src/Permuter/Output/Ahead.antt =====
-- `should_output` of permuter.py in parent and child processes.
use ee_kernel.Base.{
  ◌≤◌, ◌≡◌, refl, arith, true, false, Bool-cases, inl, inr, Text, text_eq, any, List, Option, none,
  some, ◌==◌,
}
use ee_kernel.Permuter.State.{CandidateResult, Options, Permuter}
use ee_kernel.Permuter.Output.{add_hash, known, should_output, record_result}

-- The parent process has seen all that the child has: its best score is as low, and it knows the
-- child's hashes.
pub record IsAhead {Candidate : Type 0} (parent child : Permuter Candidate) : Type 0 where
  pub best : parent.best_score ≤ child.best_score
  pub hashes :
      (h : Text) → any (text_eq h) child.hashes ≡ true → any (text_eq h) parent.hashes ≡ true

add_hash-keeps :
    (o : Option Text) (hashes : List Text) (h : Text)
    → any (text_eq h) hashes ≡ true
    → any (text_eq h) (add_hash o hashes) ≡ true
add_hash-keeps none hashes h e = e
add_hash-keeps (some new) hashes h e = ground (arith, e)

module _ {Candidate : Type 0} where
  -- Recording a result only brings a process further.
  pub record_result-IsAhead :
      (p : Permuter Candidate) (r : CandidateResult) → IsAhead (record_result r p) p
  unfolding record_result
  record_result-IsAhead p r = record {
    best = omega arith;
    hashes = λ h e. elim (Bool-cases (r.score == 0)) [
      | inl perfect ↦ rw perfect e
      | inr penalty ↦ rw penalty (add_hash-keeps r.hash p.hashes h e)
    ];
  }

  known-ahead :
      (parent child : Permuter Candidate)
      → IsAhead parent child
      → (o : Option Text) → known o parent.hashes ≡ false
      → known o child.hashes ≡ false
  known-ahead parent child ahead none h = refl
  known-ahead parent child ahead (some hash) h =
      elim (Bool-cases (any (text_eq hash) child.hashes)) [
        | inl e ↦ absurd (cc (ahead.hashes hash e, h))
        | inr e ↦ e
      ]

  -- What a parent that is ahead outputs, its child outputs too, so the source has been sent.
  pub should_output_liberal :
      (options : Options) (parent child : Permuter Candidate) (r : CandidateResult)
      → IsAhead parent child
      → should_output options parent r ≡ true
      → should_output options child r ≡ true
  unfolding should_output
  should_output_liberal options parent child r ahead h =
      let low = ahead.best in
      let new = known-ahead parent child ahead r.hash in ground (arith, low, new)
