-- ===== src/Permuter/Output/Novelty.antt =====
-- `hashes` of permuter.py over a run.
use ee_kernel.Base.{
  ◌≡◌, refl, arith, true, false, Bool-cases, inl, inr, Text, text_eq, any, List, [], ◌∷◌, Option,
  none, some, ◌==◌, if◌then◌else◌,
}
use ee_kernel.Permuter.State.{CandidateResult, Options, Permuter}
use ee_kernel.Permuter.Output.{add_hash, should_output, record_result, written}

-- The hashes of the results that are no perfect match.
unfoldable pub imperfect_hashes : List CandidateResult → List Text
imperfect_hashes [] = []
imperfect_hashes (r ∷ rs) =
    let rest = imperfect_hashes rs in if r.score == 0 then rest else add_hash r.hash rest

-- Not one of the texts.
abbrev pub IsNew : List Text → Text → Type 0
IsNew hashes h = any (text_eq h) hashes ≡ false

-- Each is new behind the ones before it.
abbrev pub AreNew : List Text → List Text → Type 0
AreNew hashes [] = Unit
AreNew hashes (h ∷ hs) = IsNew hashes h × AreNew (h ∷ hashes) hs

module _ {Candidate : Type 0} (options : Options) where
  IsNew-hash :
      (p : Permuter Candidate) (r : CandidateResult)
      → should_output options p r ≡ true
      → (o : Option Text) → r.hash ≡ o
      → (h : Text) × (o ≡ some h) × IsNew p.hashes h
  unfolding should_output
  IsNew-hash p r out none e = absurd (ground (arith, out, e))
  IsNew-hash p r out (some h) e = (h, refl, ground (arith, out, e))

  -- Writing a result with a new hash.
  after_output :
      (p : Permuter Candidate) (r : CandidateResult) (rest : List CandidateResult)
      → should_output options p r ≡ true
      → AreNew (record_result r p).hashes (imperfect_hashes rest)
      → AreNew p.hashes (imperfect_hashes (r ∷ rest))
  unfolding record_result imperfect_hashes
  after_output p r rest out later =
      let (h, there, new) = IsNew-hash p r out r.hash refl in
      elim (Bool-cases (r.score == 0)) [
        | inl perfect ↦ rw perfect (rw perfect at later)
        | inr some_penalty ↦ rw (some_penalty, there) (new, rw (some_penalty, there) at later)
      ]

  -- Among the results that a run writes, no hash of an imperfect result comes twice, and none is a
  -- hash that was known before the run.
  pub written_novel :
      (p : Permuter Candidate) (rs : List CandidateResult)
      → AreNew p.hashes (imperfect_hashes (written options p rs))
  unfolding written
  written_novel p [] = unfold imperfect_hashes in tt
  written_novel p (r ∷ rs) = elim (Bool-cases (should_output options p r)) [
    | inl out ↦ rw out (after_output p r _ out (written_novel (record_result r p) rs))
    | inr skip ↦ rw skip (written_novel p rs)
  ]
