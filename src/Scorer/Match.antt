-- ===== src/Scorer/Match.antt =====
-- Scores of whole candidates by scorer.py: a perfect match, and a score of 0.
use ee_kernel.Base.{
  newline, ℕ, zero, suc, ◌+◌, ◌-◌, ◌≤◌, ◌≡◌, refl, arith, Text, text_eq_refl, List, [], ◌∷◌, map,
  some, Result, ok, length, join,
}
use ee_kernel.Base.Count.{text_has_eq}
use ee_kernel.Scorer.Fields.{Line}
use ee_kernel.Scorer.Penalties.{Penalties, final_score}
use ee_kernel.Scorer.Sameline.{Settings, diff_sameline}
use ee_kernel.Scorer.Diff.{
  equal, Opcode, DiffState, start, add_diff, equal_loop, diff_opcode, diff_loop, penalties,
}
use ee_kernel.Scorer.Accounting.{line_at-ok, CoverFrom, compared, diff_loop_accounts}
use ee_kernel.Scorer.Score.{score, row_of}

-- Comparing lines with themselves changes no counter.
equal_loop_self :
    (settings : Settings) (lines : List Line) (n i : ℕ) (st : DiffState)
    → i + n ≤ length lines
    → equal_loop settings lines lines n i i st ≡ ok st
unfolding equal_loop add_diff diff_sameline
equal_loop_self settings lines zero i st h = refl
equal_loop_self settings lines (suc n) i st h =
    let (line, at) = line_at-ok lines i (omega arith) in
    rw (at, no_diff line) (equal_loop_self settings lines n (i + 1) st (omega arith))
  where
    no_diff : (line : Line) → add_diff (diff_sameline settings line line) st ≡ st
    no_diff line = ground (arith, text_eq_refl line.row)

no_penalty : final_score (penalties start) ≡ 0
unfolding final_score penalties
no_penalty = refl

all_zero :
    (p : Penalties) → final_score p ≡ 0 → (p.insertion ≡ 0) × (p.deletion ≡ 0) × (p.reordering ≡ 0)
unfolding final_score
all_zero p h = (omega arith, omega arith, omega arith)

first_ok : {m n : ℕ} {s t : Text} → ◌≡◌ {A = Result (ℕ × Text)} (ok (m, s)) (ok (n, t)) → m ≡ n
first_ok h = cc

module _ (objdump : Text → List Line) (opcodes : List Text → List Text → List Opcode)
    (sha256 : Text → Text) (settings : Settings) (target : List Line) where
  abbrev mnemonics : List Line → List Text
  mnemonics = map (λ (line : Line). line.mnemonic)

  -- The opcodes for a candidate.
  abbrev ops_for : List Line → List Opcode
  ops_for cand = opcodes (mnemonics cand) (mnemonics target)

  -- A candidate whose disassembly is the target's, which the matcher reports as one equal block,
  -- scores 0.
  pub score_self :
      (c : ℕ) (path : Text)
      → objdump (c ∷ path) ≡ target
      → ops_for target
        ≡ record { tag = equal; i1 = 0; i2 = length target; j1 = 0; j2 = length target } ∷ []
      → score objdump opcodes sha256 settings target (some (c ∷ path))
        ≡ ok (0, sha256 (join newline (map row_of target)))
  unfolding score diff_loop diff_opcode
  score_self c path same block = simp (
    same,
    block,
    equal_loop_self settings target (length target - 0) 0 start (omega arith),
    no_penalty,
  )

  -- With opcodes that cover both programs, a score of 0 says that every line of the candidate and
  -- every line of the target stands in an equal block, so the programs are equally long.
  pub score-zero_compared :
      (c : ℕ) (path hash : Text)
      → CoverFrom 0 0 (length (objdump (c ∷ path))) (length target) (ops_for (objdump (c ∷ path)))
      → score objdump opcodes sha256 settings target (some (c ∷ path)) ≡ ok (0, hash)
      → (compared (ops_for (objdump (c ∷ path))) ≡ length (objdump (c ∷ path)))
        × (length (objdump (c ∷ path)) ≡ length target)
  unfolding score
  score-zero_compared c path hash cover scored =
      let cand = objdump (c ∷ path) in
      let (st, e, accounts, accounts') =
        diff_loop_accounts settings target cand (ops_for cand) cover in
      let none = all_zero (penalties st) (first_ok (rw e at scored)) in
      (omega (arith, none.0, none.1, accounts), omega (arith, none, accounts, accounts'))
