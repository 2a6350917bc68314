-- ===== src/Scorer/Score.antt =====
-- `Scorer.score`. The disassembler, the sequence matcher and the hash are other programs' and the
-- standard library's: they are parameters.
use ee_kernel.Base.{
  newline, ℕ, Text, List, [], ◌∷◌, map, Option, none, some, Result, ok, ◌>>=◌, join,
}
use ee_kernel.Scorer.Fields.{Line}
use ee_kernel.Scorer.Penalties.{penalty_inf, final_score}
use ee_kernel.Scorer.Sameline.{Settings}
use ee_kernel.Scorer.Diff.{Opcode, start, diff_loop, penalties}

abbrev pub row_of : Line → Text
row_of line = line.row

module _
    -- objdump(o_file, ...)
    (objdump : Text → List Line)
    -- the opcodes of the candidate's mnemonics against the target's
    (opcodes : List Text → List Text → List Opcode)
    -- hashlib.sha256(...).hexdigest()
    (sha256 : Text → Text) where
  -- The score and the hash of the rows; a candidate that did not compile has neither.
  unfoldable pub score : Settings → List Line → Option Text → Result (ℕ × Text)
  score settings target_seq none = ok (penalty_inf, [])
  score settings target_seq (some []) = ok (penalty_inf, [])
  score settings target_seq (some (c ∷ path)) =
      let cand_o = c ∷ path in
      let cand_seq = objdump cand_o in
      let mnemonics = map (λ (line : Line). line.mnemonic) in
      diff_loop settings target_seq cand_seq (opcodes (mnemonics cand_seq) (mnemonics target_seq))
        start
      >>= λ st. ok (final_score (penalties st), sha256 (join newline (map row_of cand_seq)))
