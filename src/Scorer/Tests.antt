-- ===== src/Scorer/Tests.antt =====
-- Two small programs, and the theorems at inputs that meet their hypotheses.
use ee_kernel.Base.{
  newline, ◌≡◌, ◌+◌, refl, arith, false, Text, lit, List, [], ◌∷◌, ◌++◌, map, none, some, length,
  ok, join,
}
use ee_kernel.Base.Count.{text_has_eq, SameItems, count}
use ee_kernel.Scorer.Fields.{Line, ArchSettings}
use ee_kernel.Scorer.Sameline.{Settings}
use ee_kernel.Scorer.Diff.{equal, replace, Opcode, DiffState, start, diff_loop, moves, penalties}
use ee_kernel.Scorer.Moves.{moves_account}
use ee_kernel.Scorer.Accounting.{compared, diff_loop_accounts}
use ee_kernel.Scorer.Score.{score, row_of}
use ee_kernel.Scorer.Match.{score_self, score-zero_compared}

abbrev arch : ArchSettings
arch = record {
  name = lit "mips";
  re_sprel = λ row. none;
  branch_instructions = lit "beq" ∷ [];
  branch_likely_instructions = [];
}

abbrev settings : Settings
settings = record { arch = arch; stack_differences = false; ign_branch_targets = false }

abbrev line : Text → Text → Line
line mnemonic rest = record { row = mnemonic ++ rest; mnemonic = mnemonic; has_symbol = false }

abbrev target : List Line
target = line (lit "jr") (lit " ra") ∷ line (lit "li") (lit " v0,1") ∷ []

abbrev other : List Line
other = line (lit "jr") (lit " ra") ∷ line (lit "move") (lit " v0,a0") ∷ []

-- The first lines are alike, the second ones are not.
abbrev half : List Opcode
half =
    record { tag = equal; i1 = 0; i2 = 1; j1 = 0; j2 = 1 }
    ∷ record { tag = replace; i1 = 1; i2 = 2; j1 = 1; j2 = 2 }
    ∷ []

diff_loop_accounts_example :
    (st : DiffState) × (diff_loop settings target other half start ≡ ok st)
    × (compared half + (penalties st).insertion + (penalties st).reordering ≡ 2)
    × (compared half + (penalties st).deletion + (penalties st).reordering ≡ 2)
diff_loop_accounts_example = diff_loop_accounts settings target other half (
  refl,
  refl,
  omega arith,
  omega arith,
  refl,
  (refl, refl, omega arith, omega arith, tt, (refl, refl)),
)

abbrev rows : List Text
rows = lit "a" ∷ lit "b" ∷ lit "a" ∷ []

moves_account_example :
    ((moves rows (lit "a" ∷ [])).insertion + (moves rows (lit "a" ∷ [])).reordering ≡ 3)
    × ((moves rows (lit "a" ∷ [])).deletion + (moves rows (lit "a" ∷ [])).reordering ≡ 1)
moves_account_example = moves_account rows (lit "a" ∷ [])

swapped : SameItems (lit "a" ∷ lit "b" ∷ []) (lit "b" ∷ lit "a" ∷ [])
unfolding count
swapped a = omega arith

-- Every object file is the target's, and the matcher finds one block.
abbrev objdump : Text → List Line
objdump path = target

abbrev opcodes : List Text → List Text → List Opcode
opcodes cand tgt = record { tag = equal; i1 = 0; i2 = length cand; j1 = 0; j2 = length tgt } ∷ []

abbrev no_hash : Text → Text
no_hash text = text

score_self_example :
    score objdump opcodes no_hash settings target (some (lit "a.o")) ≡ ok (0, lit "jr ra\nli v0,1")
unfolding join
score_self_example = score_self objdump opcodes no_hash settings target b'a' (lit ".o") refl refl

same_score :
    score objdump opcodes no_hash settings target (some (lit "a.o"))
    ≡ ok (0, join newline (map row_of target))
same_score = score_self objdump opcodes no_hash settings target b'a' (lit ".o") refl refl

score-zero_compared_example :
    (compared (opcodes (lit "jr" ∷ lit "li" ∷ []) (lit "jr" ∷ lit "li" ∷ [])) ≡ 2)
    × (length target ≡ length target)
score-zero_compared_example =
    score-zero_compared objdump opcodes no_hash settings target b'a' (lit ".o")
      (join newline (map row_of target)) (refl, refl, omega arith, omega arith, refl, (refl, refl))
      same_score
