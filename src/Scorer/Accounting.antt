-- ===== src/Scorer/Accounting.antt =====
-- The loop of scorer.py over the opcodes of two sequences, and the lines that it accounts for.
use ee_kernel.Base.{
  get_elem?-some, ℕ, zero, suc, ◌+◌, ◌-◌, ◌<◌, ◌≤◌, ◌≡◌, refl, arith, Text, List, [], ◌∷◌, ◌++◌,
  Result, ok, length, length-append,
}
use ee_kernel.Scorer.Fields.{Line}
use ee_kernel.Scorer.Sameline.{Settings, diff_sameline}
use ee_kernel.Scorer.Diff.{
  Tag, equal, replace, delete, insert, Opcode, DiffState, start, add_diff, line_at, equal_loop,
  rows_loop, insert_rows, delete_rows, diff_opcode, diff_loop, penalties,
}
use ee_kernel.Scorer.Moves.{moves_account}

-- Equal blocks are equally long, a deletion has no lines of the target, and an insertion none of
-- the candidate.
abbrev pub HasShape : Tag → Opcode → Type 0
HasShape equal op = op.i2 - op.i1 ≡ op.j2 - op.j1
HasShape replace op = Unit
HasShape delete op = op.j1 ≡ op.j2
HasShape insert op = op.i1 ≡ op.i2

-- What difflib documents of `get_opcodes`: the blocks go from the first lines to the last, with
-- no gap between them.
abbrev pub CoverFrom : ℕ → ℕ → ℕ → ℕ → List Opcode → Type 0
CoverFrom i j m n [] = (i ≡ m) × (j ≡ n)
CoverFrom i j m n (op ∷ ops) =
    (op.i1 ≡ i)
    × (op.j1 ≡ j)
    × (i ≤ op.i2)
    × (j ≤ op.j2)
    × HasShape op.tag op
    × CoverFrom op.i2 op.j2 m n ops

-- The number of lines in equal blocks.
unfoldable pub compared : List Opcode → ℕ
compared [] = 0
compared (op ∷ ops) = elim op.tag [ equal ↦ (op.i2 - op.i1) + compared ops | _ ↦ compared ops ]

CoverFrom-le : (i j m n : ℕ) (ops : List Opcode) → CoverFrom i j m n ops → (i ≤ m) × (j ≤ n)
CoverFrom-le i j m n [] h = (omega arith, omega arith)
CoverFrom-le i j m n (op ∷ ops) h =
    let rest = CoverFrom-le op.i2 op.j2 m n ops h.5 in
    (omega (arith, rest.0), omega (arith, rest.1))

pub line_at-ok :
    (lines : List Line) (k : ℕ) → k < length lines → (line : Line) × (line_at lines k ≡ ok line)
unfolding line_at
line_at-ok lines k h = let (line, at) = get_elem?-some lines k h in (line, rw (at, line_at))

rows_loop-ok :
    (lines : List Line) (n k : ℕ) (rows : List Text)
    → k + n ≤ length lines
    → (rows' : List Text) × (rows_loop lines n k rows ≡ ok rows') × (length rows' ≡ length rows + n)
unfolding rows_loop
rows_loop-ok lines zero k rows h = (rows, refl, omega arith)
rows_loop-ok lines (suc n) k rows h =
    let (line, at) = line_at-ok lines k (omega arith) in
    let (rows', e, l) = rows_loop-ok lines n (k + 1) (rows ++ line.row ∷ []) (omega arith) in
    (rows', rw at e, omega (arith, l, length-append rows (line.row ∷ [])))

-- The lists grow by the given numbers.
abbrev Grows : ℕ → ℕ → DiffState → Result DiffState → Type 0
Grows ins dels st r =
    (st' : DiffState) × (r ≡ ok st')
    × (length st'.insertions ≡ length st.insertions + ins)
    × (length st'.deletions ≡ length st.deletions + dels)

equal_loop-ok :
    (settings : Settings) (target cand : List Line) (n i j : ℕ) (st : DiffState)
    → i + n ≤ length cand
    → j + n ≤ length target
    → Grows 0 0 st (equal_loop settings target cand n i j st)
unfolding equal_loop add_diff
equal_loop-ok settings target cand zero i j st h k = (st, refl, omega arith, omega arith)
equal_loop-ok settings target cand (suc n) i j st h k =
    let (old_line, at_j) = line_at-ok target j (omega arith) in
    let (new_line, at_i) = line_at-ok cand i (omega arith) in
    let (st', e, l, l') =
      equal_loop-ok settings target cand n (i + 1) (j + 1)
        (add_diff (diff_sameline settings old_line new_line) st) (omega arith) (omega arith) in
    (st', rw (at_j, at_i) e, l, l')

insert_rows-ok :
    (cand : List Line) (op : Opcode) (st : DiffState)
    → op.i1 ≤ op.i2
    → op.i2 ≤ length cand
    → Grows (op.i2 - op.i1) 0 st (insert_rows cand op st)
unfolding insert_rows
insert_rows-ok cand op st h k =
    let (rows, e, l) = rows_loop-ok cand (op.i2 - op.i1) op.i1 st.insertions (omega arith) in
    (record st { insertions = rows }, rw e, l, omega arith)

delete_rows-ok :
    (target : List Line) (op : Opcode) (st : DiffState)
    → op.j1 ≤ op.j2
    → op.j2 ≤ length target
    → Grows 0 (op.j2 - op.j1) st (delete_rows target op st)
unfolding delete_rows
delete_rows-ok target op st h k =
    let (rows, e, l) = rows_loop-ok target (op.j2 - op.j1) op.j1 st.deletions (omega arith) in
    (record st { deletions = rows }, rw e, omega arith, l)

-- The candidate's and the target's lines that an opcode inserts and deletes.
abbrev inserted : Tag → Opcode → ℕ
inserted equal op = 0
inserted _ op = op.i2 - op.i1

abbrev deleted : Tag → Opcode → ℕ
deleted equal op = 0
deleted _ op = op.j2 - op.j1

diff_opcode-ok :
    (settings : Settings) (target cand : List Line) (tag : Tag) (op : Opcode) (st : DiffState)
    → op.i1 ≤ op.i2
    → op.i2 ≤ length cand
    → op.j1 ≤ op.j2
    → op.j2 ≤ length target
    → HasShape tag op
    → Grows (inserted tag op) (deleted tag op) st (diff_opcode settings target cand tag op st)
unfolding diff_opcode
diff_opcode-ok settings target cand equal op st h k h' k' shape =
    equal_loop-ok settings target cand (op.i2 - op.i1) op.i1 op.j1 st (omega arith) (omega arith)
diff_opcode-ok settings target cand replace op st h k h' k' shape =
    let (st', e, l, l') = insert_rows-ok cand op st h k in
    let (st'', e', r, r') = delete_rows-ok target op st' h' k' in
    (st'', rw e e', omega (arith, l, r), omega (arith, l', r'))
diff_opcode-ok settings target cand delete op st h k h' k' shape =
    let (st', e, l, l') = insert_rows-ok cand op st h k in (st', e, l, omega (arith, l'))
diff_opcode-ok settings target cand insert op st h k h' k' shape =
    let (st', e, l, l') = delete_rows-ok target op st h' k' in (st', e, omega (arith, l), l')

-- The lines from `i` and `j` on are compared, inserted or deleted.
abbrev Accounts :
    List Line → List Line → ℕ → ℕ → List Opcode → DiffState → Result DiffState → Type 0
Accounts target cand i j ops st r =
    (st' : DiffState) × (r ≡ ok st')
    × (i + compared ops + length st'.insertions ≡ length cand + length st.insertions)
    × (j + compared ops + length st'.deletions ≡ length target + length st.deletions)

tally :
    (tag : Tag) (op : Opcode) (ops : List Opcode)
    → op.tag ≡ tag
    → op.i1 ≤ op.i2
    → op.j1 ≤ op.j2
    → HasShape tag op
    → (op.i1 + compared (op ∷ ops) + inserted tag op ≡ op.i2 + compared ops)
      × (op.j1 + compared (op ∷ ops) + deleted tag op ≡ op.j2 + compared ops)
unfolding compared
tally equal op ops same h k shape = ground arith
tally replace op ops same h k shape = ground arith
tally delete op ops same h k shape = ground arith
tally insert op ops same h k shape = ground arith

diff_loop-Accounts :
    (settings : Settings) (target cand : List Line) (i j : ℕ) (ops : List Opcode) (st : DiffState)
    → CoverFrom i j (length cand) (length target) ops
    → Accounts target cand i j ops st (diff_loop settings target cand ops st)
unfolding diff_loop
diff_loop-Accounts settings target cand i j [] st h =
    (st, refl, unfold compared in omega arith, unfold compared in omega arith)
diff_loop-Accounts settings target cand i j (op ∷ ops) st h =
    let (bound, bound') = CoverFrom-le _ _ _ _ ops h.5 in
    let (st', e, l, l') =
      diff_opcode-ok settings target cand op.tag op st (omega arith) bound (omega arith) bound'
        h.4 in
    let (st'', e', r, r') = diff_loop-Accounts settings target cand op.i2 op.j2 ops st' h.5 in
    let (t, t') = tally op.tag op ops refl (omega arith) (omega arith) h.4 in
    (st'', rw e e', omega (arith, l, r, t), omega (arith, l', r', t'))

-- With opcodes that cover both programs the loop ends with no index out of range, and each line of
-- the candidate is compared, inserted or moved, and each line of the target compared, deleted or
-- moved.
pub diff_loop_accounts :
    (settings : Settings) (target cand : List Line) (ops : List Opcode)
    → CoverFrom 0 0 (length cand) (length target) ops
    → (st : DiffState) × (diff_loop settings target cand ops start ≡ ok st)
      × (compared ops + (penalties st).insertion + (penalties st).reordering ≡ length cand)
      × (compared ops + (penalties st).deletion + (penalties st).reordering ≡ length target)
unfolding penalties
diff_loop_accounts settings target cand ops h =
    let (st, e, l, l') = diff_loop-Accounts settings target cand 0 0 ops start h in
    let (ins, dels) = moves_account st.insertions st.deletions in
    (st, e, omega (arith, l, ins), omega (arith, l', dels))
