-- ===== src/Scorer/Diff.antt =====
-- The main loop of `score` over the opcodes of a sequence matcher, and the counting of moved,
-- inserted and deleted rows.
use ee_kernel.Base.{
  ℕ, zero, suc, ◌+◌, ◌-◌, min, Text, text_eq, List, [], ◌∷◌, ◌++◌, none, some, Result, ok, err,
  ◌>>=◌, index_error, get_elem?, if◌then◌else◌,
}
use ee_kernel.Base.Count.{text_has_eq, count}
use ee_kernel.Scorer.Fields.{Line}
use ee_kernel.Scorer.Penalties.{Penalties}
use ee_kernel.Scorer.Sameline.{Settings, LineDiff, diff_sameline}

pub data Tag : Type 0 where
  equal replace delete insert : Tag

-- (tag, i1, i2, j1, j2): lines i1 to i2 of the candidate against lines j1 to j2 of the target.
pub record Opcode : Type 0 where
  pub tag : Tag
  pub i1 : ℕ
  pub i2 : ℕ
  pub j1 : ℕ
  pub j2 : ℕ

-- The counters and the two lists that the loop changes.
pub record DiffState : Type 0 where
  pub stack : ℕ
  pub branch : ℕ
  pub regalloc : ℕ
  pub insertions : List Text
  pub deletions : List Text

abbrev pub start : DiffState
start = record { stack = 0; branch = 0; regalloc = 0; insertions = []; deletions = [] }

unfoldable pub add_diff : LineDiff → DiffState → DiffState
add_diff d st = record st {
  stack = st.stack + d.stack;
  branch = st.branch + d.branch;
  regalloc = st.regalloc + d.regalloc;
}

-- lines[k]
unfoldable pub line_at : List Line → ℕ → Result Line
line_at lines k = elim (get_elem? lines k) [ none ↦ err index_error | some line ↦ ok line ]

-- for k in range(n), from candidate line i and target line j on
unfoldable pub equal_loop :
    Settings → List Line → List Line → ℕ → ℕ → ℕ → DiffState → Result DiffState
equal_loop settings target cand zero i j st = ok st
equal_loop settings target cand (suc n) i j st = line_at target j >>= λ old_line.
    line_at cand i >>= λ new_line.
    equal_loop settings target cand n (i + 1) (j + 1)
      (add_diff (diff_sameline settings old_line new_line) st)

-- for k in range(n): append the row of each line from line k on
unfoldable pub rows_loop : List Line → ℕ → ℕ → List Text → Result (List Text)
rows_loop lines zero k rows = ok rows
rows_loop lines (suc n) k rows =
    line_at lines k >>= λ line. rows_loop lines n (k + 1) (rows ++ line.row ∷ [])

unfoldable pub insert_rows : List Line → Opcode → DiffState → Result DiffState
unfolding rows_loop
insert_rows cand op st = rows_loop cand (op.i2 - op.i1) op.i1 st.insertions >>= λ rows.
    ok (record st { insertions = rows })

unfoldable pub delete_rows : List Line → Opcode → DiffState → Result DiffState
unfolding rows_loop
delete_rows target op st = rows_loop target (op.j2 - op.j1) op.j1 st.deletions >>= λ rows.
    ok (record st { deletions = rows })

-- One round of the loop over the opcodes.
unfoldable pub diff_opcode :
    Settings → List Line → List Line → Tag → Opcode → DiffState → Result DiffState
diff_opcode settings target cand equal op st =
    equal_loop settings target cand (op.i2 - op.i1) op.i1 op.j1 st
diff_opcode settings target cand replace op st =
    insert_rows cand op st >>= λ st'. delete_rows target op st'
diff_opcode settings target cand delete op st = insert_rows cand op st
diff_opcode settings target cand insert op st = delete_rows target op st

unfoldable pub diff_loop :
    Settings → List Line → List Line → List Opcode → DiffState → Result DiffState
diff_loop settings target cand [] st = ok st
diff_loop settings target cand (op ∷ ops) st =
    diff_opcode settings target cand op.tag op st >>= λ st'. diff_loop settings target cand ops st'

unfoldable pub remove : Text → List Text → List Text
remove t [] = []
remove t (x ∷ xs) = let rest = remove t xs in if text_eq t x then rest else x ∷ rest

-- The keys of Counter(items), in the order of their first occurrence.
unfoldable pub keys : List Text → List Text
unfolding remove
keys [] = []
keys (x ∷ xs) = x ∷ remove x (keys xs)

-- The numbers of inserted, deleted and reordered rows.
pub record Moves : Type 0 where
  pub insertion : ℕ
  pub deletion : ℕ
  pub reordering : ℕ

-- The loop over the items of the two counters.
unfoldable pub count_moves : List Text → List Text → List Text → Moves
count_moves insertions deletions [] = record { insertion = 0; deletion = 0; reordering = 0 }
count_moves insertions deletions (item ∷ items) =
    let rest = count_moves insertions deletions items in
    let ins = count item insertions in
    let dels = count item deletions in
    let common = min ins dels in
    record {
      insertion = rest.insertion + (ins - common);
      deletion = rest.deletion + (dels - common);
      reordering = rest.reordering + common;
    }

unfoldable pub moves : List Text → List Text → Moves
unfolding count_moves keys
moves insertions deletions = count_moves insertions deletions (keys (insertions ++ deletions))

unfoldable pub penalties : DiffState → Penalties
unfolding moves
penalties st =
    let m = moves st.insertions st.deletions in
    record {
      stack = st.stack;
      branch = st.branch;
      regalloc = st.regalloc;
      reordering = m.reordering;
      insertion = m.insertion;
      deletion = m.deletion;
    }
