-- ===== src/Perm/State.antt =====
-- EvalState of perm/perm.py: what an evaluation reads and writes besides its seed.
use ee_kernel.Base.{
  newline, ℕ, List, [], ◌∷◌, ◌++◌, map, length, Text, lit, join, nat_str, Dict, Result, ok, err,
  zero_division, ◌/◌, ◌%◌, ◌==◌, if◌then◌else◌,
}
use ee_kernel.Perm.Tree.{Perm}

-- `once_choices` gives for each key the number of the chosen OncePerm.
pub record EvalState : Type 0 where
  pub vars : Dict Text
  pub once_choices : Dict ℕ
  pub ast_perms : List (Perm × ℕ)

-- EvalState()
abbrev pub empty_state : EvalState
empty_state = record { vars = []; once_choices = []; ast_perms = [] }

-- register_ast_perm: the identifier is the position in the list.
register_ast_perm : Perm → ℕ → EvalState → ℕ × EvalState
register_ast_perm perm seed state =
    (length state.ast_perms, record state { ast_perms = state.ast_perms ++ (perm, seed) ∷ [] })

abbrev braced : Text → Text
braced stmt = lit "{" ++ stmt ++ lit "}"

-- gen_ast_statement_perm
unfoldable pub gen_ast_statement_perm : Perm → ℕ → List Text → EvalState → Text × EvalState
unfolding register_ast_perm
gen_ast_statement_perm perm seed statements state =
    let (perm_id, state') = register_ast_perm perm seed state in
    let lines : List Text =
      lit "{"
      ∷ (lit "#pragma _permuter ast_perm " ++ nat_str perm_id)
      ∷ (map braced statements ++ lit "}" ∷ []) in
    (join newline lines, state')

-- divmod(seed, count)
unfoldable pub divmod : ℕ → ℕ → Result (ℕ × ℕ)
divmod seed count = if count == 0 then err zero_division else ok (seed / count, seed % count)
