-- ===== src/Perm/Evaluate.antt =====
-- `evaluate` of the Perm classes of perm/perm.py, with `_eval_all` and `_eval_either`.
use ee_kernel.Base.{
  newline, ℕ, ◌-◌, List, [], ◌∷◌, ◌++◌, Option, none, some, Text, lit, join, strip, lookup, insert,
  Result, ok, err, ◌>>=◌, assertion_error, exception, key_error, ◌==◌, ltb, if◌then◌else◌,
}
use ee_kernel.Base.Int.{add_ℕ, int_str}
use ee_kernel.Base.Base64.{utf8_encode, b64_encode}
use ee_kernel.Perm.Shuffle.{shuffle, factorial}
use ee_kernel.Perm.Tree.{
  Perm, PermList, text_perm, ignore_perm, pretend_perm, combine_perm, randomizer_perm,
  force_sameline_perm, general_perm, once_perm, var_read, var_write, line_swap_perm,
  line_swap_ast_perm, int_perm, nil, cons, size_list, perm_count,
}
use ee_kernel.Perm.State.{EvalState, gen_ast_statement_perm, divmod}

-- A text between two pragma lines, each part on lines of its own.
between_pragmas : Text → Text → Text → Text
between_pragmas start end text =
    join newline (
      [] ∷ (lit "#pragma _permuter " ++ start) ∷ text ∷ (lit "#pragma _permuter " ++ end) ∷ [] ∷ [])

-- IgnorePerm hides its text from the C parser.
unfoldable pub ignored : Text → Text
ignored [] = []
ignored (c ∷ s) =
    lit "\n#pragma _permuter b64literal " ++ (b64_encode (utf8_encode (c ∷ s)) ++ newline)

unfoldable pub pretended : Text → Text
unfolding between_pragmas
pretended = between_pragmas (lit "latedefine start") (lit "latedefine end")

unfoldable pub randomized : Text → Text
unfolding between_pragmas
randomized = between_pragmas (lit "randomizer start") (lit "randomizer end")

unfoldable pub on_same_line : Text → Text
unfolding between_pragmas
on_same_line = between_pragmas (lit "sameline start") (lit "sameline end")

-- The rest of an evaluation that has a text.
abbrev pub wrap : (Text → Text) → Result (Text × EvalState) → Result (Text × EvalState)
wrap f r = r >>= λ (text, state). ok (f text, state)

-- OncePerm.evaluate, with the evaluation of its child at hand.
unfoldable pub choose_once :
    ℕ → Option ℕ → Result (Text × EvalState) → EvalState → Result (Text × EvalState)
choose_once id none chosen state = err key_error
choose_once id (some choice) chosen state = if choice == id then chosen else ok ([], state)

-- VarPerm.evaluate with one child: `state.vars[var_name]`.
unfoldable pub read_var : Text → EvalState → Result (Text × EvalState)
read_var name state = elim (lookup name state.vars) [
  | none ↦ err exception
  | some value ↦ ok (value, state)
]

-- VarPerm.evaluate with two children: the assignment.
unfoldable pub write_var : Text → Text → EvalState → Text × EvalState
write_var name value state = ([], record state { vars = insert name value state.vars })

unfoldable mutual
  pub evaluate : Perm → ℕ → EvalState → Result (Text × EvalState)
  evaluate (text_perm text) seed state = ok (text, state)
  evaluate (ignore_perm inner) seed state = wrap ignored (evaluate inner seed state)
  evaluate (pretend_perm inner) seed state = wrap pretended (evaluate inner seed state)
  evaluate (combine_perm parts) seed state =
      eval_all parts seed state >>= λ (texts, state'). ok (join [] texts, state')
  evaluate (randomizer_perm inner) seed state = wrap randomized (evaluate inner seed state)
  evaluate (force_sameline_perm inner) seed state = wrap on_same_line (evaluate inner seed state)
  evaluate (general_perm candidates) seed state = eval_either candidates seed state
  evaluate (once_perm id key inner) seed state =
      let chosen = evaluate inner seed state in
      choose_once id (lookup key state.once_choices) chosen state
  evaluate (var_read var_name) seed state =
      divmod seed (perm_count var_name) >>= λ (seed', sub_seed).
      evaluate var_name sub_seed state >>= λ (name, state'). read_var (strip name) state'
  evaluate (var_write var_name expansion) seed state =
      divmod seed (perm_count var_name) >>= λ (seed', sub_seed).
      evaluate var_name sub_seed state >>= λ (name, state').
      evaluate expansion seed' state' >>= λ (ret, state''). ok (write_var (strip name) ret state'')
  evaluate (line_swap_perm lines) seed state =
      divmod seed (factorial (size_list lines)) >>= λ (sub_seed, variation).
      eval_all lines sub_seed state >>= λ (texts, state').
      ok (join newline (shuffle texts variation), state')
  evaluate (line_swap_ast_perm lines) seed state =
      divmod seed (factorial (size_list lines)) >>= λ (sub_seed, variation).
      eval_all lines sub_seed state >>= λ (texts, state').
      ok (gen_ast_statement_perm (line_swap_ast_perm lines) variation texts state')
  evaluate (int_perm low count) seed state = ok (int_str (add_ℕ low seed), state)

  -- _eval_all: each child takes its digit of the seed, the first child the lowest.
  pub eval_all : PermList → ℕ → EvalState → Result (List Text × EvalState)
  eval_all nil seed state = if seed == 0 then ok ([], state) else err assertion_error
  eval_all (cons p ps) seed state = divmod seed (perm_count p) >>= λ (seed', sub_seed).
      evaluate p sub_seed state >>= λ (text, state').
      eval_all ps seed' state' >>= λ (texts, state''). ok (text ∷ texts, state'')

  -- _eval_either: the seed picks a child by the running total of the counts.
  pub eval_either : PermList → ℕ → EvalState → Result (Text × EvalState)
  eval_either nil seed state = err assertion_error
  eval_either (cons p ps) seed state =
      let here = evaluate p seed state in
      let later = eval_either ps (seed - perm_count p) state in
      if ltb seed (perm_count p) then here else later
