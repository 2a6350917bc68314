-- ===== src/Perm/Complete.antt =====
-- The seeds of a macro tree, for perm/perm.py: from a variation back to a seed.
use ee_kernel.Base.{
  Option, ◌↔◌, ℕ, suc, ◌+◌, ◌-◌, ◌*◌, ◌<◌, ◌≡◌, ◌≢◌, refl, arith, some, ok, lookup, Text, List, [],
  ltb, lt→ltb, ◌==◌, ==_iff, Result, false, length, ◌∙◌, ap,
}
use ee_kernel.Base.Digits.{digit_rest, digit_bound}
use ee_kernel.Perm.Shuffle.{factorial}
use ee_kernel.Base.Count.{text_has_eq}
use ee_kernel.Perm.Shuffle.Covers.{shuffle_covers, factorial_pos}
use ee_kernel.Perm.Tree.{
  Perm, PermList, text_perm, ignore_perm, pretend_perm, combine_perm, randomizer_perm,
  force_sameline_perm, general_perm, once_perm, var_read, var_write, line_swap_perm,
  line_swap_ast_perm, int_perm, nil, cons, size_list, perm_count, count_all, count_either,
}
use ee_kernel.Perm.State.{EvalState, divmod}
use ee_kernel.Perm.Evaluate.{evaluate, eval_all, eval_either, choose_once, read_var, write_var}
use ee_kernel.Base.Outcome.{Outcome-ok}
use ee_kernel.Perm.Keys.{HasChoices}
use ee_kernel.Perm.Sound.{evaluate-Outcome}
use ee_kernel.Perm.Variation.{
  Variation, Variations, OneOf, text, ignore, pretend, combine, randomize, sameline, general,
  once_here, once_elsewhere, read, write, line_swap, line_swap_ast, int, none_left, one_more, first,
  later,
}

-- Every PERM_GENERAL of the tree has a candidate, and every PERM_INT a number.
unfoldable mutual
  pub IsPositive : Perm → Type 0
  IsPositive (ignore_perm p) = IsPositive p
  IsPositive (pretend_perm p) = IsPositive p
  IsPositive (combine_perm ps) = AllPositive ps
  IsPositive (randomizer_perm p) = IsPositive p
  IsPositive (force_sameline_perm p) = IsPositive p
  IsPositive (general_perm ps) = (0 < size_list ps) × AllPositive ps
  IsPositive (once_perm id key p) = IsPositive p
  IsPositive (var_read p) = IsPositive p
  IsPositive (var_write p q) = IsPositive p × IsPositive q
  IsPositive (line_swap_perm ps) = AllPositive ps
  IsPositive (line_swap_ast_perm ps) = AllPositive ps
  IsPositive (int_perm low n) = 0 < n
  IsPositive _ = Unit

  pub AllPositive : PermList → Type 0
  AllPositive nil = Unit
  AllPositive (cons p ps) = IsPositive p × AllPositive ps

pub mul_pos : (a b : ℕ) → 0 < a → 0 < b → 0 < a * b
mul_pos a b h k = grind arith

mutual
  unfolding IsPositive perm_count size_list

  pub perm_count_pos : (p : Perm) → IsPositive p → 0 < perm_count p
  perm_count_pos (text_perm t) h = omega arith
  perm_count_pos (ignore_perm p) h = perm_count_pos p h
  perm_count_pos (pretend_perm p) h = perm_count_pos p h
  perm_count_pos (combine_perm ps) h = count_all_pos ps h
  perm_count_pos (randomizer_perm p) h = perm_count_pos p h
  perm_count_pos (force_sameline_perm p) h = perm_count_pos p h
  perm_count_pos (general_perm ps) h = count_either_pos ps h.0 h.1
  perm_count_pos (once_perm id key p) h = perm_count_pos p h
  perm_count_pos (var_read p) h = mul_pos _ _ (perm_count_pos p h) (omega arith)
  perm_count_pos (var_write p q) h =
      mul_pos _ _ (perm_count_pos p h.0) (mul_pos _ _ (perm_count_pos q h.1) (omega arith))
  perm_count_pos (line_swap_perm ps) h = mul_pos _ _ (factorial_pos _) (count_all_pos ps h)
  perm_count_pos (line_swap_ast_perm ps) h = mul_pos _ _ (factorial_pos _) (count_all_pos ps h)
  perm_count_pos (int_perm low n) h = h

  count_all_pos : (ps : PermList) → AllPositive ps → 0 < count_all ps
  count_all_pos nil h = omega arith
  count_all_pos (cons p ps) h = mul_pos _ _ (perm_count_pos p h.0) (count_all_pos ps h.1)

  count_either_pos : (ps : PermList) → 0 < size_list ps → AllPositive ps → 0 < count_either ps
  count_either_pos nil h k = absurd (omega arith)
  count_either_pos (cons p ps) h k = omega (arith, perm_count_pos p k.0)

-- Some seed below the count evaluates to the text and the state.
abbrev Reached : Perm → EvalState → Text → EvalState → Type 0
Reached p s t s' = (seed : ℕ) × (seed < perm_count p) × (evaluate p seed s ≡ ok (t, s'))

abbrev ReachedAll : PermList → EvalState → List Text → EvalState → Type 0
ReachedAll ps s ts s' = (seed : ℕ) × (seed < count_all ps) × (eval_all ps seed s ≡ ok (ts, s'))

abbrev ReachedEither : PermList → EvalState → Text → EvalState → Type 0
ReachedEither ps s t s' =
    (seed : ℕ) × (seed < count_either ps) × (eval_either ps seed s ≡ ok (t, s'))

-- The seed with digit `i` to the base `a`, and `rest` above it.
pub divmod-digit : (i rest a : ℕ) → i < a → divmod (i + rest * a) a ≡ ok (rest, i)
unfolding divmod
divmod-digit i rest a h =
    let (p, q) = digit_rest i rest a h in
    let nonzero : (a == 0) ≡ false = ground arith in simp (nonzero, p, q)

size-Variations :
    {ps : PermList} {s : EvalState} {ts : List Text} {s' : EvalState}
    → Variations ps s ts s'
    → length ts ≡ size_list ps
unfolding size_list
size-Variations none_left = refl
size-Variations (one_more v vs) = ap suc (size-Variations vs)

read_var-found :
    (name v : Text) (s : EvalState) → lookup name s.vars ≡ some v → read_var name s ≡ ok (v, s)
unfolding read_var
read_var-found name v s found = rw (found, read_var)

module _ (id : ℕ) (o : Option ℕ) (r : Result (Text × EvalState)) (s : EvalState) where
  choose_once-here : o ≡ some id → choose_once id o r s ≡ r
  unfolding choose_once
  choose_once-here found = rw (found, (==_iff id id).1 refl)

  choose_once-elsewhere : (j : ℕ) → o ≡ some j → j ≢ id → choose_once id o r s ≡ ok ([], s)
  unfolding choose_once
  choose_once-elsewhere j found ne = rw found (ground (arith, ==_iff j id))

skip-first : (c n : ℕ) → (ltb (c + n) c ≡ false) × (c + n - c ≡ n)
skip-first c n = (ground arith, omega arith)

mutual
  unfolding evaluate perm_count IsPositive write_var

  pub reach :
      {p : Perm} {s : EvalState} {t : Text} {s' : EvalState}
      → Variation p s t s'
      → IsPositive p
      → Reached p s t s'
  reach text h = (0, omega arith, refl)
  reach (ignore v) h = let (n, lt, e) = reach v h in (n, lt, rw e)
  reach (pretend v) h = let (n, lt, e) = reach v h in (n, lt, rw e)
  reach (combine v) h = let (n, lt, e) = reach_all v h in (n, lt, rw e)
  reach (randomize v) h = let (n, lt, e) = reach v h in (n, lt, rw e)
  reach (sameline v) h = let (n, lt, e) = reach v h in (n, lt, rw e)
  reach (general v) h = reach_either v h.1
  reach (once_here {id} {p = p} {s = s} found v) h =
      let (n, lt, e) = reach v h in (n, lt, choose_once-here id _ (evaluate p n s) s found ∙ e)
  reach (once_elsewhere {id} {j} {p = p} {s = s} found ne) h =
      (0, perm_count_pos p h, choose_once-elsewhere id _ (evaluate p 0 s) s j found ne)
  reach (read {p = p} v found) h =
      let (n, lt, e) = reach v h in
      (
        n + 0 * perm_count p,
        digit_bound n 0 (perm_count p) 1 lt (omega arith),
        simp (divmod-digit n 0 (perm_count p) lt, e) (read_var-found _ _ _ found),
      )
  reach (write {p = p} {q = q} v w) h =
      let (n, lt, e) = reach v h.0 in
      let (m, lt', e') = reach w h.1 in
      (
        n + m * perm_count p,
        digit_bound n m (perm_count p) (perm_count q * 1) lt (omega arith),
        simp (divmod-digit n m (perm_count p) lt, e, e'),
      )
  reach (line_swap {ps} {ts} us v same) h =
      let (n, lt, e) = reach_all v h in
      let (k, lt', e') = (shuffle_covers ts us).0 same in
      let small = rw (size-Variations v) at lt' in
      (
        k + n * factorial (size_list ps),
        digit_bound k n _ _ small lt,
        simp (divmod-digit k n (factorial (size_list ps)) small, e, e'),
      )
  reach (line_swap_ast {ps} {v = k} v lt') h =
      let (n, lt, e) = reach_all v h in
      (
        k + n * factorial (size_list ps),
        digit_bound k n _ _ lt' lt,
        simp (divmod-digit k n (factorial (size_list ps)) lt', e),
      )
  reach (int {n = n} lt) h = (n, lt, refl)

  reach_all :
      {ps : PermList} {s : EvalState} {ts : List Text} {s' : EvalState}
      → Variations ps s ts s'
      → AllPositive ps
      → ReachedAll ps s ts s'
  reach_all none_left h = (0, omega arith, refl)
  reach_all (one_more {p = p} {ps = ps} v vs) h =
      let (n, lt, e) = reach v h.0 in
      let (m, lt', e') = reach_all vs h.1 in
      (
        n + m * perm_count p,
        digit_bound n m (perm_count p) (count_all ps) lt lt',
        simp (divmod-digit n m (perm_count p) lt, e, e'),
      )

  reach_either :
      {ps : PermList} {s : EvalState} {t : Text} {s' : EvalState}
      → OneOf ps s t s'
      → AllPositive ps
      → ReachedEither ps s t s'
  reach_either (first {p = p} v) h =
      let (n, lt, e) = reach v h.0 in (n, omega arith, rw (lt→ltb n _ lt) e)
  reach_either (later {p = p} v) h =
      let (n, lt, e) = reach_either v h.1 in
      let (past, back) = skip-first (perm_count p) n in
      (perm_count p + n, omega arith, rw (past, back) e)

-- With candidates to choose from, the texts and states that the seeds below the count give are
-- exactly the variations of the tree.
pub evaluate_enumerates :
    (p : Perm) (s : EvalState)
    → HasChoices p s.once_choices
    → IsPositive p
    → (t : Text) (s' : EvalState)
    → Variation p s t s' ↔ ((seed : ℕ) × (seed < perm_count p) × (evaluate p seed s ≡ ok (t, s')))
evaluate_enumerates p s c pos t s' =
    (λ v. reach v pos, λ (seed, lt, e). Outcome-ok (evaluate-Outcome p seed s lt c) e)
