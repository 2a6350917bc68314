-- ===== src/Perm/Sound.antt =====
-- The evaluation of perm/perm.py on seeds in range: its texts and its errors.
use ee_kernel.Base.{
  ltb→lt, ltb→le, ==_iff, Result, ◌+◌, ◌≤◌, ℕ, ◌-◌, ◌*◌, ◌/◌, ◌%◌, ◌<◌, ◌≡◌, refl, arith, some, ok,
  exception, lookup, Error, Text, Bool-cases, Option-cases, inl, inr, ltb, ◌==◌, strip,
}
use ee_kernel.Base.Count.{text_has_eq}
use ee_kernel.Base.Digits.{base_pos, rest_bound, low_bound}
use ee_kernel.Base.Outcome.{Outcome, returns, raises, Outcome-bind, Outcome-imp}
use ee_kernel.Perm.Shuffle.{shuffle, factorial}
use ee_kernel.Perm.Shuffle.Covers.{shuffle-SameItems}
use ee_kernel.Perm.Tree.{
  Perm, PermList, text_perm, ignore_perm, pretend_perm, combine_perm, randomizer_perm,
  force_sameline_perm, general_perm, once_perm, var_read, var_write, line_swap_perm,
  line_swap_ast_perm, int_perm, nil, cons, size_list, perm_count, count_all, count_either,
}
use ee_kernel.Perm.State.{EvalState, divmod}
use ee_kernel.Perm.Evaluate.{write_var, evaluate, eval_all, eval_either, choose_once, read_var}
use ee_kernel.Perm.Keys.{HasChoices, AllHaveChoices}
use ee_kernel.Perm.Variation.{
  Variation, Variations, OneOf, Variation-choices, text, ignore, pretend, combine, randomize,
  sameline, general, once_here, once_elsewhere, read, write, line_swap, line_swap_ast, int,
  none_left, one_more, first, later,
}

pub divmod-ok : (s a b : ℕ) → s < a * b → divmod s a ≡ ok (s / a, s % a)
unfolding divmod
divmod-ok s a b h = ground (arith, base_pos s a b h)

-- The only error.
abbrev pub IsUndefinedVar : Error → Type 0
IsUndefinedVar e = e ≡ exception

abbrev Evaluates : Perm → ℕ → EvalState → Type 0
Evaluates p seed s = Outcome (λ (t, s'). Variation p s t s') IsUndefinedVar (evaluate p seed s)

abbrev EvaluatesAll : PermList → ℕ → EvalState → Type 0
EvaluatesAll ps seed s =
    Outcome (λ (ts, s'). Variations ps s ts s') IsUndefinedVar (eval_all ps seed s)

abbrev EvaluatesEither : PermList → ℕ → EvalState → Type 0
EvaluatesEither ps seed s =
    Outcome (λ (t, s'). OneOf ps s t s') IsUndefinedVar (eval_either ps seed s)

read_var-Outcome :
    {p : Perm} (s : EvalState) (t : Text) (s' : EvalState)
    → Variation p s t s'
    → Outcome (λ (v, s''). Variation (var_read p) s v s'') IsUndefinedVar (read_var (strip t) s')
unfolding read_var
read_var-Outcome s t s' v = elim (Option-cases (lookup (strip t) s'.vars)) [
  | inl missing ↦ rw (missing, read_var) (raises refl)
  | inr (x, found) ↦ rw (found, read_var) (returns (read v found))
]

below : (n a b : ℕ) → a ≤ n → n < a + b → n - a < b
below n a b h lt = omega arith

choose_once-Outcome :
    (id j : ℕ) (key : Text) (p : Perm) (s : EvalState) (chosen : Result (Text × EvalState))
    → lookup key s.once_choices ≡ some j
    → Outcome (λ (t, s'). Variation p s t s') IsUndefinedVar chosen
    → Outcome
        (λ (t, s'). Variation (once_perm id key p) s t s')
        IsUndefinedVar
        (choose_once id (some j) chosen s)
unfolding choose_once
choose_once-Outcome id j key p s chosen found out = elim (Bool-cases (j == id)) [
  | inl same ↦ rw same (Outcome-imp (λ _ v. once_here (cc (found, (==_iff j id).0 same)) v) out)
  | inr other ↦ rw other (returns (once_elsewhere found λ e. cc (other, (==_iff j id).1 e)))
]

mutual
  unfolding evaluate perm_count HasChoices write_var

  pub evaluate-Outcome :
      (p : Perm) (seed : ℕ) (s : EvalState)
      → seed < perm_count p
      → HasChoices p s.once_choices
      → Evaluates p seed s
  evaluate-Outcome (text_perm t) seed s lt c = returns text
  evaluate-Outcome (ignore_perm p) seed s lt c =
      Outcome-bind (evaluate-Outcome p seed s lt c) λ _ v. returns (ignore v)
  evaluate-Outcome (pretend_perm p) seed s lt c =
      Outcome-bind (evaluate-Outcome p seed s lt c) λ _ v. returns (pretend v)
  evaluate-Outcome (combine_perm ps) seed s lt c =
      Outcome-bind (eval_all-Outcome ps seed s lt c) λ _ v. returns (combine v)
  evaluate-Outcome (randomizer_perm p) seed s lt c =
      Outcome-bind (evaluate-Outcome p seed s lt c) λ _ v. returns (randomize v)
  evaluate-Outcome (force_sameline_perm p) seed s lt c =
      Outcome-bind (evaluate-Outcome p seed s lt c) λ _ v. returns (sameline v)
  evaluate-Outcome (general_perm ps) seed s lt c =
      Outcome-imp (λ _ v. general v) (eval_either-Outcome ps seed s lt c)
  evaluate-Outcome (once_perm id key p) seed s lt c = rw c.0.1 (
      choose_once-Outcome id c.0.0 key p s (evaluate p seed s) c.0.1
        (evaluate-Outcome p seed s lt c.1))
  evaluate-Outcome (var_read p) seed s lt c = rw (divmod-ok seed (perm_count p) 1 lt) (
      Outcome-bind (evaluate-Outcome p (seed % perm_count p) s (low_bound seed _ 1 lt) c)
        λ (t, s') v. read_var-Outcome s t s' v)
  evaluate-Outcome (var_write p q) seed s lt c =
      rw (divmod-ok seed (perm_count p) (perm_count q * 1) lt) (
        Outcome-bind (evaluate-Outcome p (seed % perm_count p) s (low_bound seed _ _ lt) c.0)
          λ (t, s') v.
            Outcome-bind
              (evaluate-Outcome q (seed / perm_count p) s'
                (omega (arith, rest_bound seed (perm_count p) (perm_count q * 1) lt))
                (rw (Variation-choices v) c.1))
              λ (r, s'') w. returns (write v w))
  evaluate-Outcome (line_swap_perm ps) seed s lt c =
      rw (divmod-ok seed (factorial (size_list ps)) (count_all ps) lt) (
        Outcome-bind
          (eval_all-Outcome ps (seed / factorial (size_list ps)) s (rest_bound seed _ _ lt) c)
          λ (ts, s') v.
            returns
              (line_swap (shuffle ts (seed % factorial (size_list ps))) v (shuffle-SameItems ts _)))
  evaluate-Outcome (line_swap_ast_perm ps) seed s lt c =
      rw (divmod-ok seed (factorial (size_list ps)) (count_all ps) lt) (
        Outcome-bind
          (eval_all-Outcome ps (seed / factorial (size_list ps)) s (rest_bound seed _ _ lt) c)
          λ (ts, s') v. returns (line_swap_ast v (low_bound seed _ _ lt)))
  evaluate-Outcome (int_perm low n) seed s lt c = returns (int lt)

  eval_all-Outcome :
      (ps : PermList) (seed : ℕ) (s : EvalState)
      → seed < count_all ps
      → AllHaveChoices ps s.once_choices
      → EvaluatesAll ps seed s
  eval_all-Outcome nil seed s lt c =
      let none_of_it : seed ≡ 0 = omega arith in rw none_of_it (returns none_left)
  eval_all-Outcome (cons p ps) seed s lt c = rw (divmod-ok seed (perm_count p) (count_all ps) lt) (
      Outcome-bind (evaluate-Outcome p (seed % perm_count p) s (low_bound seed _ _ lt) c.0)
        λ (t, s') v.
          Outcome-bind
            (eval_all-Outcome ps (seed / perm_count p) s' (rest_bound seed _ _ lt)
              (rw (Variation-choices v) c.1))
            λ _ vs. returns (one_more v vs))

  eval_either-Outcome :
      (ps : PermList) (seed : ℕ) (s : EvalState)
      → seed < count_either ps
      → AllHaveChoices ps s.once_choices
      → EvaluatesEither ps seed s
  eval_either-Outcome nil seed s lt c = absurd (omega arith)
  eval_either-Outcome (cons p ps) seed s lt c = elim (Bool-cases (ltb seed (perm_count p))) [
    | inl here ↦
        rw here (Outcome-imp (λ _ v. first v) (evaluate-Outcome p seed s (ltb→lt _ _ here) c.0))
    | inr there ↦ rw there (
        Outcome-imp (λ _ v. later v)
          (eval_either-Outcome ps (seed - perm_count p) s
            (below seed (perm_count p) (count_either ps) (ltb→le _ _ there) lt) c.1))
  ]
