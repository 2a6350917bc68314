-- ===== src/Perm/Variation.antt =====
-- What the macros describe, with no seeds: a relation between a macro tree, the state before, a
-- text that the tree may stand for, and the state after.
use ee_kernel.Base.{
  newline, ℕ, ◌<◌, ◌≡◌, ◌≢◌, refl, List, [], ◌∷◌, some, Text, join, strip, lookup, ◌∙◌,
}
use ee_kernel.Base.Int.{ℤ, add_ℕ, int_str}
use ee_kernel.Perm.Shuffle.{factorial}
use ee_kernel.Base.Count.{SameItems, text_has_eq}
use ee_kernel.Perm.Tree.{
  Perm, PermList, text_perm, ignore_perm, pretend_perm, combine_perm, randomizer_perm,
  force_sameline_perm, general_perm, once_perm, var_read, var_write, line_swap_perm,
  line_swap_ast_perm, int_perm, nil, cons, size_list,
}
use ee_kernel.Perm.State.{EvalState, gen_ast_statement_perm}
use ee_kernel.Perm.Evaluate.{ignored, pretended, randomized, on_same_line, write_var}

mutual
  pub data Variation : Perm → EvalState → Text → EvalState → Type 0 where
    text : {t : Text} {s : EvalState} → Variation (text_perm t) s t s
    ignore :
        {p : Perm} {t : Text} {s s' : EvalState}
        → Variation p s t s'
        → Variation (ignore_perm p) s (ignored t) s'
    pretend :
        {p : Perm} {t : Text} {s s' : EvalState}
        → Variation p s t s'
        → Variation (pretend_perm p) s (pretended t) s'
    combine :
        {ps : PermList} {ts : List Text} {s s' : EvalState}
        → Variations ps s ts s'
        → Variation (combine_perm ps) s (join [] ts) s'
    randomize :
        {p : Perm} {t : Text} {s s' : EvalState}
        → Variation p s t s'
        → Variation (randomizer_perm p) s (randomized t) s'
    sameline :
        {p : Perm} {t : Text} {s s' : EvalState}
        → Variation p s t s'
        → Variation (force_sameline_perm p) s (on_same_line t) s'
    general :
        {ps : PermList} {t : Text} {s s' : EvalState}
        → OneOf ps s t s'
        → Variation (general_perm ps) s t s'
    -- The chosen PERM_ONCE of a key stands for its content, and the others for nothing.
    once_here :
        {id : ℕ} {key : Text} {p : Perm} {t : Text} {s s' : EvalState}
        → lookup key s.once_choices ≡ some id
        → Variation p s t s'
        → Variation (once_perm id key p) s t s'
    once_elsewhere :
        {id j : ℕ} {key : Text} {p : Perm} {s : EvalState}
        → lookup key s.once_choices ≡ some j
        → j ≢ id
        → Variation (once_perm id key p) s [] s
    read :
        {p : Perm} {t v : Text} {s s' : EvalState}
        → Variation p s t s'
        → lookup (strip t) s'.vars ≡ some v
        → Variation (var_read p) s v s'
    write :
        {p q : Perm} {t v : Text} {s s' s'' : EvalState}
        → Variation p s t s'
        → Variation q s' v s''
        → Variation (var_write p q) s [] (write_var (strip t) v s'').1
    -- The lines in any order.
    line_swap :
        {ps : PermList} {ts : List Text} (us : List Text) {s s' : EvalState}
        → Variations ps s ts s'
        → SameItems us ts
        → Variation (line_swap_perm ps) s (join newline us) s'
    -- The order is settled later, by one of n! numbers.
    line_swap_ast :
        {ps : PermList} {ts : List Text} {s s' : EvalState} {v : ℕ}
        → Variations ps s ts s'
        → v < factorial (size_list ps)
        → Variation
            (line_swap_ast_perm ps)
            s
            (gen_ast_statement_perm (line_swap_ast_perm ps) v ts s').0
            (gen_ast_statement_perm (line_swap_ast_perm ps) v ts s').1
    int :
        {low : ℤ} {count n : ℕ} {s : EvalState}
        → n < count
        → Variation (int_perm low count) s (int_str (add_ℕ low n)) s

  -- A variation of each macro, in order, one state passed along.
  pub data Variations : PermList → EvalState → List Text → EvalState → Type 0 where
    none_left : {s : EvalState} → Variations nil s [] s
    one_more :
        {p : Perm} {ps : PermList} {t : Text} {ts : List Text} {s s' s'' : EvalState}
        → Variation p s t s'
        → Variations ps s' ts s''
        → Variations (cons p ps) s (t ∷ ts) s''

  -- A variation of one of the macros.
  pub data OneOf : PermList → EvalState → Text → EvalState → Type 0 where
    first :
        {p : Perm} {ps : PermList} {t : Text} {s s' : EvalState}
        → Variation p s t s'
        → OneOf (cons p ps) s t s'
    later :
        {p : Perm} {ps : PermList} {t : Text} {s s' : EvalState}
        → OneOf ps s t s'
        → OneOf (cons p ps) s t s'

-- No evaluation changes which PERM_ONCE is chosen.
mutual
  unfolding write_var gen_ast_statement_perm

  pub Variation-choices :
      {p : Perm} {s : EvalState} {t : Text} {s' : EvalState}
      → Variation p s t s'
      → s'.once_choices ≡ s.once_choices
  Variation-choices text = refl
  Variation-choices (ignore v) = Variation-choices v
  Variation-choices (pretend v) = Variation-choices v
  Variation-choices (combine v) = Variations-choices v
  Variation-choices (randomize v) = Variation-choices v
  Variation-choices (sameline v) = Variation-choices v
  Variation-choices (general v) = OneOf-choices v
  Variation-choices (once_here e v) = Variation-choices v
  Variation-choices (once_elsewhere e n) = refl
  Variation-choices (read v e) = Variation-choices v
  Variation-choices (write v w) = Variation-choices w ∙ Variation-choices v
  Variation-choices (line_swap us v e) = Variations-choices v
  Variation-choices (line_swap_ast v lt) = Variations-choices v
  Variation-choices (int lt) = refl

  Variations-choices :
      {ps : PermList} {s : EvalState} {ts : List Text} {s' : EvalState}
      → Variations ps s ts s'
      → s'.once_choices ≡ s.once_choices
  Variations-choices none_left = refl
  Variations-choices (one_more v vs) = Variations-choices vs ∙ Variation-choices v

  OneOf-choices :
      {ps : PermList} {s : EvalState} {t : Text} {s' : EvalState}
      → OneOf ps s t s'
      → s'.once_choices ≡ s.once_choices
  OneOf-choices (first v) = Variation-choices v
  OneOf-choices (later v) = OneOf-choices v
