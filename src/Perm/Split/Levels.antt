-- ===== src/Perm/Split/Levels.antt =====
-- The nesting level of parentheses, and what `_consume_arg_parens` makes of it.
use ee_kernel.Base.{
  ℕ, zero, suc, ◌≡◌, refl, ◌↔◌, Option, none, some, Text, [], ◌∷◌, ◌++◌, ok, arith,
}
use ee_kernel.Perm.Split.{open_paren, close_paren, bracket, consume_loop, consume_arg_parens}

-- The level behind a text that starts at the given level; none if a parenthesis closes below it.
unfoldable pub level_after : Text → ℕ → Option ℕ
level_after [] level = some level
level_after (c ∷ s) zero = elim (bracket c) [
  | open_paren ↦ level_after s 1
  | close_paren ↦ none
  | _ ↦ level_after s 0
]
level_after (c ∷ s) (suc level) = elim (bracket c) [
  | open_paren ↦ level_after s (suc (suc level))
  | close_paren ↦ level_after s level
  | _ ↦ level_after s (suc level)
]

-- Its parentheses match.
abbrev pub IsBalanced : Text → Type 0
IsBalanced s = level_after s 0 ≡ some 0

consume_loop-back :
    (args rest : Text) (level : ℕ)
    → level_after args level ≡ some 0
    → consume_loop (args ++ b')' ∷ rest) level ≡ ok (args, rest)
unfolding consume_loop level_after bracket
consume_loop-back [] rest zero h = refl
consume_loop-back [] rest (suc level) h = cc
consume_loop-back (c ∷ s) rest zero h =
    ground (arith, consume_loop-back s rest 1, consume_loop-back s rest 0)
consume_loop-back (c ∷ s) rest (suc level) h = ground (
  arith,
  consume_loop-back s rest (suc (suc level)),
  consume_loop-back s rest level,
  consume_loop-back s rest (suc level),
)

-- What the loop has read, from the character and the rest.
consume_loop-parts :
    (s : Text) (level : ℕ) (args rest : Text)
    → consume_loop s level ≡ ok (args, rest)
    → (s ≡ args ++ b')' ∷ rest) × (level_after args level ≡ some 0)
unfolding consume_loop level_after bracket
consume_loop-parts [] level args rest h = cc
consume_loop-parts (c ∷ s) zero [] rest h = ground arith
consume_loop-parts (c ∷ s) zero (a ∷ args) rest h =
    ground (arith, consume_loop-parts s 1 args rest, consume_loop-parts s 0 args rest)
consume_loop-parts (c ∷ s) (suc level) [] rest h = ground arith
consume_loop-parts (c ∷ s) (suc level) (a ∷ args) rest h = ground (
  arith,
  consume_loop-parts s (suc (suc level)) args rest,
  consume_loop-parts s level args rest,
  consume_loop-parts s (suc level) args rest,
)

-- The arguments of a macro are the balanced text up to the parenthesis that closes it: the scan
-- returns a text and a rest exactly when the text is balanced and the parenthesis and the rest follow.
pub consume_arg_parens_iff :
    (text args rest : Text)
    → (consume_arg_parens text ≡ ok (args, rest)) ↔ ((text ≡ args ++ b')' ∷ rest) × IsBalanced args)
unfolding consume_arg_parens
consume_arg_parens_iff text args rest =
    (consume_loop-parts text 0 args rest, λ (e, h). rw e (consume_loop-back args rest 0 h))
