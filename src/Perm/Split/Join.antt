-- ===== src/Perm/Split/Join.antt =====
-- `_split_by_comma` of perm/parse.py and joining by commas.
use ee_kernel.Base.{
  ◌≢◌, sym, ℕ, zero, suc, ◌≡◌, refl, ◌↔◌, inl, inr, ◌∙◌, Text, join, List, [], ◌∷◌, ok, All,
}
use ee_kernel.Base.Outcome.{Outcome-ok}
use ee_kernel.Perm.Split.{bracket, split_loop, split_by_comma}
use ee_kernel.Perm.Split.Args.{
  arg_level, IsArg, AreArgs, bracket_cases, level_open, level_close, level_plain, level_comma,
  not_closed, not_comma,
}
use ee_kernel.Perm.Split.Pieces.{comma_sep, split_loop-current, join-cons, split_loop-Splits}

-- The other way: the pieces of a join.
prepend_piece :
    (s : Text) (level : ℕ) (c : ℕ) (a : Text) (rest : List Text)
    → split_loop s level [] ≡ ok (a ∷ rest)
    → split_loop s level (c ∷ []) ≡ ok ((c ∷ a) ∷ rest)
prepend_piece s level c a rest h = rw (split_loop-current s level (c ∷ []), h)

-- The first character of a piece, when the rest of the piece is split as it should.
from_step :
    (c : ℕ) (a : Text) (rest : List Text) (level : ℕ)
    → AreArgs level ((c ∷ a) ∷ rest)
    → ((level' : ℕ)
        → AreArgs level' (a ∷ rest)
        → split_loop (join comma_sep (a ∷ rest)) level' [] ≡ ok (a ∷ rest))
    → split_loop (c ∷ join comma_sep (a ∷ rest)) level [] ≡ ok ((c ∷ a) ∷ rest)
unfolding split_loop
from_step c a rest zero good ih = elim (bracket_cases (bracket c)) [
  | inl e ↦
      rw (e, split_loop)
        (prepend_piece _ 1 c a rest (ih 1 (sym (level_open c a 0 e) ∙ good.0, good.1)))
  | inr (inl e) ↦ absurd (not_closed c a e good.0)
  | inr (inr (inl e)) ↦ absurd (not_comma c a e good.0)
  | inr (inr (inr e)) ↦
      rw (e, split_loop)
        (prepend_piece _ 0 c a rest (ih 0 (sym (level_plain c a 0 e) ∙ good.0, good.1)))
]
from_step c a rest (suc level) good ih = elim (bracket_cases (bracket c)) [
  | inl e ↦
      rw (e, split_loop)
        (prepend_piece _ (suc (suc level)) c a rest
          (ih (suc (suc level)) (sym (level_open c a (suc level) e) ∙ good.0, good.1)))
  | inr (inl e) ↦
      rw (e, split_loop)
        (prepend_piece _ level c a rest (ih level (sym (level_close c a level e) ∙ good.0, good.1)))
  | inr (inr (inl e)) ↦
      rw (e, split_loop)
        (prepend_piece _ (suc level) c a rest
          (ih (suc level) (sym (level_comma c a level e) ∙ good.0, good.1)))
  | inr (inr (inr e)) ↦
      rw (e, split_loop)
        (prepend_piece _ (suc level) c a rest
          (ih (suc level) (sym (level_plain c a (suc level) e) ∙ good.0, good.1)))
]

split_loop-join :
    (rest : List Text) (a : Text) (level : ℕ)
    → AreArgs level (a ∷ rest)
    → split_loop (join comma_sep (a ∷ rest)) level [] ≡ ok (a ∷ rest)
unfolding split_loop join arg_level bracket
split_loop-join [] [] zero good = refl
split_loop-join [] [] (suc level) good = cc (good.0)
split_loop-join (b ∷ rest) [] zero good = rw (split_loop-join rest b 0 (good.1.0, good.1.1))
split_loop-join (b ∷ rest) [] (suc level) good = cc (good.0)
split_loop-join rest (c ∷ a) level good =
    rw (join-cons c a rest)
      (from_step c a rest level good (λ level' good'. split_loop-join rest a level' good'))

-- The pieces of a text are the arguments that join to it by commas: splitting returns a list
-- exactly when the list joins to the text, is not empty, and holds arguments alone.
pub split_by_comma_iff :
    (text : Text) (args : List Text)
    → (split_by_comma text ≡ ok args)
      ↔ ((join comma_sep args ≡ text) × (args ≢ []) × All IsArg args)
unfolding split_by_comma
split_by_comma_iff text [] = (
  λ h. absurd (Outcome-ok (split_loop-Splits text 0) h).1,
  λ (joined, some_args, good). absurd (some_args refl),
)
split_by_comma_iff text (a ∷ rest) = (
  λ h. let parts = Outcome-ok (split_loop-Splits text 0) h in (parts.0, (λ e. cc), parts.1),
  λ (joined, some_args, good). rw (← joined) (split_loop-join rest a 0 good),
)
