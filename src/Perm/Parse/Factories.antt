-- ===== src/Perm/Parse/Factories.antt =====
-- The factories of perm/parse.py, called on texts that the parser has fuel for.
use ee_kernel.Base.{
  ℕ, suc, ◌<◌, ◌≡◌, refl, ap, arith, Text, split_char, List, [], ◌∷◌, length, Result,
}
use ee_kernel.Base.Outcome.{returns, raises, Outcome-bind, Outcome-imp}
use ee_kernel.Perm.Tree.{Perm, size_list}
use ee_kernel.Perm.Complete.{IsPositive, AllPositive}
use ee_kernel.Perm.Parse.{
  Parser, Macro, general, once, randomize, force_sameline, var, lineswap_text, lineswap, int,
  ignore, pretend, parse_each, split_args, split_args_newline, texts_of, split_args_text,
  parse_ints, once_from, var_from, factory, nonblank,
}
use ee_kernel.Perm.Parse.Shorter.{AreWithin, lines-AreWithin}
use ee_kernel.Perm.Parse.Fueled.{
  Finishes, finishes, split_by_comma-Finishes, parse_ints-fueled, int_from-Finishes,
  texts_of-fueled,
}

abbrev pub ParsesWell : Result (Perm × ℕ) → Type 0
ParsesWell r = Finishes (λ (p, n). IsPositive p) r

-- The parser does well on texts that are shorter than the bound.
abbrev pub IsGood : ℕ → Parser → Type 0
IsGood bound parse = (text : Text) (n : ℕ) → length text < bound → ParsesWell (parse text n)

module _ (bound : ℕ) (parse : Parser) (good : IsGood bound parse) where
  parse_each-Finishes :
      (m : ℕ) (args : List Text) (n : ℕ)
      → m < bound
      → AreWithin m args
      → Finishes
          (λ (ps, n'). AllPositive ps × (size_list ps ≡ length args))
          (parse_each parse args n)
  unfolding parse_each AllPositive size_list
  parse_each-Finishes m [] n lt h = returns (tt, refl)
  parse_each-Finishes m (a ∷ args) n lt h = Outcome-bind (good a n (omega arith)) λ (p, n') pos.
      Outcome-bind (parse_each-Finishes m args n' lt h.1)
        λ (ps, n'') r. returns ((pos, r.0), ap suc r.1)

  split_args-Finishes :
      (text : Text) (n : ℕ)
      → length text < bound
      → Finishes (λ (ps, n'). AllPositive ps × (0 < size_list ps)) (split_args parse text n)
  unfolding split_args
  split_args-Finishes text n lt = Outcome-bind (split_by_comma-Finishes text) λ args h.
      Outcome-imp (λ (ps, n') r. (r.0, omega arith))
        (parse_each-Finishes (length text) args n lt h.0)

  lines-Finishes :
      (text : Text) (n : ℕ)
      → length text < bound
      → Finishes (λ (ps, n'). AllPositive ps) (split_args_newline parse text n)
  unfolding split_args_newline
  lines-Finishes text n lt =
      Outcome-imp (λ (ps, n') r. r.0)
        (parse_each-Finishes (length text) (nonblank (split_char 10 [] text)) n lt
          (lines-AreWithin text))

  once_from-ParsesWell :
      (m : ℕ) (args : List Text) (n : ℕ)
      → m < bound
      → AreWithin m args
      → ParsesWell (once_from parse args n)
  unfolding once_from IsPositive
  once_from-ParsesWell m (key ∷ []) n lt h =
      Outcome-bind (good key n (omega arith)) λ (p, n') pos. returns pos
  once_from-ParsesWell m (key ∷ value ∷ []) n lt h =
      Outcome-bind (good value n (omega arith)) λ (p, n') pos. returns pos
  once_from-ParsesWell m [] n lt h = raises (λ e. cc)
  once_from-ParsesWell m (a ∷ b ∷ c ∷ rest) n lt h = raises (λ e. cc)

  var_from-ParsesWell :
      (m : ℕ) (args : List Text) (n : ℕ)
      → m < bound
      → AreWithin m args
      → ParsesWell (var_from parse args n)
  unfolding var_from IsPositive
  var_from-ParsesWell m (name ∷ []) n lt h =
      Outcome-bind (good name n (omega arith)) λ (p, n') pos. returns pos
  var_from-ParsesWell m (name ∷ value ∷ []) n lt h =
      Outcome-bind (good name n (omega arith)) λ (p, n') pos.
        Outcome-bind (good value n' (omega arith)) λ (q, n'') pos'. returns (pos, pos')
  var_from-ParsesWell m [] n lt h = raises (λ e. cc)
  var_from-ParsesWell m (a ∷ b ∷ c ∷ rest) n lt h = raises (λ e. cc)

  split_args_text-Finishes :
      (text : Text) (n : ℕ)
      → length text < bound
      → Finishes (λ r. Unit {0}) (split_args_text parse text n)
  unfolding split_args_text
  split_args_text-Finishes text n lt =
      Outcome-bind (split_args-Finishes text n lt) λ (ps, n') r.
        Outcome-bind (finishes (texts_of ps) (texts_of-fueled ps)) λ texts e. returns tt

  int-ParsesWell :
      (text : Text) (n : ℕ) → length text < bound → ParsesWell (factory parse int text n)
  unfolding factory
  int-ParsesWell text n lt = Outcome-bind (split_args_text-Finishes text n lt) λ (texts, n') h.
      Outcome-bind (finishes (parse_ints texts) (parse_ints-fueled texts))
        λ numbers e. Outcome-bind (int_from-Finishes numbers) λ p pos. returns pos

  pub factory-ParsesWell :
      (macro : Macro) (text : Text) (n : ℕ)
      → length text < bound
      → ParsesWell (factory parse macro text n)
  unfolding factory IsPositive
  factory-ParsesWell general text n lt =
      Outcome-bind (split_args-Finishes text n lt) λ (ps, n') r. returns (r.1, r.0)
  factory-ParsesWell once text n lt =
      Outcome-bind (split_by_comma-Finishes text)
        λ args h. once_from-ParsesWell (length text) args n lt h.0
  factory-ParsesWell randomize text n lt = Outcome-bind (good text n lt) λ (p, n') pos. returns pos
  factory-ParsesWell force_sameline text n lt =
      Outcome-bind (good text n lt) λ (p, n') pos. returns pos
  factory-ParsesWell var text n lt =
      Outcome-bind (split_by_comma-Finishes text)
        λ args h. var_from-ParsesWell (length text) args n lt h.0
  factory-ParsesWell lineswap_text text n lt =
      Outcome-bind (lines-Finishes text n lt) λ (ps, n') pos. returns pos
  factory-ParsesWell lineswap text n lt =
      Outcome-bind (lines-Finishes text n lt) λ (ps, n') pos. returns pos
  factory-ParsesWell int text n lt = int-ParsesWell text n lt
  factory-ParsesWell ignore text n lt = Outcome-bind (good text n lt) λ (p, n') pos. returns pos
  factory-ParsesWell pretend text n lt = Outcome-bind (good text n lt) λ (p, n') pos. returns pos
