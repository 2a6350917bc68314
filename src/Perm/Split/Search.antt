-- ===== src/Perm/Split/Search.antt =====
-- The macro search of perm/parse.py: the three parts of the text around a match.
use mathlib.Core.Option.{some-injective}
use ee_kernel.Base.{
  sym, subst, ℕ, ◌<◌, ◌≡◌, refl, ap, ◌∙◌, true, Bool-cases, inl, inr, Text, lit, starts_with, drop,
  [], ◌∷◌, ◌++◌, Option, none, some, arith, length, length-append,
}
use ee_kernel.Perm.Split.{
  lazy_name, match_name, with_prefix, match_here, leftmost, macro_search, Found,
}

starts_with-parts : (s p : Text) → starts_with s p ≡ true → s ≡ p ++ drop (length p) s
unfolding starts_with
starts_with-parts s [] h = refl
starts_with-parts [] (d ∷ p) h = cc
starts_with-parts (c ∷ s) (d ∷ p) h = ground (arith, starts_with-parts s p)

lazy_name-parts : (s name rest : Text) → lazy_name s ≡ some (name, rest) → s ≡ name ++ b'(' ∷ rest
unfolding lazy_name
lazy_name-parts [] name rest h = cc
lazy_name-parts (c ∷ s) [] rest h = ground arith
lazy_name-parts (c ∷ s) (d ∷ name) rest h = ground (arith, lazy_name-parts s name rest)

match_name-parts : (s name rest : Text) → match_name s ≡ some (name, rest) → s ≡ name ++ b'(' ∷ rest
unfolding match_name
match_name-parts [] name rest h = cc
match_name-parts (c ∷ s) [] rest h = ground arith
match_name-parts (c ∷ s) (d ∷ name) rest h = ground (arith, lazy_name-parts s name rest)

with_prefix-inv :
    (o : Option (Text × Text)) (name rest : Text)
    → with_prefix o ≡ some (name, rest)
    → (short : Text) × (o ≡ some (short, rest)) × (name ≡ lit "PERM_" ++ short)
unfolding with_prefix
with_prefix-inv none name rest h = cc
with_prefix-inv (some (short, behind)) name rest h = (short, cc, cc)

match_here-parts : (s name rest : Text) → match_here s ≡ some (name, rest) → s ≡ name ++ b'(' ∷ rest
unfolding match_here
match_here-parts s name rest h = elim (Bool-cases (starts_with s (lit "PERM_"))) [
  | inl starts ↦
      let (short, found, long) =
        with_prefix-inv (match_name (drop 5 s)) name rest (rw starts at h) in
      starts_with-parts s (lit "PERM_") starts
      ∙ ap (λ t. lit "PERM_" ++ t) (match_name-parts (drop 5 s) short rest found)
      ∙ ap (λ t. t ++ b'(' ∷ rest) (sym long)
  | inr other ↦ cc (rw other at h)
]

leftmost-parts :
    (o : Option (Text × Text)) (c : ℕ) (s : Text) (later : Option Found) (f : Found)
    → ((name rest : Text) → o ≡ some (name, rest) → c ∷ s ≡ name ++ b'(' ∷ rest)
    → ((g : Found) → later ≡ some g → s ≡ g.between ++ (g.perm_type ++ b'(' ∷ g.behind))
    → leftmost o c later ≡ some f
    → c ∷ s ≡ f.between ++ (f.perm_type ++ b'(' ∷ f.behind)
unfolding leftmost
leftmost-parts (some (name, rest)) c s later f here there h =
    subst (λ (g : Found). c ∷ s ≡ g.between ++ (g.perm_type ++ b'(' ∷ g.behind))
      (some-injective _ _ h) (here name rest refl)
leftmost-parts none c s none f here there h = cc
leftmost-parts none c s (some g) f here there h =
    subst (λ (k : Found). c ∷ s ≡ k.between ++ (k.perm_type ++ b'(' ∷ k.behind))
      (some-injective _ _ h) (ap (λ t. c ∷ t) (there g refl))

-- A match splits the text into what is before it, the macro's name, and what is behind its
-- opening parenthesis.
pub macro_search-parts :
    (s : Text) (f : Found)
    → macro_search s ≡ some f
    → s ≡ f.between ++ (f.perm_type ++ b'(' ∷ f.behind)
unfolding macro_search
macro_search-parts [] f h = cc
macro_search-parts (c ∷ s) f h =
    leftmost-parts (match_here (c ∷ s)) c s (macro_search s) f (match_here-parts (c ∷ s))
      (macro_search-parts s) h

-- So what is behind a match is shorter than the text.
pub behind-shorter : (s : Text) (f : Found) → macro_search s ≡ some f → length f.behind < length s
behind-shorter s f h = omega (
  arith,
  ap length (macro_search-parts s f h),
  length-append f.between (f.perm_type ++ b'(' ∷ f.behind),
  length-append f.perm_type (b'(' ∷ f.behind),
)
