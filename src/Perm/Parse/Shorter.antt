-- ===== src/Perm/Parse/Shorter.antt =====
-- The lengths of the pieces that perm/parse.py cuts the arguments of a macro into.
use ee_kernel.Base.{
  ℕ, ◌+◌, ◌≤◌, ◌≡◌, ap, arith, Text, join, strip, split_char, List, [], ◌∷◌, ◌++◌, length,
  length-append, All, Bool-cases, inl, inr, ◌==◌, ok,
}
use ee_kernel.Perm.Split.{split_by_comma}
use ee_kernel.Perm.Split.Pieces.{comma_sep}
use ee_kernel.Perm.Split.Join.{split_by_comma_iff}
use ee_kernel.Perm.Parse.{nonblank}

-- No longer than a bound.
abbrev pub AreWithin : ℕ → List Text → Type 0
AreWithin n = All (λ s. length s ≤ n)

AreWithin-imp : (m n : ℕ) (ts : List Text) → m ≤ n → AreWithin m ts → AreWithin n ts
AreWithin-imp m n [] h k = tt
AreWithin-imp m n (t ∷ ts) h k = (omega arith, AreWithin-imp m n ts h k.1)

join-AreWithin : (ts : List Text) → AreWithin (length (join comma_sep ts)) ts
unfolding join
join-AreWithin [] = tt
join-AreWithin (t ∷ []) = (omega arith, tt)
join-AreWithin (t ∷ u ∷ ts) =
    let longer = length-append t (comma_sep ++ join comma_sep (u ∷ ts)) in
    (
      omega (arith, longer),
      AreWithin-imp _ _ (u ∷ ts) (omega (arith, longer)) (join-AreWithin (u ∷ ts)),
    )

pub split_by_comma-AreWithin :
    (text : Text) (args : List Text) → split_by_comma text ≡ ok args → AreWithin (length text) args
split_by_comma-AreWithin text args h =
    let joined = ((split_by_comma_iff text args).0 h).0 in
    AreWithin-imp _ _ args (omega (arith, ap length joined)) (join-AreWithin args)

split_char-AreWithin :
    (n sep : ℕ) (current s : Text)
    → length current + length s ≤ n
    → AreWithin n (split_char sep current s)
unfolding split_char
split_char-AreWithin n sep current [] h = (omega arith, tt)
split_char-AreWithin n sep current (c ∷ s) h = elim (Bool-cases (c == sep)) [
  | inl here ↦ rw here (omega arith, split_char-AreWithin n sep [] s (omega arith))
  | inr further ↦ rw further (
      split_char-AreWithin n sep (current ++ c ∷ []) s
        (omega (arith, length-append current (c ∷ []))))
]

nonblank-AreWithin : (n : ℕ) (ts : List Text) → AreWithin n ts → AreWithin n (nonblank ts)
unfolding nonblank
nonblank-AreWithin n [] h = tt
nonblank-AreWithin n (t ∷ ts) h =
    elim (strip t) as (λ s. AreWithin n (elim s [ [] ↦ nonblank ts | c ∷ r ↦ t ∷ nonblank ts ])) [
      | [] ↦ nonblank-AreWithin n ts h.1
      | c ∷ r ↦ (h.0, nonblank-AreWithin n ts h.1)
    ]

pub lines-AreWithin : (text : Text) → AreWithin (length text) (nonblank (split_char 10 [] text))
lines-AreWithin text =
    nonblank-AreWithin (length text) (split_char 10 [] text)
      (split_char-AreWithin (length text) 10 [] text (omega arith))
