-- ===== src/Perm/Split/Pieces.antt =====
-- The loop of `_split_by_comma` of perm/parse.py, from a text to its pieces.
use ee_kernel.Base.{
  append-nil, sym, ℕ, zero, suc, ◌≡◌, refl, inl, inr, ap, ◌∙◌, Text, join, List, [], ◌∷◌, ◌++◌,
  Result, ok, err, ◌>>=◌, arith, assertion_error, append_assoc,
}
use ee_kernel.Base.Outcome.{Outcome, returns, raises, Outcome-bind, Outcome-ok, Outcome-err}
use ee_kernel.Perm.Split.{comma, bracket, split_loop}
use ee_kernel.Perm.Split.Args.{
  arg_level, AreArgs, bracket_cases, level_open, level_close, level_plain, level_comma,
}

abbrev pub comma_sep : Text
comma_sep = b',' ∷ []

abbrev pub prepend : Text → Result (List Text) → Result (List Text)
prepend cur (ok []) = ok []
prepend cur (ok (a ∷ rest)) = ok ((cur ++ a) ∷ rest)
prepend cur (err e) = err e

prepend-prepend :
    (s t : Text) (r : Result (List Text)) → prepend s (prepend t r) ≡ prepend (s ++ t) r
prepend-prepend s t (ok []) = refl
prepend-prepend s t (ok (a ∷ rest)) = rw append_assoc
prepend-prepend s t (err e) = refl

prepend-nil : (r : Result (List Text)) → prepend [] r ≡ r
prepend-nil (ok []) = refl
prepend-nil (ok (a ∷ rest)) = refl
prepend-nil (err e) = refl

-- One character more in `current`.
push :
    (s : Text) (level : ℕ) (cur : Text) (c : ℕ)
    → ((t : Text) → split_loop s level t ≡ prepend t (split_loop s level []))
    → split_loop s level (cur ++ c ∷ []) ≡ prepend cur (split_loop s level (c ∷ []))
push s level cur c current =
    current (cur ++ c ∷ [])
    ∙ sym (prepend-prepend cur (c ∷ []) (split_loop s level []))
    ∙ sym (ap (prepend cur) (current (c ∷ [])))

prepend-comma :
    (cur : Text) (r : Result (List Text))
    → (r >>= λ args. ok (cur ∷ args)) ≡ prepend cur (r >>= λ args. ok ([] ∷ args))
prepend-comma cur (ok args) = rw append-nil
prepend-comma cur (err e) = refl

-- `current` only stands before the first piece.
pub split_loop-current :
    (s : Text) (level : ℕ) (cur : Text)
    → split_loop s level cur ≡ prepend cur (split_loop s level [])
unfolding split_loop
split_loop-current [] zero cur = rw append-nil
split_loop-current [] (suc level) cur = refl
split_loop-current (c ∷ s) zero cur = elim (bracket_cases (bracket c)) [
  | inl e ↦ rw (e, split_loop) (push s 1 cur c (split_loop-current s 1))
  | inr (inl e) ↦ rw (e, split_loop) refl
  | inr (inr (inl e)) ↦ rw (e, split_loop) (prepend-comma cur (split_loop s 0 []))
  | inr (inr (inr e)) ↦ rw (e, split_loop) (push s 0 cur c (split_loop-current s 0))
]
split_loop-current (c ∷ s) (suc level) cur = elim (bracket_cases (bracket c)) [
  | inl e ↦
      rw (e, split_loop) (push s (suc (suc level)) cur c (split_loop-current s (suc (suc level))))
  | inr (inl e) ↦ rw (e, split_loop) (push s level cur c (split_loop-current s level))
  | inr (inr (inl e)) ↦
      rw (e, split_loop) (push s (suc level) cur c (split_loop-current s (suc level)))
  | inr (inr (inr e)) ↦
      rw (e, split_loop) (push s (suc level) cur c (split_loop-current s (suc level)))
]

-- What a run returns: pieces that join to the text.
abbrev pub Parts : ℕ → Text → List Text → Type 0
Parts level s args = (join comma_sep args ≡ s) × AreArgs level args

abbrev Splits : ℕ → Text → Result (List Text) → Type 0
Splits level s r = Outcome (Parts level s) (λ e. e ≡ assertion_error) r

pub join-cons :
    (c : ℕ) (a : Text) (rest : List Text)
    → join comma_sep ((c ∷ a) ∷ rest) ≡ c ∷ join comma_sep (a ∷ rest)
unfolding join
join-cons c a [] = refl
join-cons c a (b ∷ rest) = refl

-- A character that takes the level from one number to the other.
add_char :
    (c : ℕ) (s : Text) (level level' : ℕ) (r : Result (List Text))
    → ((a : Text) → arg_level (c ∷ a) level ≡ arg_level a level')
    → Splits level' s r
    → Splits level (c ∷ s) (prepend (c ∷ []) r)
add_char c s level level' (ok []) step out = absurd ((Outcome-ok out refl).1)
add_char c s level level' (ok (a ∷ rest)) step out =
    let (joined, good) = Outcome-ok out refl in
    returns (join-cons c a rest ∙ ap (λ t. c ∷ t) joined, (step a ∙ good.0, good.1))
add_char c s level level' (err e) step out = raises (Outcome-err out refl)

over :
    (c : ℕ) (s : Text) (level level' : ℕ)
    → ((a : Text) → arg_level (c ∷ a) level ≡ arg_level a level')
    → Splits level' s (split_loop s level' [])
    → Splits level (c ∷ s) (split_loop s level' (c ∷ []))
over c s level level' step out =
    rw (split_loop-current s level' (c ∷ [])) (add_char c s level level' _ step out)

comma_char : (c : ℕ) → bracket c ≡ comma → c ≡ b','
unfolding bracket
comma_char c h = ground arith

-- A comma at level 0 starts a piece.
cut :
    (c : ℕ) (s : Text) (args : List Text)
    → bracket c ≡ comma
    → Parts 0 s args
    → Parts 0 (c ∷ s) ([] ∷ args)
unfolding join arg_level
cut c s [] e h = absurd h.1
cut c s (a ∷ rest) e h = (rw (comma_char c e) (ap (λ t. b',' ∷ t) h.0), (refl, h.1))

pub split_loop-Splits : (s : Text) (level : ℕ) → Splits level s (split_loop s level [])
unfolding split_loop join arg_level
split_loop-Splits [] zero = returns (refl, (refl, tt))
split_loop-Splits [] (suc level) = raises refl
split_loop-Splits (c ∷ s) zero = elim (bracket_cases (bracket c)) [
  | inl e ↦ rw (e, split_loop) (over c s 0 1 (λ a. level_open c a 0 e) (split_loop-Splits s 1))
  | inr (inl e) ↦ rw (e, split_loop) (raises refl)
  | inr (inr (inl e)) ↦
      rw (e, split_loop)
        (Outcome-bind (split_loop-Splits s 0) λ args parts. returns (cut c s args e parts))
  | inr (inr (inr e)) ↦
      rw (e, split_loop) (over c s 0 0 (λ a. level_plain c a 0 e) (split_loop-Splits s 0))
]
split_loop-Splits (c ∷ s) (suc level) = elim (bracket_cases (bracket c)) [
  | inl e ↦
      rw (e, split_loop)
        (over c s (suc level) (suc (suc level)) (λ a. level_open c a (suc level) e)
          (split_loop-Splits s (suc (suc level))))
  | inr (inl e) ↦
      rw (e, split_loop)
        (over c s (suc level) level (λ a. level_close c a level e) (split_loop-Splits s level))
  | inr (inr (inl e)) ↦
      rw (e, split_loop)
        (over c s (suc level) (suc level) (λ a. level_comma c a level e)
          (split_loop-Splits s (suc level)))
  | inr (inr (inr e)) ↦
      rw (e, split_loop)
        (over c s (suc level) (suc level) (λ a. level_plain c a (suc level) e)
          (split_loop-Splits s (suc level)))
]
