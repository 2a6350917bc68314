-- ===== src/Perm/Split/Args.antt =====
-- What an argument of a macro is: the level of its parentheses and commas, one character at a time.
use ee_kernel.Base.{
  ◌≢◌, ℕ, zero, suc, ◌≡◌, refl, ◌⊎◌, inl, inr, Option, none, some, Text, List, [], ◌∷◌, All,
}
use ee_kernel.Perm.Split.{Bracket, open_paren, close_paren, comma, plain, bracket}

-- The level behind a text; none if a parenthesis closes below level 0 or a comma stands at it.
unfoldable pub arg_level : Text → ℕ → Option ℕ
arg_level [] level = some level
arg_level (c ∷ s) zero = elim (bracket c) [
  | open_paren ↦ arg_level s 1
  | plain ↦ arg_level s 0
  | _ ↦ none
]
arg_level (c ∷ s) (suc level) = elim (bracket c) [
  | open_paren ↦ arg_level s (suc (suc level))
  | close_paren ↦ arg_level s level
  | _ ↦ arg_level s (suc level)
]

-- An argument: its parentheses match, and each comma is inside some.
abbrev pub IsArg : Text → Type 0
IsArg s = arg_level s 0 ≡ some 0

-- The first piece starts at the given level, the others at level 0.
abbrev pub AreArgs : ℕ → List Text → Type 0
AreArgs level [] = ⊥
AreArgs level (a ∷ rest) = (arg_level a level ≡ some 0) × All IsArg rest

pub bracket_cases : (b : Bracket) → (b ≡ open_paren) ⊎ (b ≡ close_paren) ⊎ (b ≡ comma) ⊎ (b ≡ plain)
bracket_cases open_paren = inl refl
bracket_cases close_paren = inr (inl refl)
bracket_cases comma = inr (inr (inl refl))
bracket_cases plain = inr (inr (inr refl))

-- One step of the levels for each kind of character.
module _ (c : ℕ) (a : Text) where
  pub level_open :
      (level : ℕ) → bracket c ≡ open_paren → arg_level (c ∷ a) level ≡ arg_level a (suc level)
  unfolding arg_level
  level_open level e = elim level as (λ l. arg_level (c ∷ a) l ≡ arg_level a (suc l)) [
    | zero ↦ rw (e, arg_level)
    | suc l ↦ rw (e, arg_level)
  ]

  pub level_close :
      (level : ℕ) → bracket c ≡ close_paren → arg_level (c ∷ a) (suc level) ≡ arg_level a level
  unfolding arg_level
  level_close level e = rw (e, arg_level)

  pub level_plain : (level : ℕ) → bracket c ≡ plain → arg_level (c ∷ a) level ≡ arg_level a level
  unfolding arg_level
  level_plain level e = elim level as (λ l. arg_level (c ∷ a) l ≡ arg_level a l) [
    | zero ↦ rw (e, arg_level)
    | suc l ↦ rw (e, arg_level)
  ]

  pub level_comma :
      (level : ℕ) → bracket c ≡ comma → arg_level (c ∷ a) (suc level) ≡ arg_level a (suc level)
  unfolding arg_level
  level_comma level e = rw (e, arg_level)

  -- At level 0 neither a closing parenthesis nor a comma is part of an argument.
  pub not_closed : bracket c ≡ close_paren → arg_level (c ∷ a) 0 ≢ some 0
  unfolding arg_level
  not_closed e h = cc (rw (e, arg_level) at h)

  pub not_comma : bracket c ≡ comma → arg_level (c ∷ a) 0 ≢ some 0
  unfolding arg_level
  not_comma e h = cc (rw (e, arg_level) at h)
