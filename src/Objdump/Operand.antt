-- ===== src/Objdump/Operand.antt =====
-- Relocations in objdump.py: the line that they change.
use ee_kernel.Base.{
  ℕ, ◌≡◌, refl, sym, ap, subst, ◌∙◌, ◌⊎◌, inl, inr, Bool, true, false, Bool-cases, Option, none,
  some, [], ◌∷◌, ◌++◌, All, Text, lit, text_eq, Result, ok, err, ◌==◌, ==_iff, if◌then◌else◌,
  exception, assertion_error,
}
use ee_kernel.Base.Outcome.{Outcome, returns, raises, Outcome-bind}
use ee_kernel.Objdump.Texts.{cut_last, cut_first, last_word}
use ee_kernel.Objdump.Reloc.{
  cut_operand, parse_relocated_line, new_repl, place_reloc, process_reloc,
}

abbrev pub HasNo : ℕ → Text → Type 0
HasNo c = All (λ d. (c == d) ≡ false)

-- Two parts of a text, the first one up to the last place of a character.
abbrev AreParts : ℕ → Text → Option (Text × Text) → Type 0
AreParts c s none = HasNo c s
AreParts c s (some (before, after)) =
    (s ≡ before ++ after) × (stem : Text) × (before ≡ stem ++ c ∷ []) × HasNo c after

cut_last-AreParts : (c : ℕ) (s : Text) → AreParts c s (cut_last c s)
unfolding cut_last
cut_last-AreParts c [] = tt
cut_last-AreParts c (d ∷ s) = later (cut_last c s) (cut_last-AreParts c s)
  where
    later :
        (found : Option (Text × Text))
        → AreParts c s found
        → AreParts c (d ∷ s) (elim found [
          | some (before, after) ↦ some (d ∷ before, after)
          | none ↦ if c == d then some (d ∷ [], s) else none
        ])
    later (some (before, after)) (e, stem, e', free) =
        (ap (λ t. d ∷ t) e, d ∷ stem, ap (λ t. d ∷ t) e', free)
    later none h = elim (Bool-cases (c == d)) [
      | inl same ↦ rw same (refl, [], ap (λ k. k ∷ []) (sym ((==_iff c d).0 same)), h)
      | inr other ↦ rw other (other, h)
    ]

-- Nothing, or from a character on.
abbrev pub StartsAt : ℕ → Text → Type 0
StartsAt c [] = Unit
StartsAt c (d ∷ s) = c ≡ d

cut_first-parts :
    (c : ℕ) (s : Text)
    → (s ≡ (cut_first c s).0 ++ (cut_first c s).1)
      × HasNo c (cut_first c s).0
      × StartsAt c (cut_first c s).1
unfolding cut_first
cut_first-parts c [] = (refl, tt, tt)
cut_first-parts c (d ∷ s) = elim (Bool-cases (c == d)) [
  | inl same ↦ rw same (refl, tt, (==_iff c d).0 same)
  | inr other ↦
      let (e, free, at) = cut_first-parts c s in rw other (ap (λ t. d ∷ t) e, (other, free), at)
]

-- The separator of the operand: the first of comma, tab and space that the line has.
abbrev pub IsSeparator : ℕ → Text → Type 0
IsSeparator c line =
    (c ≡ 44) ⊎ ((c ≡ 9) × HasNo 44 line) ⊎ ((c ≡ 32) × HasNo 44 line × HasNo 9 line)

abbrev IsCut : Text → Option (Text × Text) → Type 0
IsCut line none = HasNo 44 line × HasNo 9 line × HasNo 32 line
IsCut line (some parts) = (c : ℕ) × IsSeparator c line × AreParts c line (some parts)

cut_operand-IsCut : (line : Text) → IsCut line (cut_operand line)
unfolding cut_operand
cut_operand-IsCut line =
    by_comma (cut_last 44 line) (cut_last 9 line) (cut_last 32 line) (cut_last-AreParts 44 line)
      (cut_last-AreParts 9 line) (cut_last-AreParts 32 line)
  where
    by_comma :
        (comma tab space : Option (Text × Text))
        → AreParts 44 line comma
        → AreParts 9 line tab
        → AreParts 32 line space
        → IsCut line (elim comma [
          | some parts ↦ some parts
          | none ↦ elim tab [ some parts ↦ some parts | none ↦ space ]
        ])
    by_comma (some (a, b)) tab space h k l = (44, inl refl, h)
    by_comma none (some (a, b)) space h k l = (9, inr (inl (refl, h)), k)
    by_comma none none (some (a, b)) h k l = (32, inr (inr (refl, h, k)), l)
    by_comma none none none h k l = (h, k, l)

-- The parts of a line: up to the last separator, an operand, and from its parenthesis on. The operand
-- is reported as 0 where it is 0x0.
abbrev pub IsSplit : Text → Text × Text × Text → Type 0
IsSplit line (before, imm, after) =
    (operand : Text) × (c : ℕ) × (stem : Text) × (line ≡ before ++ (operand ++ after))
    × IsSeparator c line
    × (before ≡ stem ++ c ∷ [])
    × HasNo c (operand ++ after)
    × HasNo 40 operand
    × StartsAt 40 after
    × (imm ≡ (if text_eq operand (lit "0x0") then lit "0" else operand))

-- Where a line is parsed to three parts, they are the line up to its last separator, which is a
-- comma, or a tab if there is no comma, or a space if there is neither, then its operand up to a
-- parenthesis, with 0 for 0x0, and the rest; a line that has no separator raises an exception.
pub parse_relocated_line-Outcome :
    (line : Text)
    → Outcome
        (IsSplit line)
        (λ e. (e ≡ exception) × HasNo 44 line × HasNo 9 line × HasNo 32 line)
        (parse_relocated_line line)
unfolding parse_relocated_line
parse_relocated_line-Outcome line = by_parts (cut_operand line) (cut_operand-IsCut line)
  where
    by_parts :
        (found : Option (Text × Text))
        → IsCut line found
        → Outcome
            (IsSplit line)
            (λ e. (e ≡ exception) × HasNo 44 line × HasNo 9 line × HasNo 32 line)
            (elim found [
              | none ↦ err exception
              | some (before, rest) ↦
                  let (imm, after) = cut_first 40 rest in
                  ok (before, (if text_eq imm (lit "0x0") then lit "0" else imm), after)
            ])
    by_parts none h = raises (refl, h.0, h.1, h.2)
    by_parts (some (before, rest)) (c, sep, (e, stem, ends, free)) =
        let (parts, unopened, at) = cut_first-parts 40 rest in
        returns (
          (cut_first 40 rest).0,
          c,
          stem,
          e ∙ ap (λ t. before ++ t) parts,
          sep,
          ends,
          subst (HasNo c) parts free,
          unopened,
          at,
          refl,
        )

-- What process_reloc makes of the line before: nothing, or the line with another operand.
abbrev pub ChangesOperand : Text → Option Text → Type 0
ChangesOperand prev none = Unit
ChangesOperand prev (some row) =
    (before : Text) × (imm : Text) × (after : Text) × (replaced : Text) × (parse_relocated_line prev
      ≡ ok (before, imm, after))
    × (row ≡ before ++ (replaced ++ after))

abbrev pub Gives {ℓ κ} : {A : Type ℓ} → (A → Type κ) → Result A → Type (ℓ ⊔ κ)
Gives P r = Outcome P (λ e. Unit {0}) r

pub any_result {ℓ} : {A : Type ℓ} (r : Result A) → Gives (λ a. Unit {0}) r
any_result (err e) = raises tt
any_result (ok a) = returns tt

weaken {ℓ} : {A : Type ℓ} (r : Result A) → Gives (λ a. r ≡ ok a) r
weaken (err e) = raises tt
weaken (ok a) = returns refl

module _ (process_x86_reloc : Text → Text → Text → Result Text) (reloc_row prev : Text)
    (ign_branch_targets : Bool) where
  place_reloc-ChangesOperand :
      (parts : Text × Text × Text)
      → parse_relocated_line prev ≡ ok parts
      → Gives
          (ChangesOperand prev)
          (place_reloc process_x86_reloc reloc_row prev ign_branch_targets parts)
  unfolding place_reloc
  place_reloc-ChangesOperand (before, imm, after) e =
      Outcome-bind (any_result (last_word reloc_row)) λ repl _.
        elim (Bool-cases (text_eq imm (lit "<target>"))) [
          | inl target ↦ rw target (by_flag ign_branch_targets)
          | inr other ↦ rw other (
              Outcome-bind (any_result (new_repl process_x86_reloc reloc_row prev repl imm))
                λ replaced _. returns (before, imm, after, replaced, e, refl))
        ]
    where
      by_flag :
          (b : Bool) → Gives (ChangesOperand prev) (if b then ok none else err assertion_error)
      by_flag true = returns tt
      by_flag false = raises tt

  -- Whatever the relocation, process_reloc raises an exception, or leaves the line before as it is, or
  -- gives that line with another operand between the parts that parse_relocated_line finds.
  pub process_reloc-ChangesOperand :
      Gives
        (ChangesOperand prev)
        (process_reloc process_x86_reloc reloc_row prev ign_branch_targets)
  unfolding process_reloc
  process_reloc-ChangesOperand = elim (Bool-cases (text_eq prev (lit "<skipped>"))) [
    | inl skipped ↦ rw skipped (returns tt)
    | inr other ↦ rw other (
        Outcome-bind (weaken (parse_relocated_line prev))
          λ parts h. place_reloc-ChangesOperand parts h)
  ]
