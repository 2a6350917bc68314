-- ===== src/Scorer/Sameline.antt =====
-- `diff_sameline` of scorer.py: the penalties of two lines with the same mnemonic.
use ee_kernel.Base.{
  is_some, ℕ, suc, ◌+◌, ◌-◌, Bool, not, ◌&&◌, ◌||◌, Text, text_eq, any, List, [], ◌∷◌, Option, none,
  some, if◌then◌else◌,
}
use ee_kernel.Base.Int.{ℤ, pos_part, neg_part}
use ee_kernel.Scorer.Fields.{
  Line, ArchSettings, field_matches_any_symbol, row_fields, init, split_last, last_field,
}

-- The settings of the Scorer that the comparison reads.
pub record Settings : Type 0 where
  pub arch : ArchSettings
  pub stack_differences : Bool
  pub ign_branch_targets : Bool

-- What a comparison adds to the three counters, and whether its line counts as different.
pub record LineDiff : Type 0 where
  pub stack : ℕ
  pub branch : ℕ
  pub regalloc : ℕ

-- abs(a - b)
unfoldable pub abs_diff : ℤ → ℤ → ℕ
abs_diff a b =
    let x = pos_part a + neg_part b in let y = pos_part b + neg_part a in (x - y) + (y - x)

abbrev both : Option ℤ → Option ℤ → Option (ℤ × ℤ)
both (some a) (some b) = some (a, b)
both (some a) none = none
both none o = none

-- The stack offsets of both rows, where stack differences are scored and both have one.
stack_offsets : Settings → Line → Line → Option (ℤ × ℤ)
stack_offsets settings old new =
    if settings.stack_differences
    then both (settings.arch.re_sprel old.row) (settings.arch.re_sprel new.row)
    else none

-- A branch, to a place with no symbol, whose target differs.
branch_differs : Settings → Line → Line → Bool
branch_differs settings old new =
    not settings.ign_branch_targets
    && text_eq old.mnemonic new.mnemonic
    && (any (text_eq old.mnemonic) settings.arch.branch_instructions
        || any (text_eq old.mnemonic) settings.arch.branch_likely_instructions)
    && not (text_eq old.row new.row)
    && not old.has_symbol
    && not new.has_symbol
    && not (text_eq (last_field old.row) (last_field new.row))

-- The loop over zip(newfields, oldfields), and the penalty for extra fields.
diff_fields : ArchSettings → Bool → List Text → List Text → ℕ
diff_fields arch old_has_symbol [] [] = 0
diff_fields arch old_has_symbol [] (of ∷ ofs) = suc (diff_fields arch old_has_symbol [] ofs)
diff_fields arch old_has_symbol (nf ∷ nfs) [] = suc (diff_fields arch old_has_symbol nfs [])
diff_fields arch old_has_symbol (nf ∷ nfs) (of ∷ ofs) =
    (if text_eq nf of || (field_matches_any_symbol nf arch && old_has_symbol) then 0 else 1)
    + diff_fields arch old_has_symbol nfs ofs

abbrev stack_penalty : Option (ℤ × ℤ) → ℕ
stack_penalty none = 0
stack_penalty (some (oldrel, newrel)) = abs_diff oldrel newrel

-- Either the last field is ignored, or a parenthesis in it makes a field of its own.
abbrev compared_fields : Bool → Text → List Text
compared_fields ignore_last_field row =
    if ignore_last_field then init (row_fields row) else split_last (row_fields row)

-- diff_sameline, for rows that differ
diff_rows : Settings → Line → Line → LineDiff
unfolding stack_offsets branch_differs diff_fields
diff_rows settings old new =
    let offsets = stack_offsets settings old new in
    let branch_diff = branch_differs settings old new in
    let ignore_last_field = is_some offsets || branch_diff in
    record {
      stack = stack_penalty offsets;
      branch = if branch_diff then 1 else 0;
      regalloc =
          diff_fields settings.arch old.has_symbol (compared_fields ignore_last_field new.row)
            (compared_fields ignore_last_field old.row);
    }

unfoldable pub diff_sameline : Settings → Line → Line → LineDiff
unfolding diff_rows
diff_sameline settings old new =
    if text_eq old.row new.row
    then record { stack = 0; branch = 0; regalloc = 0 }
    else diff_rows settings old new
