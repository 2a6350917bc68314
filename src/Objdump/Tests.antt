-- ===== src/Objdump/Tests.antt =====
-- The theorems about objdump.py at concrete inputs.
use ee_kernel.Base.{
  ◌-◌, ◌≤◌, ◌≡◌, refl, true, false, List, [], ◌∷◌, length, Text, lit, text_eq, join, starts_with,
  split_char, Result, ok, err, exception, assertion_error,
}
use ee_kernel.Base.Outcome.{Outcome}
use ee_kernel.Scorer.Fields.{Line}
use ee_kernel.Objdump.Texts.{member}
use ee_kernel.Objdump.Branches.{mips_branch_instructions}
use ee_kernel.Objdump.Reloc.{parse_relocated_line}
use ee_kernel.Objdump.Simplify.{Arch, without_last, simplify_objdump}
use ee_kernel.Objdump.Operand.{HasNo, IsSplit, parse_relocated_line-Outcome}
use ee_kernel.Objdump.Rows.{EndsInCode, simplify_objdump-EndsInCode}
use mathlib.Core.List.{reverse}

parse_relocated_line-Outcome_example :
    Outcome
      (IsSplit (lit "lw\tv0,0x0(a0)"))
      (λ e.
        (e ≡ exception)
        × HasNo 44 (lit "lw\tv0,0x0(a0)")
        × HasNo 9 (lit "lw\tv0,0x0(a0)")
        × HasNo 32 (lit "lw\tv0,0x0(a0)"))
      (parse_relocated_line (lit "lw\tv0,0x0(a0)"))
parse_relocated_line-Outcome_example = parse_relocated_line-Outcome (lit "lw\tv0,0x0(a0)")

abbrev no_x86 : Text → Text → Text → Result Text
no_x86 reloc_row prev repl = err assertion_error

-- MIPS_SETTINGS where no regular expression finds anything
abbrev mips_like : Arch
mips_like = record {
  arguments = lit "-drz" ∷ [];
  sp_ref_insns = lit "addiu" ∷ [];
  reloc_str = lit "R_MIPS_";
  branch_instructions = mips_branch_instructions;
  remove_comments = λ row. row;
  includes_sp = λ args. false;
  replace_ints = λ row. row;
  replace_sprel = λ row. row;
  process_x86_reloc = no_x86;
}

is_branch : member (lit "beq") mips_branch_instructions ≡ true
unfolding member text_eq
is_branch = refl

same_but_last :
    without_last (split_char 44 [] (lit "a0,a1,8"))
    ≡ without_last (split_char 44 [] (lit "a0,a1,40"))
unfolding without_last split_char
same_but_last = refl

abbrev dump : List Text
dump =
    lit "f.o:"
    ∷ lit "0:\t8c820000 \tlw\tv0,0(a0)"
    ∷ lit "0: R_MIPS_LO16\tx\tR_MIPS_LO16\tvar"
    ∷ lit "4:\t2402000c \tli\tv0,12"
    ∷ lit "8:\t00000000 \tnop"
    ∷ []

abbrev simplified : List Line
simplified =
    record { row = lit "lw\tv0,%lo(var)(a0)"; mnemonic = lit "lw"; has_symbol = true }
    ∷ record { row = lit "li\tv0,0xc"; mnemonic = lit "li"; has_symbol = false }
    ∷ []

dump-simplified : simplify_objdump mips_like true false dump ≡ ok simplified
unfolding simplify_objdump starts_with join text_eq
dump-simplified = refl

simplify_objdump-EndsInCode_example : (2 ≤ length dump - 1) × EndsInCode (reverse simplified)
simplify_objdump-EndsInCode_example =
    simplify_objdump-EndsInCode mips_like true false dump simplified dump-simplified
