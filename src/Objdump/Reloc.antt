-- ===== src/Objdump/Reloc.antt =====
-- Relocations in objdump.py: the operand that a relocation changes, and what is put there.
use ee_kernel.Base.{
  Bool, false, not, ◌||◌, Option, none, some, List, [], ◌∷◌, ◌++◌, Text, lit, text_eq, split_char,
  Result, ok, err, ◌>>=◌, ltb, if◌then◌else◌, exception, index_error, assertion_error,
}
use ee_kernel.Scorer.Fields.{is_in}
use ee_kernel.Objdump.Texts.{
  cut_last, cut_first, replace, member, last_word, is_positive, hex_value,
}

-- What stands before the last comma, or tab, or space, with it, and what stands behind.
unfoldable pub cut_operand : Text → Option (Text × Text)
unfolding cut_last
cut_operand line = elim (cut_last 44 line) [
  | some parts ↦ some parts
  | none ↦ elim (cut_last 9 line) [ some parts ↦ some parts | none ↦ cut_last 32 line ]
]

-- parse_relocated_line
unfoldable pub parse_relocated_line : Text → Result (Text × Text × Text)
unfolding cut_operand cut_first
parse_relocated_line line = elim (cut_operand line) [
  | none ↦ err exception
  | some (before, rest) ↦
      let (imm, after) = cut_first 40 rest in
      ok (before, (if text_eq imm (lit "0x0") then lit "0" else imm), after)
]

-- args_parts[0] + ",0," + args_parts[1]
unfoldable pub with_zero : List Text → Result Text
with_zero [] = err index_error
with_zero (first ∷ []) = err index_error
with_zero (first ∷ second ∷ parts) = ok (first ++ (lit ",0," ++ second))

-- pre_process
unfoldable pub pre_process : Text → Text → Option Text → Result (Text × Text)
unfolding replace member split_char with_zero is_in
pre_process mnemonic args none = ok (mnemonic, args)
pre_process mnemonic args (some next_row) =
    let args' = replace (lit ",r13,") (lit ",0,") (
      replace (lit ",r2,") (lit ",0,")
        (replace (lit "(r13)") (lit "(0)") (replace (lit "(r2)") (lit "(0)") args))) in
    if is_in (lit "R_PPC_EMB_SDA21") next_row
    then (if member mnemonic (lit "li" ∷ lit "lis" ∷ [])
        then (with_zero (split_char 44 [] args') >>= λ args''.
            ok (replace (lit "li") (lit "addi") mnemonic, args''))
        else ok (mnemonic, args'))
    else ok (mnemonic, args)

-- any(r in reloc_row for r in relocs)
unfoldable pub mentions : Text → List Text → Bool
unfolding is_in
mentions reloc_row [] = false
mentions reloc_row (r ∷ relocs) = is_in r reloc_row || mentions reloc_row relocs

-- The symbol with what is added to it.
unfoldable pub with_addend : Text → Text → Result Text
unfolding member is_positive
with_addend repl imm =
    if member imm (lit "0" ∷ lit "imm" ∷ lit "addr" ∷ [])
    then ok repl
    else is_positive imm >>= λ positive. ok (repl ++ (if positive then lit "+" ++ imm else imm))

abbrev wrapped : Text → Text → Text
wrapped head repl = head ++ (lit "(" ++ (repl ++ lit ")"))

unfoldable pub mips_operand : Text → Text → Result Text
unfolding mentions
mips_operand reloc_row repl =
    if mentions reloc_row (lit "R_MIPS_LO16" ∷ lit "R_MIPS_LITERAL" ∷ lit "R_MIPS_GPREL16" ∷ [])
    then ok (wrapped (lit "%lo") repl)
    else if is_in (lit "R_MIPS_GOT16") reloc_row
    then ok (wrapped (lit "%got") repl)
    else if is_in (lit "R_MIPS_CALL16") reloc_row
    then ok (wrapped (lit "%call16") repl)
    else if is_in (lit "R_MIPS_HI16") reloc_row
    then ok (wrapped (lit "%hi") repl)
    else if is_in (lit "R_MIPS_26") reloc_row
    then ok repl
    else err assertion_error

-- process_mips_reloc
unfoldable pub process_mips_reloc : Text → Text → Text → Result Text
unfolding mentions with_addend mips_operand
process_mips_reloc reloc_row repl imm =
    if mentions reloc_row (lit "R_MIPS_JALR" ∷ lit "R_MIPS_NONE" ∷ [])
    then ok repl
    else with_addend repl imm >>= mips_operand reloc_row

-- repl.split("+"), where a large addend is dropped
unfoldable pub drop_addend : Text → List Text → Result Text
unfolding hex_value
drop_addend repl [] = err index_error
drop_addend repl (symbol ∷ []) = err index_error
drop_addend repl (symbol ∷ addend ∷ parts) =
    hex_value addend >>= λ n. ok (if ltb 0x70000000 n then symbol else repl)

-- process_ppc_reloc
unfoldable pub process_ppc_reloc : Text → Text → Result Text
unfolding mentions is_in drop_addend split_char
process_ppc_reloc reloc_row repl =
    if not
      (mentions reloc_row (lit "R_PPC_REL24" ∷ lit "R_PPC_ADDR16" ∷ lit "R_PPC_EMB_SDA21" ∷ []))
    then err assertion_error
    else if is_in (lit "R_PPC_REL24") reloc_row
    then ok repl
    else if is_in (lit "R_PPC_ADDR16_HI") reloc_row
    then ok (repl ++ lit "@h")
    else if is_in (lit "R_PPC_ADDR16_HA") reloc_row
    then ok (repl ++ lit "@ha")
    else if is_in (lit "R_PPC_ADDR16_LO") reloc_row
    then ok (repl ++ lit "@l")
    else if is_in (lit "R_PPC_ADDR16") reloc_row
    then (if is_in (lit "+0x7") repl then drop_addend repl (split_char 43 [] repl) else ok repl)
    else if is_in (lit "R_PPC_EMB_SDA21") reloc_row
    then ok (repl ++ lit "@sda21")
    else ok repl

-- process_arm32_reloc
unfoldable pub process_arm32_reloc : Text → Text → Result Text
unfolding mentions
process_arm32_reloc reloc_row repl =
    if mentions reloc_row (lit "R_ARM_THM_CALL" ∷ lit "R_ARM_CALL" ∷ lit "R_ARM_ABS32" ∷ [])
    then ok repl
    else err assertion_error

unfoldable pub new_repl :
    (Text → Text → Text → Result Text) → Text → Text → Text → Text → Result Text
unfolding process_mips_reloc process_ppc_reloc process_arm32_reloc is_in
new_repl process_x86_reloc reloc_row prev repl imm =
    if is_in (lit "R_MIPS_") reloc_row
    then process_mips_reloc reloc_row repl imm
    else if is_in (lit "R_PPC_") reloc_row
    then process_ppc_reloc reloc_row repl
    else if is_in (lit "R_ARM_") reloc_row
    then process_arm32_reloc reloc_row repl
    else if is_in (lit "R_386_") reloc_row
    then process_x86_reloc reloc_row prev repl
    else err exception

unfoldable pub place_reloc :
    (Text → Text → Text → Result Text)
    → Text
    → Text
    → Bool
    → Text × Text × Text
    → Result (Option Text)
unfolding new_repl last_word
place_reloc process_x86_reloc reloc_row prev ign_branch_targets (before, imm, after) =
    last_word reloc_row >>= λ repl.
    if text_eq imm (lit "<target>")
    then (if ign_branch_targets then ok none else err assertion_error)
    else new_repl process_x86_reloc reloc_row prev repl imm >>= λ replaced.
        ok (some (before ++ (replaced ++ after)))

-- process_reloc; process_x86_reloc is a parameter
unfoldable pub process_reloc :
    (Text → Text → Text → Result Text) → Text → Text → Bool → Result (Option Text)
unfolding parse_relocated_line place_reloc
process_reloc process_x86_reloc reloc_row prev ign_branch_targets =
    if text_eq prev (lit "<skipped>")
    then ok none
    else parse_relocated_line prev
      >>= place_reloc process_x86_reloc reloc_row prev ign_branch_targets
