-- ===== src/Objdump/Simplify.antt =====
-- simplify_objdump of objdump.py. Its regular expressions for comments, stack offsets and numbers are
-- fields of the architecture; `ign_regs` and `skip_bl_delay_slots` are False in the source.
use ee_kernel.Base.{
  ℕ, zero, suc, ◌+◌, ◌-◌, ◌*◌, Bool, true, false, not, ◌&&◌, ◌||◌, Option, none, some, List, [],
  ◌∷◌, ◌++◌, length, drop, Text, lit, text_eq, join, split_char, strip, rstrip, Result, ok, err,
  ◌>>=◌, ltb, leb, ◌==◌, if◌then◌else◌, exception, index_error, value_error,
}
use ee_kernel.Base.Int.{ℤ, pos, negsuc}
use ee_kernel.Scorer.Fields.{Line, is_in}
use ee_kernel.Objdump.Texts.{cut_first, replace, member, digits_value, hex}
use ee_kernel.Objdump.Reloc.{pre_process, process_reloc}
use mathlib.Core.List.{reverse}

pub record Arch : Type 0 where
  pub arguments : List Text
  pub sp_ref_insns : List Text
  pub reloc_str : Text
  pub branch_instructions : List Text
  -- re.sub(arch.re_comment, "", row)
  pub remove_comments : Text → Text
  -- arch.re_includes_sp.search(args)
  pub includes_sp : Text → Bool
  -- re.sub(re_int_full, "imm", row)
  pub replace_ints : Text → Text
  -- re.sub(arch.re_sprel, "addr(sp)", row)
  pub replace_sprel : Text → Text
  pub process_x86_reloc : Text → Text → Text → Result Text

-- c in arch.forbidden: an ASCII letter or "_"
unfoldable pub forbidden : Option ℕ → Bool
forbidden none = false
forbidden (some c) = (leb 97 c && leb c 122) || (leb 65 c && leb c 90) || c == 95

abbrev is_digit : ℕ → Bool
is_digit c = leb 48 c && leb c 57

-- [0-9]* at the beginning
unfoldable pub digits : Text → Text × Text
digits [] = ([], [])
digits (c ∷ s) = let (ds, rest) = digits s in if is_digit c then (c ∷ ds, rest) else ([], c ∷ s)

-- [0-9]+ at the beginning
unfoldable pub some_digits : Text → Option (Text × Text)
unfolding digits
some_digits s = let (ds, rest) = digits s in if ltb 0 (length ds) then some (ds, rest) else none

-- re_int at the beginning
unfoldable pub match_int : Text → Option (Text × Text)
unfolding some_digits
match_int [] = none
match_int (c ∷ s) =
    if c == 45
    then elim (some_digits s) [ none ↦ none | some (ds, rest) ↦ some (c ∷ ds, rest) ]
    else some_digits (c ∷ s)

-- int(full) for a match of re_int
unfoldable pub int_of : Text → Result ℤ
unfolding digits_value
int_of [] = err value_error
int_of (c ∷ s) =
    if c == 45
    then (digits_value 10 0 s >>= λ n. ok (if n == 0 then pos 0 else negsuc (n - 1)))
    else digits_value 10 0 (c ∷ s) >>= λ n. ok (pos n)

abbrev head : Text → Option ℕ
head [] = none
head (c ∷ s) = some c

-- fn of the source: a number on its own becomes hexadecimal.
unfoldable pub int_to_hex : Option ℕ → Text → Option ℕ → Result Text
unfolding int_of hex forbidden
int_to_hex before full after =
    if leb (length full) 1 || (forbidden before || forbidden after)
    then ok full
    else int_of full >>= λ i. ok (hex i)

-- re.sub(re_int, fn, row); every round takes a character at least
unfoldable pub sub_ints : ℕ → Option ℕ → Text → Result Text
unfolding match_int int_to_hex
sub_ints zero before s = ok s
sub_ints (suc rounds) before [] = ok []
sub_ints (suc rounds) before (c ∷ s) = elim (match_int (c ∷ s)) [
  | none ↦ sub_ints rounds (some c) s >>= λ t. ok (c ∷ t)
  | some (full, rest) ↦ int_to_hex before full (head rest) >>= λ h.
      sub_ints rounds (head (reverse full)) rest >>= λ t. ok (h ++ t)
]

-- The mnemonic and the arguments of a row that is an instruction or a relocation.
unfoldable pub parse_row : Arch → Text → Option (Text × Text)
unfolding split_char cut_first member is_in strip rstrip
parse_row arch line =
    let stripped = rstrip line in
    let tabs = split_char 9 [] (rstrip (arch.remove_comments stripped)) in
    let row =
      join (9 ∷ [])
        (drop (if member (lit "--no-show-raw-insn") arch.arguments then 1 else 2) tabs) in
    let (mnemonic, rest) = if is_in (9 ∷ []) row then cut_first 9 row else cut_first 32 row in
    if is_in (lit ">:") stripped || (length stripped == 0 || length row == 0)
    then none
    else some (strip mnemonic, strip (drop 1 rest))

-- instr_parts[-1] = "<target>"
unfoldable pub without_last : List Text → List Text
without_last [] = []
without_last (p ∷ []) = []
without_last (p ∷ q ∷ ps) = p ∷ without_last (q ∷ ps)

-- The row of an instruction.
unfoldable pub simplify_row : Arch → Bool → Bool → Text → Text → Result Text
unfolding replace member without_last split_char sub_ints
simplify_row arch stack_differences ign_branch_targets mnemonic args =
    let row = mnemonic ++ (9 ∷ replace (9 ∷ []) (lit "  ") args) in
    let row' =
      if not stack_differences && (member mnemonic arch.sp_ref_insns && arch.includes_sp args)
      then arch.replace_ints row
      else row in
    (if member mnemonic arch.branch_instructions
      then ok (
          if ign_branch_targets
          then mnemonic
            ++ (9 ∷ join (lit ",") (without_last (split_char 44 [] args) ++ lit "<target>" ∷ []))
          else row')
      else sub_ints (length row') none row')
    >>= λ row''. ok (if stack_differences then row'' else arch.replace_sprel row'')

-- A relocation changes the line before it; the lines are held with the last one first.
unfoldable pub relocate : Arch → Bool → Text → List Line → Result (List Line)
unfolding process_reloc
relocate arch ign_branch_targets row [] = err index_error
relocate arch ign_branch_targets row (last ∷ lines) =
    process_reloc arch.process_x86_reloc row last.row ign_branch_targets >>= λ modified.
    ok (elim modified [
      | none ↦ last ∷ lines
      | some [] ↦ last ∷ lines
      | some (c ∷ s) ↦ record last { row = c ∷ s; has_symbol = true } ∷ lines
    ])

unfoldable pub add_row : Arch → Bool → Bool → Text → Text → List Line → Result (List Line)
unfolding is_in relocate simplify_row replace
add_row arch stack_differences ign_branch_targets mnemonic args lines =
    let row = mnemonic ++ (9 ∷ replace (9 ∷ []) (lit "  ") args) in
    if is_in arch.reloc_str row
    then relocate arch ign_branch_targets row lines
    else simplify_row arch stack_differences ign_branch_targets mnemonic args >>= λ row'.
        ok (record { row = row'; mnemonic = mnemonic; has_symbol = false } ∷ lines)

abbrev pub next_line : List Text → Option Text
next_line [] = none
next_line (row ∷ rows) = some row

-- The loop over the input, behind its first line
unfoldable pub simplify_loop : Arch → Bool → Bool → List Text → List Line → Result (List Line)
unfolding parse_row pre_process add_row
simplify_loop arch stack_differences ign_branch_targets [] lines = ok lines
simplify_loop arch stack_differences ign_branch_targets (row ∷ rows) lines =
    elim (parse_row arch row) [
      | none ↦ simplify_loop arch stack_differences ign_branch_targets rows lines
      | some (mnemonic, args) ↦ pre_process mnemonic args (next_line rows) >>= λ (mnemonic', args').
          add_row arch stack_differences ign_branch_targets mnemonic' args' lines >>= λ lines'.
          simplify_loop arch stack_differences ign_branch_targets rows lines'
    ]

-- Trailing nops are removed.
unfoldable pub drop_nops : List Line → List Line
drop_nops [] = []
drop_nops (line ∷ lines) =
    let rest = drop_nops lines in if text_eq line.mnemonic (lit "nop") then rest else line ∷ lines

-- simplify_objdump
unfoldable pub simplify_objdump : Arch → Bool → Bool → List Text → Result (List Line)
unfolding simplify_loop drop_nops
simplify_objdump arch stack_differences ign_branch_targets input_lines =
    simplify_loop arch stack_differences ign_branch_targets (drop 1 input_lines) [] >>= λ lines.
    ok (reverse (drop_nops lines))

-- get_arch: the machine that 20 bytes of an ELF header name
pub data Machine : Type 0 where
  mips ppc arm32 x86 : Machine

abbrev get_byte : List ℕ → ℕ
get_byte [] = 0
get_byte (b ∷ bytes) = b

unfoldable pub get_arch : List ℕ → Result Machine
get_arch header = elim (drop 18 header) [
  | hi ∷ lo ∷ rest ↦
      (let arch = if get_byte (drop 5 header) == 2 then hi * 256 + lo else lo * 256 + hi in
        if arch == 3
        then ok x86
        else if arch == 8
        then ok mips
        else if arch == 20
        then ok ppc
        else if arch == 40
        then ok arm32
        else err exception)
  | _ ↦ err index_error
]
