-- ===== src/Objdump/Rows.antt =====
-- The rows that simplify_objdump of objdump.py returns.
use ee_kernel.Base.{
  suc, ◌+◌, ◌-◌, ◌≤◌, ◌≡◌, ◌≢◌, refl, sym, ap, subst, inl, inr, arith, Bool, true, Bool-cases,
  Option, none, some, List, [], ◌∷◌, ◌++◌, length, drop, Text, lit, text_eq, text_eq_iff,
  split_char, ok, ◌>>=◌, >>=-eq-ok,
}
use ee_kernel.Base.Outcome.{returns, raises, Outcome-bind, Outcome-imp, Outcome-ok}
use ee_kernel.Scorer.Fields.{Line, is_in}
use ee_kernel.Objdump.Texts.{replace, member}
use ee_kernel.Objdump.Reloc.{pre_process, process_reloc}
use ee_kernel.Objdump.Simplify.{
  Arch, without_last, simplify_row, relocate, add_row, simplify_loop, parse_row, next_line,
  drop_nops, simplify_objdump,
}
use mathlib.Core.List.{reverse, reverse_aux, reverse-reverse}
use ee_kernel.Objdump.Operand.{Gives, any_result}

-- Where branch targets are ignored, two branches with the same arguments but the last have the same
-- row.
pub simplify_row-ignores_target :
    (arch : Arch) (stack_differences : Bool) (mnemonic args args' : Text)
    → member mnemonic arch.branch_instructions ≡ true
    → without_last (split_char 44 [] args) ≡ without_last (split_char 44 [] args')
    → simplify_row arch stack_differences true mnemonic args
      ≡ simplify_row arch stack_differences true mnemonic args'
unfolding simplify_row
simplify_row-ignores_target arch stack_differences mnemonic args args' branch same =
    rw (branch, same) refl

length-drop_nops : (lines : List Line) → length (drop_nops lines) ≤ length lines
unfolding drop_nops
length-drop_nops [] = omega arith
length-drop_nops (line ∷ lines) = ground (arith, length-drop_nops lines)

-- No more lines than rows.
module _ (arch : Arch) (stack_differences ign_branch_targets : Bool) where
  relocate-length :
      (row : Text) (lines : List Line)
      → Gives (λ lines'. length lines' ≤ length lines) (relocate arch ign_branch_targets row lines)
  unfolding relocate
  relocate-length row [] = raises tt
  relocate-length row (last ∷ lines) =
      Outcome-bind
        (any_result (process_reloc arch.process_x86_reloc row last.row ign_branch_targets))
        λ m _. returns (by_row m)
    where
      by_row :
          (m : Option Text)
          → (let l : List Line = elim m [
            | none ↦ last ∷ lines
            | some [] ↦ last ∷ lines
            | some (c ∷ s) ↦ record last { row = c ∷ s; has_symbol = true } ∷ lines
          ] in
              length l ≤ suc (length lines))
      by_row none = omega arith
      by_row (some []) = omega arith
      by_row (some (c ∷ s)) = omega arith

  add_row-length :
      (mnemonic args : Text) (lines : List Line)
      → Gives
          (λ lines'. length lines' ≤ suc (length lines))
          (add_row arch stack_differences ign_branch_targets mnemonic args lines)
  unfolding add_row
  add_row-length mnemonic args lines = elim (Bool-cases (is_in arch.reloc_str row)) [
    | inl reloc ↦ rw reloc (Outcome-imp (λ l h. omega (arith, h)) (relocate-length row lines))
    | inr code ↦ rw code (
        Outcome-bind
          (any_result (simplify_row arch stack_differences ign_branch_targets mnemonic args))
          λ r _. returns (omega arith))
  ]
    where
      row : Text
      row = mnemonic ++ (9 ∷ replace (9 ∷ []) (lit "  ") args)

  simplify_loop-length :
      (rows : List Text) (lines : List Line)
      → Gives
          (λ lines'. length lines' ≤ length rows + length lines)
          (simplify_loop arch stack_differences ign_branch_targets rows lines)
  unfolding simplify_loop
  simplify_loop-length [] lines = returns (omega arith)
  simplify_loop-length (row ∷ rows) lines = by_row (parse_row arch row) (simplify_loop-length rows)
    where
      by_row :
          (parsed : Option (Text × Text))
          → ((lines' : List Line)
              → Gives
                  (λ lines''. length lines'' ≤ length rows + length lines')
                  (simplify_loop arch stack_differences ign_branch_targets rows lines'))
          → Gives
              (λ lines'. length lines' ≤ suc (length rows) + length lines)
              (elim parsed [
                | none ↦ simplify_loop arch stack_differences ign_branch_targets rows lines
                | some (mnemonic, args) ↦
                    pre_process mnemonic args (next_line rows) >>= λ (mnemonic', args').
                    add_row arch stack_differences ign_branch_targets mnemonic' args' lines
                    >>= λ lines'.
                        simplify_loop arch stack_differences ign_branch_targets rows lines'
              ])
      by_row none later = Outcome-imp (λ l h. omega (arith, h)) (later lines)
      by_row (some (mnemonic, args)) later =
          Outcome-bind (any_result (pre_process mnemonic args (next_line rows))) λ (m, a) _.
            Outcome-bind (add_row-length m a lines)
              λ lines' few. Outcome-imp (λ l h. omega (arith, h, few)) (later lines')

-- The first line of these, the last one of the output, is no nop.
abbrev pub EndsInCode : List Line → Type 0
EndsInCode [] = Unit
EndsInCode (line ∷ lines) = line.mnemonic ≢ lit "nop"

drop_nops-EndsInCode : (lines : List Line) → EndsInCode (drop_nops lines)
unfolding drop_nops
drop_nops-EndsInCode [] = tt
drop_nops-EndsInCode (line ∷ lines) = elim (Bool-cases (text_eq line.mnemonic (lit "nop"))) [
  | inl nop ↦ rw nop (drop_nops-EndsInCode lines)
  | inr code ↦ rw code (λ e. cc (code, (text_eq_iff line.mnemonic (lit "nop")).1 e))
]

length-reverse_aux : (l r : List Line) → length (reverse_aux l r) ≡ length l + length r
length-reverse_aux [] r = omega arith
length-reverse_aux (x ∷ l) r = omega (arith, length-reverse_aux l (x ∷ r))

length-drop_one : (rows : List Text) → length (drop 1 rows) ≡ length rows - 1
length-drop_one [] = omega arith
length-drop_one (row ∷ rows) = omega arith

-- What simplify_objdump returns has no more lines than the input behind its first one, and does not
-- end in a nop.
pub simplify_objdump-EndsInCode :
    (arch : Arch) (stack_differences ign_branch_targets : Bool) (input_lines : List Text)
    (lines : List Line)
    → simplify_objdump arch stack_differences ign_branch_targets input_lines ≡ ok lines
    → (length lines ≤ length input_lines - 1) × EndsInCode (reverse lines)
unfolding simplify_objdump
simplify_objdump-EndsInCode arch stack_differences ign_branch_targets input_lines lines e =
    let (found, e1, e2) =
      >>=-eq-ok (simplify_loop arch stack_differences ign_branch_targets (drop 1 input_lines) []) _
        e in
    let same : reverse (drop_nops found) ≡ lines = cc e2 in
    let few =
      Outcome-ok
        (simplify_loop-length arch stack_differences ign_branch_targets (drop 1 input_lines) [])
        e1 in
    (
      omega (
        arith,
        few,
        length-drop_nops found,
        length-reverse_aux (drop_nops found) [],
        ap length same,
        length-drop_one input_lines,
      ),
      subst (λ l. EndsInCode (reverse l)) same
          (subst EndsInCode (sym (reverse-reverse (drop_nops found))) (drop_nops-EndsInCode found)),
    )
