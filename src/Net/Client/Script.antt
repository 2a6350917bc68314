-- ===== src/Net/Client/Script.antt =====
-- `_make_script_portable` of tools/decomp-permuter/src/net/client.py.
use ee_kernel.Base.{
  ℕ, ◌+◌, ◌-◌, ◌<◌, ◌≡◌, refl, sym, ap, ◌∙◌, inl, inr, arith, Bool, false, ◌||◌, Bool-cases, none,
  some, List, [], ◌∷◌, ◌++◌, append_assoc, append-nil, length, All, take, drop, Text, lit, join,
  newline, starts_with, split_char, Result, ok, err, ◌>>=◌, ◌==◌, ==_iff, if◌then◌else◌,
  assertion_error,
}
use ee_kernel.Helpers.{find, rfind_char}

-- re.match("cd '?/", line)
unfoldable pub enters_root : Text → Bool
enters_root line = starts_with line (lit "cd /") || starts_with line (lit "cd '/")

-- re.match("'?/", line)
unfoldable pub is_absolute : Text → Bool
is_absolute line = starts_with line (lit "/") || starts_with line (lit "'/")

-- The first word of an absolute line, quoted or not, is looked up by its last part.
unfoldable pub by_which : Text → Result Text
unfolding find rfind_char
by_which line =
    let quote = if starts_with line (lit "'") then lit "'" else [] in
    let ind : ℕ = elim (find (quote ++ lit " ") line) [
      | none ↦ length line
      | some i ↦ i + length quote
    ] in
    elim (rfind_char 47 line ind) [
      | none ↦ err assertion_error
      | some i ↦ ok (
          lit "$(which "
          ++ (quote ++ (take (ind - (i + 1)) (drop (i + 1) line) ++ (lit ")" ++ drop ind line))))
    ]

-- The lines that are kept
unfoldable pub portable_lines : List Text → Result (List Text)
unfolding enters_root is_absolute by_which
portable_lines [] = ok []
portable_lines (line ∷ lines) =
    let rest = portable_lines lines in
    if enters_root line
    then rest
    else if is_absolute line
    then (by_which line >>= λ l. rest >>= λ ls. ok (l ∷ ls))
    else rest >>= λ ls. ok (line ∷ ls)

-- _make_script_portable
unfoldable pub make_script_portable : Text → Result Text
unfolding portable_lines split_char join
make_script_portable source =
    portable_lines (split_char 10 [] source) >>= λ lines. ok (join newline lines)

-- A line with no absolute path at its beginning
abbrev pub IsPortable : Text → Type 0
IsPortable line = (enters_root line ≡ false) × (is_absolute line ≡ false)

portable_lines_same : (lines : List Text) → All IsPortable lines → portable_lines lines ≡ ok lines
unfolding portable_lines
portable_lines_same [] h = refl
portable_lines_same (line ∷ lines) h = rw (h.0.0, h.0.1) (rw (portable_lines_same lines h.1) refl)

join-cons :
    (line : Text) (lines : List Text)
    → 0 < length lines
    → join newline (line ∷ lines) ≡ line ++ (newline ++ join newline lines)
unfolding join
join-cons line [] h = absurd (omega arith)
join-cons line (l ∷ lines) h = refl

length-split_char : (c : ℕ) (current s : Text) → 0 < length (split_char c current s)
unfolding split_char
length-split_char c current [] = omega arith
length-split_char c current (d ∷ s) = elim (Bool-cases (d == c)) [
  | inl cut ↦ rw cut (omega arith)
  | inr on ↦ rw on (length-split_char c (current ++ d ∷ []) s)
]

join-split_char : (current s : Text) → join newline (split_char 10 current s) ≡ current ++ s
unfolding split_char
join-split_char current [] = unfold join in sym (append-nil current)
join-split_char current (d ∷ s) = elim (Bool-cases (d == 10)) [
  | inl cut ↦ rw cut (
      join-cons current (split_char 10 [] s) (length-split_char 10 [] s)
      ∙ ap (λ t. current ++ (newline ++ t)) (join-split_char [] s)
      ∙ ap (λ k. current ++ (k ∷ s)) (sym ((==_iff d 10).0 cut)))
  | inr on ↦ rw on (join-split_char (current ++ d ∷ []) s ∙ append_assoc current (d ∷ []) s)
]

-- A script none of whose lines begins with an absolute path, or enters one, stays as it is.
pub make_script_portable_same :
    (source : Text)
    → All IsPortable (split_char 10 [] source)
    → make_script_portable source ≡ ok source
unfolding make_script_portable
make_script_portable_same source h =
    rw (portable_lines_same (split_char 10 [] source) h) (ap ok (join-split_char [] source))
