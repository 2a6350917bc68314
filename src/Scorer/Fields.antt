-- ===== src/Scorer/Fields.antt =====
-- How the scorer takes an instruction row apart into fields, and the test for symbols.
use ee_kernel.Base.{
  ℕ, Bool, true, false, not, ◌&&◌, ◌||◌, Text, lit, lstrip, is_space, split_char, starts_with,
  text_eq, any, List, [], ◌∷◌, ◌++◌, Option, none, some, ◌==◌, leb, if◌then◌else◌,
}
use ee_kernel.Base.Int.{ℤ}

-- Line of objdump.py
pub record Line : Type 0 where
  pub row : Text
  pub mnemonic : Text
  pub has_symbol : Bool

-- What the scorer reads of ArchSettings. `re_sprel` is the search for a stack offset in a row and
-- the integer that it finds.
pub record ArchSettings : Type 0 where
  pub name : Text
  pub re_sprel : Text → Option ℤ
  pub branch_instructions : List Text
  pub branch_likely_instructions : List Text

-- part in whole
unfoldable pub is_in : Text → Text → Bool
is_in part [] = starts_with [] part
is_in part (c ∷ s) = starts_with (c ∷ s) part || is_in part s

-- The text up to the last "@" and the text behind it; none without one.
rsplit_at : Text → Option (Text × Text)
rsplit_at [] = none
rsplit_at (c ∷ s) = elim (rsplit_at s) [
  | some (before, after) ↦ some (c ∷ before, after)
  | none ↦ if c == b'@' then some ([], s) else none
]

-- parts[0] if the last part is one of the four relocation suffixes
drop_suffix : Text → Text
unfolding rsplit_at
drop_suffix field = elim (rsplit_at field) [
  | none ↦ field
  | some (before, after) ↦
      if any (text_eq after) (lit "l" ∷ lit "h" ∷ lit "ha" ∷ lit "sda21" ∷ [])
      then before
      else field
]

is_digit : ℕ → Bool
is_digit c = leb 48 c && leb c 57

all_digits : Text → Bool
unfolding is_digit
all_digits [] = true
all_digits (c ∷ s) = is_digit c && all_digits s

-- re.fullmatch(r"^@\d+$", field), for ASCII digits
is_numbered : Text → Bool
unfolding all_digits is_digit
is_numbered (a ∷ d ∷ s) = a == b'@' && is_digit d && all_digits s
is_numbered field = false

unfoldable pub field_matches_any_symbol : Text → ArchSettings → Bool
unfolding is_in drop_suffix is_numbered
field_matches_any_symbol field arch =
    if text_eq arch.name (lit "ppc")
    then (is_in (lit "...") field || is_numbered (drop_suffix field))
    else if text_eq arch.name (lit "mips")
    then is_in (lit ".") field
    else if text_eq arch.name (lit "arm32")
    then is_in (lit ".") field
    else false

-- The text behind the first word and the space after it, empty without a second word:
-- row.split(None, 1)[1]
behind_word : Text → Text
behind_word [] = []
behind_word (c ∷ s) = let further = behind_word s in if is_space c then lstrip s else further

fields_of : Text → List Text
fields_of [] = []
fields_of (c ∷ s) = split_char b',' [] (c ∷ s)

unfoldable pub row_fields : Text → List Text
unfolding behind_word fields_of
row_fields row = fields_of (behind_word (lstrip row))

-- fields[:-1]
unfoldable pub init {ℓ} : {A : Type ℓ} → List A → List A
init [] = []
init (x ∷ []) = []
init (x ∷ y ∷ rest) = x ∷ init (y ∷ rest)

ends_with_reloc : Text → Bool
ends_with_reloc (o ∷ l ∷ p ∷ rest) =
    p == b'%' && ((l == b'h' && o == b'i') || (l == b'l' && o == b'o'))
ends_with_reloc _ = false

-- re_paren.split: cut at each "(" that no %hi or %lo stands before. `seen` is what is before in
-- the field, backwards, and `current` the piece so far.
split_paren : Text → Text → Text → List Text
unfolding ends_with_reloc
split_paren seen current [] = current ∷ []
split_paren seen current (c ∷ s) =
    let cut = current ∷ split_paren (c ∷ seen) [] s in
    let go_on = split_paren (c ∷ seen) (current ++ c ∷ []) s in
    if c == b'(' && not (ends_with_reloc seen) then cut else go_on

-- fields[:-1] + re_paren.split(fields[-1])
unfoldable pub split_last : List Text → List Text
unfolding split_paren
split_last [] = []
split_last (x ∷ []) = split_paren [] [] x
split_last (x ∷ y ∷ rest) = x ∷ split_last (y ∷ rest)

-- parts[-1]
last_of : List Text → Text
last_of [] = []
last_of (x ∷ []) = x
last_of (x ∷ y ∷ rest) = last_of (y ∷ rest)

-- row.split(",")[-1]
unfoldable pub last_field : Text → Text
unfolding last_of
last_field row = last_of (split_char b',' [] row)
