-- ===== src/Perm/Split.antt =====
-- The text scans of perm/parse.py: `_split_by_comma`, `_consume_arg_parens`, the search for a
-- macro's name, and `int`.
pub mod Levels
pub mod Args
pub mod Pieces
pub mod Join
pub mod Search
use ee_kernel.Base.{
  any, ℕ, zero, suc, ◌+◌, ◌-◌, ◌*◌, Bool, true, false, ◌&&◌, Text, lit, strip, starts_with, drop,
  List, [], ◌∷◌, ◌++◌, Option, none, some, Result, ok, err, ◌>>=◌, assertion_error, exception,
  value_error, ◌==◌, leb, if◌then◌else◌,
}
use ee_kernel.Base.Int.{ℤ, pos, negsuc}

-- What the scans make of a character.
pub data Bracket : Type 0 where
  open_paren close_paren comma plain : Bracket

unfoldable pub bracket : ℕ → Bracket
bracket c =
    if c == b'('
    then open_paren
    else if c == b')'
    then close_paren
    else if c == b','
    then comma
    else plain

-- The loop of _split_by_comma with its variables `level` and `current`; the list is what is
-- appended to `args` from here on.
unfoldable pub split_loop : Text → ℕ → Text → Result (List Text)
split_loop [] zero current = ok (current ∷ [])
split_loop [] (suc level) current = err assertion_error
split_loop (c ∷ s) zero current = elim (bracket c) [
  | comma ↦ split_loop s 0 [] >>= λ args. ok (current ∷ args)
  | open_paren ↦ split_loop s 1 (current ++ c ∷ [])
  | close_paren ↦ err assertion_error
  | plain ↦ split_loop s 0 (current ++ c ∷ [])
]
split_loop (c ∷ s) (suc level) current = elim (bracket c) [
  | open_paren ↦ split_loop s (suc (suc level)) (current ++ c ∷ [])
  | close_paren ↦ split_loop s level (current ++ c ∷ [])
  | _ ↦ split_loop s (suc level) (current ++ c ∷ [])
]

-- _split_by_comma
unfoldable pub split_by_comma : Text → Result (List Text)
unfolding split_loop
split_by_comma text = split_loop text 0 []

-- The loop of _consume_arg_parens: the text up to the parenthesis that closes level 0, and the
-- text behind it.
unfoldable pub consume_loop : Text → ℕ → Result (Text × Text)
consume_loop [] level = err exception
consume_loop (c ∷ s) level = elim (bracket c) [
  | open_paren ↦ consume_loop s (suc level) >>= λ (args, rest). ok (c ∷ args, rest)
  | close_paren ↦ elim level [
    | zero ↦ ok ([], s)
    | suc outer ↦ consume_loop s outer >>= λ (args, rest). ok (c ∷ args, rest)
  ]
  | _ ↦ consume_loop s level >>= λ (args, rest). ok (c ∷ args, rest)
]

-- _consume_arg_parens
unfoldable pub consume_arg_parens : Text → Result (Text × Text)
unfolding consume_loop
consume_arg_parens text = consume_loop text 0

-- `.+?\(` behind its first character: the name up to the next parenthesis on the line.
unfoldable pub lazy_name : Text → Option (Text × Text)
lazy_name [] = none
lazy_name (c ∷ s) =
    let longer : Option (Text × Text) = elim (lazy_name s) [
      | none ↦ none
      | some (name, rest) ↦ some (c ∷ name, rest)
    ] in
    if c == b'(' then some ([], s) else if c == 10 then none else longer

-- `.+?\(`: the first character may be any but a newline, a parenthesis too.
unfoldable pub match_name : Text → Option (Text × Text)
unfolding lazy_name
match_name [] = none
match_name (c ∷ s) =
    let longer : Option (Text × Text) = elim (lazy_name s) [
      | none ↦ none
      | some (name, rest) ↦ some (c ∷ name, rest)
    ] in
    if c == 10 then none else longer

unfoldable pub with_prefix : Option (Text × Text) → Option (Text × Text)
with_prefix none = none
with_prefix (some (name, rest)) = some (lit "PERM_" ++ name, rest)

-- A match of (PERM_.+?)\( at the start of the text: the group, and the text behind the match.
unfoldable pub match_here : Text → Option (Text × Text)
unfolding match_name with_prefix
match_here text =
    if starts_with text (lit "PERM_") then with_prefix (match_name (drop 5 text)) else none

-- The three parts of a text with a match: before it, the macro's name, and behind it.
pub record Found : Type 0 where
  pub between : Text
  pub perm_type : Text
  pub behind : Text

-- A match at this character comes before one further on.
unfoldable pub leftmost : Option (Text × Text) → ℕ → Option Found → Option Found
leftmost (some (name, rest)) c later =
    some (record { between = []; perm_type = name; behind = rest })
leftmost none c none = none
leftmost none c (some found) = some (record found { between = c ∷ found.between })

-- re.search(macro_search, text)
unfoldable pub macro_search : Text → Option Found
unfolding match_here leftmost
macro_search [] = none
macro_search (c ∷ s) = leftmost (match_here (c ∷ s)) c (macro_search s)

-- The digits of int(text), a single underscore between two of them; `pending` says that an
-- underscore, or the start, waits for its digit. Digits outside ASCII are not read.
unfoldable pub int_digits : Text → Bool → ℕ → Result ℕ
int_digits [] pending n = if pending then err value_error else ok n
int_digits (c ∷ s) pending n =
    let digit = int_digits s false (n * 10 + (c - 48)) in
    let underscore = int_digits s true n in
    if leb 48 c && leb c 57
    then digit
    else if c == b'_' && (if pending then false else true)
    then underscore
    else err value_error

negate : ℕ → ℤ
negate zero = pos 0
negate (suc n) = negsuc n

-- int of a text with no space around it
unfoldable pub signed_int : Text → Result ℤ
unfolding int_digits negate
signed_int [] = err value_error
signed_int (c ∷ s) =
    if c == b'-'
    then (int_digits s true 0 >>= λ n. ok (negate n))
    else if c == b'+'
    then (int_digits s true 0 >>= λ n. ok (pos n))
    else (int_digits (c ∷ s) true 0 >>= λ n. ok (pos n))

-- int(text): of the spaces of str.strip, those from 0x1c to 0x1f are not allowed.
unfoldable pub parse_int : Text → Result ℤ
unfolding signed_int
parse_int text =
    if any (λ c. leb 0x1c c && leb c 0x1f) text then err value_error else signed_int (strip text)
