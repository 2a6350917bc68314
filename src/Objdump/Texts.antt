-- ===== src/Objdump/Texts.antt =====
-- The methods of Python's `str` and the conversions of numbers that objdump.py uses.
use ee_kernel.Base.{
  ℕ, zero, suc, ◌+◌, ◌-◌, ◌*◌, ◌/◌, ◌%◌, Bool, false, ◌&&◌, ◌||◌, Option, none, some, List, [], ◌∷◌,
  ◌++◌, length, drop, Text, lit, text_eq, starts_with, rstrip, is_space, Result, ok, err, ◌>>=◌,
  ltb, leb, ◌==◌, if◌then◌else◌, index_error, value_error,
}
use ee_kernel.Base.Int.{ℤ, pos, negsuc}
use mathlib.Core.List.{reverse}

-- s.rindex(c), as what stands before the index and up to it, and what stands behind
unfoldable pub cut_last : ℕ → Text → Option (Text × Text)
cut_last c [] = none
cut_last c (d ∷ s) = elim (cut_last c s) [
  | some (before, after) ↦ some (d ∷ before, after)
  | none ↦ if c == d then some (d ∷ [], s) else none
]

-- s.find(c), as what stands before it and from it on; everything stands before a missing one
unfoldable pub cut_first : ℕ → Text → Text × Text
cut_first c [] = ([], [])
cut_first c (d ∷ s) =
    let (before, after) = cut_first c s in if c == d then ([], d ∷ s) else (d ∷ before, after)

-- s.replace(old, new) for a part that is not empty; every round takes a character at least
unfoldable pub replace_loop : ℕ → Text → Text → Text → Text
replace_loop zero old new s = s
replace_loop (suc rounds) old new [] = []
replace_loop (suc rounds) old new (c ∷ s) =
    let found = new ++ replace_loop rounds old new (drop (length old) (c ∷ s)) in
    let on = c ∷ replace_loop rounds old new s in if starts_with (c ∷ s) old then found else on

unfoldable pub replace : Text → Text → Text → Text
unfolding replace_loop
replace old new s = replace_loop (length s) old new s

-- t in texts
unfoldable pub member : Text → List Text → Bool
member t [] = false
member t (u ∷ us) = text_eq t u || member t us

-- The characters before the first one that is a space.
unfoldable pub first_word : Text → Text
first_word [] = []
first_word (c ∷ s) = let rest = first_word s in if is_space c then [] else c ∷ rest

-- s.split()[-1]
unfoldable pub last_word : Text → Result Text
unfolding first_word rstrip
last_word s = elim (reverse (first_word (reverse (rstrip s)))) [
  | [] ↦ err index_error
  | c ∷ w ↦ ok (c ∷ w)
]

-- The value of a digit, in bases up to 16
unfoldable pub digit_value : ℕ → Option ℕ
digit_value c =
    if leb 48 c && leb c 57
    then some (c - 48)
    else if leb 97 c && leb c 102
    then some (c - 87)
    else if leb 65 c && leb c 70
    then some (c - 55)
    else none

unfoldable pub digits_value : ℕ → ℕ → Text → Result ℕ
unfolding digit_value
digits_value base acc [] = ok acc
digits_value base acc (c ∷ s) =
    let next : ℕ → Result ℕ = λ d. digits_value base (acc * base + d) s in
    elim (digit_value c) [
      | none ↦ err value_error
      | some d ↦ if ltb d base then next d else err value_error
    ]

-- A number in a base, with a digit at least
unfoldable pub number : ℕ → Text → Result ℕ
unfolding digits_value
number base [] = err value_error
number base (c ∷ s) = digits_value base 0 (c ∷ s)

-- int(s, 0) without a sign: the prefix tells the base, and a decimal number other than 0 does not
-- begin with 0.
unfoldable pub prefixed : Text → Result ℕ
unfolding number
prefixed s =
    if starts_with s (lit "0x") || starts_with s (lit "0X")
    then number 16 (drop 2 s)
    else if starts_with s (lit "0o") || starts_with s (lit "0O")
    then number 8 (drop 2 s)
    else if starts_with s (lit "0b") || starts_with s (lit "0B")
    then number 2 (drop 2 s)
    else if starts_with s (lit "0")
    then (number 10 s >>= λ n. if n == 0 then ok 0 else err value_error)
    else number 10 s

-- int(s, 0) > 0
unfoldable pub is_positive : Text → Result Bool
unfolding prefixed
is_positive s =
    if starts_with s (lit "-")
    then (prefixed (drop 1 s) >>= λ n. ok false)
    else if starts_with s (lit "+")
    then (prefixed (drop 1 s) >>= λ n. ok (ltb 0 n))
    else prefixed s >>= λ n. ok (ltb 0 n)

-- int(s, 16) for a text with no sign
unfoldable pub hex_value : Text → Result ℕ
unfolding number
hex_value s =
    if starts_with s (lit "0x") || starts_with s (lit "0X")
    then number 16 (drop 2 s)
    else number 16 s

-- The digits of a number in base 16, with as many rounds as the number and one more
unfoldable pub hex_digits : ℕ → ℕ → Text
hex_digits zero n = []
hex_digits (suc rounds) n =
    let digit = if ltb (n % 16) 10 then n % 16 + 48 else n % 16 + 87 in
    let more = hex_digits rounds (n / 16) in if ltb n 16 then digit ∷ [] else more ++ digit ∷ []

-- hex(i)
unfoldable pub hex : ℤ → Text
unfolding hex_digits
hex (pos n) = lit "0x" ++ hex_digits (suc n) n
hex (negsuc n) = lit "-0x" ++ hex_digits (suc (suc n)) (suc n)
