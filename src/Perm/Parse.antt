-- ===== src/Perm/Parse.antt =====
-- perm/parse.py: macro trees from source text. `_rec_perm_parse` calls itself through the
-- factories; the fuel bounds the nesting, and the counter numbers the OncePerms as they are made.
pub mod Shorter
pub mod Fueled
pub mod Factories
pub mod Total
use ee_kernel.Base.{
  ℕ, zero, suc, not, ◌&&◌, Text, lit, strip, split_char, text_eq, List, [], ◌∷◌, Option, none, some,
  Result, ok, err, ◌>>=◌, assertion_error, exception, type_error, out_of_fuel, leb, length,
  if◌then◌else◌,
}
use ee_kernel.Base.Int.{ℤ}
use ee_kernel.Perm.Split.{split_by_comma, consume_arg_parens, Found, macro_search, parse_int}
use ee_kernel.Perm.Tree.{
  Perm, PermList, text_perm, ignore_perm, pretend_perm, combine_perm, randomizer_perm,
  force_sameline_perm, general_perm, once_perm, var_read, var_write, line_swap_perm,
  line_swap_ast_perm, nil, cons, make_text, make_int, is_random,
}
use ee_kernel.Perm.Root.{RootPerm, make_root}

-- A call of _rec_perm_parse: the text and the next number, to a tree and the next number.
abbrev pub Parser : Type 0
Parser = Text → ℕ → Result (Perm × ℕ)

-- The keys of PERM_FACTORIES.
pub data Macro : Type 0 where
  general once randomize force_sameline var lineswap_text lineswap int ignore pretend : Macro

-- PERM_FACTORIES[perm_type], none for a name that is not there
unfoldable pub find_macro : Text → Option Macro
find_macro name =
    if text_eq name (lit "PERM_GENERAL")
    then some general
    else if text_eq name (lit "PERM_ONCE")
    then some once
    else if text_eq name (lit "PERM_RANDOMIZE")
    then some randomize
    else if text_eq name (lit "PERM_FORCE_SAMELINE")
    then some force_sameline
    else if text_eq name (lit "PERM_VAR")
    then some var
    else if text_eq name (lit "PERM_LINESWAP_TEXT")
    then some lineswap_text
    else if text_eq name (lit "PERM_LINESWAP")
    then some lineswap
    else if text_eq name (lit "PERM_INT")
    then some int
    else if text_eq name (lit "PERM_IGNORE")
    then some ignore
    else if text_eq name (lit "PERM_PRETEND")
    then some pretend
    else none

-- [_rec_perm_parse(arg) for arg in args]
unfoldable pub parse_each : Parser → List Text → ℕ → Result (PermList × ℕ)
parse_each parse [] n = ok (nil, n)
parse_each parse (arg ∷ args) n =
    parse arg n >>= λ (p, n'). parse_each parse args n' >>= λ (ps, n''). ok (cons p ps, n'')

-- _split_args
unfoldable pub split_args : Parser → Text → ℕ → Result (PermList × ℕ)
unfolding parse_each
split_args parse text n = split_by_comma text >>= λ args. parse_each parse args n

-- [line for line in lines if line.strip()]
unfoldable pub nonblank : List Text → List Text
nonblank [] = []
nonblank (line ∷ lines) =
    let rest = nonblank lines in elim (strip line) [ [] ↦ rest | c ∷ s ↦ line ∷ rest ]

-- _split_args_newline
split_args_newline : Parser → Text → ℕ → Result (PermList × ℕ)
unfolding parse_each nonblank
split_args_newline parse text n = parse_each parse (nonblank (split_char 10 [] text)) n

-- The loop of _split_args_text: every argument must be plain text.
unfoldable pub texts_of : PermList → Result (List Text)
texts_of nil = ok []
texts_of (cons (text_perm text) ps) = texts_of ps >>= λ texts. ok (text ∷ texts)
texts_of (cons p ps) = err assertion_error

unfoldable pub split_args_text : Parser → Text → ℕ → Result (List Text × ℕ)
unfolding split_args texts_of
split_args_text parse text n =
    split_args parse text n >>= λ (ps, n'). texts_of ps >>= λ texts. ok (texts, n')

-- map(int, texts)
unfoldable pub parse_ints : List Text → Result (List ℤ)
parse_ints [] = ok []
parse_ints (t ∷ ts) = parse_int t >>= λ i. parse_ints ts >>= λ is. ok (i ∷ is)

-- IntPerm(*numbers)
unfoldable pub int_from : List ℤ → Result Perm
int_from (low ∷ high ∷ []) = make_int low high
int_from _ = err type_error

-- _make_once_perm, its arguments split
once_from : Parser → List Text → ℕ → Result (Perm × ℕ)
once_from parse (key ∷ []) n =
    parse key n >>= λ (value, n'). ok (once_perm n' (strip key) value, suc n')
once_from parse (key ∷ content ∷ []) n =
    parse content n >>= λ (value, n'). ok (once_perm n' (strip key) value, suc n')
once_from parse _ n = err exception

-- _make_var_perm, its arguments split
var_from : Parser → List Text → ℕ → Result (Perm × ℕ)
var_from parse (name ∷ []) n = parse name n >>= λ (var_name, n'). ok (var_read var_name, n')
var_from parse (name ∷ content ∷ []) n = parse name n >>= λ (var_name, n').
    parse content n' >>= λ (value, n''). ok (var_write var_name value, n'')
var_from parse _ n = err exception

abbrev wrap_one : (Perm → Perm) → Result (Perm × ℕ) → Result (Perm × ℕ)
wrap_one make r = r >>= λ (p, n). ok (make p, n)

abbrev wrap_list : (PermList → Perm) → Result (PermList × ℕ) → Result (Perm × ℕ)
wrap_list make r = r >>= λ (ps, n). ok (make ps, n)

-- The factories of PERM_FACTORIES.
unfoldable pub factory : Parser → Macro → Text → ℕ → Result (Perm × ℕ)
unfolding split_args split_args_newline split_args_text parse_ints int_from once_from var_from
factory parse general text n = wrap_list general_perm (split_args parse text n)
factory parse once text n = split_by_comma text >>= λ args. once_from parse args n
factory parse randomize text n = wrap_one randomizer_perm (parse text n)
factory parse force_sameline text n = wrap_one force_sameline_perm (parse text n)
factory parse var text n = split_by_comma text >>= λ args. var_from parse args n
factory parse lineswap_text text n = wrap_list line_swap_perm (split_args_newline parse text n)
factory parse lineswap text n = wrap_list line_swap_ast_perm (split_args_newline parse text n)
factory parse int text n = split_args_text parse text n >>= λ (texts, n').
    parse_ints texts >>= λ numbers. int_from numbers >>= λ p. ok (p, n')
factory parse ignore text n = wrap_one ignore_perm (parse text n)
factory parse pretend text n = wrap_one pretend_perm (parse text n)

-- One macro of the loop: its arguments are read off the text, and its factory is called.
unfoldable pub parse_macro : Parser → Found → ℕ → Result (Perm × Text × ℕ)
unfolding find_macro factory
parse_macro parse found n = elim (find_macro found.perm_type) [
  | none ↦ err exception
  | some macro ↦ consume_arg_parens found.behind >>= λ (args, remain).
      factory parse macro args n >>= λ (p, n'). ok (p, remain, n')
]

-- The loop of _rec_perm_parse over `remain`, with fuel for its rounds.
unfoldable pub parse_loop : Parser → ℕ → Text → ℕ → Result (PermList × ℕ)
parse_loop parse rounds [] n = ok (nil, n)
parse_loop parse zero (c ∷ s) n = err out_of_fuel
parse_loop parse (suc rounds) (c ∷ s) n = elim (macro_search (c ∷ s)) [
  | none ↦ ok (cons (make_text (c ∷ s)) nil, n)
  | some found ↦ parse_macro parse found n >>= λ (p, remain, n').
      parse_loop parse rounds remain n' >>= λ (ps, n'').
      ok (cons (make_text found.between) (cons p ps), n'')
]

-- A single part stands for itself.
unfoldable pub combine : PermList → Perm
combine (cons p nil) = p
combine ps = combine_perm ps

-- _rec_perm_parse
unfoldable pub rec_perm_parse : ℕ → Parser
unfolding parse_loop combine
rec_perm_parse zero text n = err out_of_fuel
rec_perm_parse (suc fuel) text n =
    wrap_list combine (parse_loop (rec_perm_parse fuel) (length text) text n)

-- perm_parse, without what it prints
unfoldable pub perm_parse : Text → Result RootPerm
unfolding rec_perm_parse
perm_parse text = rec_perm_parse (suc (length text)) text 0 >>= λ (p, n). make_root p >>= λ root.
    make_root (if leb root.root_count 1 && not (is_random p) then randomizer_perm p else p)
