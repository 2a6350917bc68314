-- ===== src/Perm/Tests.antt =====
-- Runs of the parser and of the evaluation at small inputs, and the theorems at inputs that meet
-- their hypotheses.
use ee_kernel.Base.{
  ◌%◌, ◌+◌, ◌-◌, ◌≡◌, ◌≢◌, ◌↔◌, ◌<◌, All, length, lookup, refl, arith, ℕ, Text, List, [], ◌∷◌, ◌++◌,
  lit, ok, strip, lstrip, rstrip, is_space, starts_with, text_eq, text_eq_iff, nat_str, join, some,
  false,
}
use ee_kernel.Base.Int.{pos, negsuc, int_str, add_ℕ, leb_ℤ, distance}
use ee_kernel.Base.Outcome.{Outcome}
use ee_kernel.Base.Count.{nat_has_eq, count, text_has_eq, SameItems}
use ee_kernel.Base.Base64.{b64_encode, utf8_encode}
use ee_kernel.Perm.Tree.{
  Perm, text_perm, general_perm, once_perm, line_swap_perm, combine_perm, ignore_perm, int_perm,
  nil, cons, perm_count, make_text, make_int, unescape_commas, is_random, size_list,
}
use ee_kernel.Perm.State.{EvalState, empty_state, divmod}
use ee_kernel.Perm.Evaluate.{evaluate, ignored}
use ee_kernel.Perm.Shuffle.{factorial, shuffle}
use ee_kernel.Perm.Shuffle.Covers.{shuffle_covers}
use ee_kernel.Perm.Shuffle.Injective.{Distinct}
use ee_kernel.Perm.Variation.{Variation}
use ee_kernel.Perm.Keys.{HasChoices}
use ee_kernel.Perm.Sound.{IsUndefinedVar}
use ee_kernel.Perm.Complete.{IsPositive, evaluate_enumerates}
use ee_kernel.Perm.Root.Choices.{RootVariation}
use ee_kernel.Perm.Split.Args.{IsArg}
use ee_kernel.Perm.Split.Pieces.{comma_sep}
use ee_kernel.Perm.Split.Join.{split_by_comma_iff}
use ee_kernel.Perm.Split.Levels.{IsBalanced, consume_arg_parens_iff}
use ee_kernel.Perm.Parse.Fueled.{IsProperError}
use ee_kernel.Perm.Parse.Total.{rec_perm_parse_total}
use ee_kernel.Perm.Seeds.{range, gen_all_seeds}
use ee_kernel.Perm.Seeds.Ends.{IsFair, gen_all_seeds_total}
use ee_kernel.Perm.Seeds.Tried.{every_variation_tried}
use ee_kernel.Perm.Whole.{perm_parse_enumerates, perm_parse_evaluates}
use ee_kernel.Perm.Root.{choose, evaluate_root, RootPerm, make_root, count_options, preprocess}
use ee_kernel.Perm.Parse.{
  perm_parse, rec_perm_parse, parse_loop, parse_macro, combine, find_macro, factory, split_args,
  parse_each, nonblank, texts_of, split_args_text, parse_ints, int_from,
}
use ee_kernel.Perm.Split.{
  Found, split_by_comma, split_loop, bracket, consume_arg_parens, consume_loop, macro_search,
  match_here, match_name, lazy_name, with_prefix, leftmost, int_digits, signed_int, parse_int,
}

-- "x" or "y", then an integer between -1 and 1
abbrev sample : Perm
sample = combine_perm (
    cons (general_perm (cons (text_perm (lit "x")) (cons (text_perm (lit "y")) nil)))
      (cons (int_perm (negsuc 0) 3) nil))

evaluate_y0 : evaluate sample 3 empty_state ≡ ok (lit "y0", empty_state)
unfolding evaluate divmod perm_count join int_str add_ℕ nat_str
evaluate_y0 = refl

ignored_line :
    evaluate (ignore_perm (text_perm (lit "ab"))) 0 empty_state
    ≡ ok (10 ∷ lit "#pragma _permuter b64literal YWI=" ++ 10 ∷ [], empty_state)
unfolding evaluate ignored b64_encode utf8_encode
ignored_line = refl

abbrev source : Text
source = lit "PERM_GENERAL(x,y)PERM_INT(1, 3)"

abbrev source_root : RootPerm
source_root = record {
  inner = combine_perm (
      cons (text_perm []) (
        cons (general_perm (cons (text_perm (lit "x")) (cons (text_perm (lit "y")) nil)))
          (cons (text_perm []) (cons (int_perm (pos 1) 3) nil))));
  once_options = [];
  root_count = 6;
}

parse_source : perm_parse source ≡ ok source_root
unfolding perm_parse rec_perm_parse parse_loop parse_macro combine find_macro factory split_args
    parse_each nonblank texts_of split_args_text parse_ints int_from split_by_comma split_loop
    bracket consume_arg_parens consume_loop macro_search match_here match_name lazy_name with_prefix
    leftmost int_digits signed_int parse_int strip lstrip rstrip is_space starts_with text_eq
    make_text make_int unescape_commas is_random perm_count make_root count_options preprocess
    size_list leb_ℤ distance
parse_source = refl

perm_parse_enumerates_example : RootVariation source_root empty_state (lit "y2") empty_state ↔ (
    (seed : ℕ) × (seed < 6)
    × (evaluate_root source_root seed empty_state ≡ ok (lit "y2", empty_state)))
perm_parse_enumerates_example =
    perm_parse_enumerates source source_root parse_source empty_state (lit "y2") empty_state

perm_parse_evaluates_example :
    Outcome
      (λ (t, s'). RootVariation source_root empty_state t s')
      IsUndefinedVar
      (evaluate_root source_root 3 empty_state)
perm_parse_evaluates_example =
    perm_parse_evaluates source source_root parse_source empty_state 3 (omega arith)

rec_perm_parse_total_example :
    Outcome (λ (p, n). IsPositive p) IsProperError (rec_perm_parse 32 source 0)
rec_perm_parse_total_example = rec_perm_parse_total 32 source 0 (omega arith)

abbrev twins : Perm
twins = combine_perm (
    cons (once_perm 0 (lit "k") (text_perm (lit "a")))
      (cons (line_swap_perm (cons (text_perm (lit "s")) (cons (text_perm (lit "t")) nil))) nil))

abbrev chosen : EvalState
chosen = record empty_state { once_choices = (lit "k", 0) ∷ [] }

twins-HasChoices : HasChoices twins chosen.once_choices
unfolding HasChoices lookup text_eq
twins-HasChoices = (((0, refl), tt), ((tt, (tt, tt)), tt))

twins-IsPositive : IsPositive twins
unfolding IsPositive
twins-IsPositive = (tt, ((tt, (tt, tt)), tt))

evaluate_enumerates_example : Variation twins chosen (lit "at\ns") chosen ↔ (
    (seed : ℕ) × (seed < perm_count twins)
    × (evaluate twins seed chosen ≡ ok (lit "at\ns", chosen)))
evaluate_enumerates_example =
    evaluate_enumerates twins chosen twins-HasChoices twins-IsPositive (lit "at\ns") chosen

abbrev lines : List Text
lines = lit "a" ∷ lit "b" ∷ lit "c" ∷ []

abbrev reversed : List Text
reversed = lit "c" ∷ lit "b" ∷ lit "a" ∷ []

shuffle_covers_example :
    SameItems reversed lines
    ↔ ((seed : ℕ) × (seed < factorial (length lines)) × (shuffle lines seed ≡ reversed))
shuffle_covers_example = shuffle_covers lines reversed

apart : (s t : Text) → text_eq s t ≡ false → s ≢ t
apart s t h e = cc ((text_eq_iff s t).1 e, h)

lines-Distinct : Distinct lines
unfolding text_eq
lines-Distinct = (
  (apart (lit "a") (lit "b") refl, (apart (lit "a") (lit "c") refl, tt)),
  ((apart (lit "b") (lit "c") refl, tt), (tt, tt)),
)

four_small : 4 < factorial (length lines)
unfolding factorial
four_small = omega arith

two_small : 2 < factorial (length lines)
unfolding factorial
two_small = omega arith

split_by_comma_iff_example :
    (split_by_comma (lit "f(a,b),c") ≡ ok (lit "f(a,b)" ∷ lit "c" ∷ [])) ↔ (
      (join comma_sep (lit "f(a,b)" ∷ lit "c" ∷ []) ≡ lit "f(a,b),c")
      × (◌≢◌ {A = List Text} (lit "f(a,b)" ∷ lit "c" ∷ []) [])
      × All IsArg (lit "f(a,b)" ∷ lit "c" ∷ []))
split_by_comma_iff_example = split_by_comma_iff (lit "f(a,b),c") (lit "f(a,b)" ∷ lit "c" ∷ [])

consume_arg_parens_iff_example :
    (consume_arg_parens (lit "f(a),b);") ≡ ok (lit "f(a),b", lit ";"))
    ↔ ((lit "f(a),b);" ≡ lit "f(a),b" ++ b')' ∷ lit ";") × IsBalanced (lit "f(a),b"))
consume_arg_parens_iff_example = consume_arg_parens_iff (lit "f(a),b);") (lit "f(a),b") (lit ";")

abbrev found : Found
found = record { between = lit "x = "; perm_type = lit "PERM_INT"; behind = lit "1,2);" }

search_found : macro_search (lit "x = PERM_INT(1,2);") ≡ some found
unfolding macro_search match_here match_name lazy_name with_prefix leftmost starts_with
search_found = refl

-- Draws that go round and round.
abbrev draw : ℕ → ℕ
draw k = k % 6

draw-IsFair : IsFair draw 6
draw-IsFair m k lt = (m + (6 - k % 6), omega arith)

abbrev unchanged : List ℕ → List ℕ
unchanged xs = xs

gen_all_seeds_total_example :
    (fuel : ℕ) × (seeds : List ℕ) × (gen_all_seeds draw unchanged fuel 6 ≡ some seeds)
    × SameItems seeds (range 0 6)
gen_all_seeds_total_example =
    gen_all_seeds_total draw unchanged 6 (λ k. omega arith) (λ xs a. refl) draw-IsFair

evaluate_x1 : evaluate_root source_root 0 empty_state ≡ ok (lit "x1", empty_state)
unfolding evaluate_root choose evaluate divmod perm_count join int_str add_ℕ nat_str
evaluate_x1 = refl

every_variation_tried_example :
    (fuel : ℕ) × (seeds : List ℕ) × (gen_all_seeds draw unchanged fuel 6 ≡ some seeds)
    × (seed : ℕ) × (count seed seeds ≡ 1)
    × (evaluate_root source_root seed empty_state ≡ ok (lit "x1", empty_state))
every_variation_tried_example =
    every_variation_tried source source_root draw unchanged empty_state (lit "x1") empty_state
      parse_source (λ k. omega arith) (λ xs a. refl) draw-IsFair
      ((perm_parse_enumerates source source_root parse_source empty_state (lit "x1") empty_state).1
        (0, omega arith, evaluate_x1))
