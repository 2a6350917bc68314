-- ===== src/Perm/Parse/Fueled.antt =====
-- The parts of perm/parse.py that take no fuel, and the errors that they raise.
use ee_kernel.Base.{
  ◌*◌, ◌-◌, ℕ, zero, suc, ◌+◌, ◌<◌, ◌≡◌, ◌≢◌, refl, ap, arith, Bool, true, false, Bool-cases, inl,
  inr, Text, strip, List, [], ◌∷◌, length, length-append, Result, ok, err, Error, out_of_fuel,
}
use ee_kernel.Base.Int.{ℤ, leb_ℤ}
use ee_kernel.Base.Outcome.{Outcome, returns, raises, Outcome-imp, Outcome-err}
use ee_kernel.Perm.Split.{
  split_by_comma, split_loop, consume_arg_parens, consume_loop, parse_int, int_digits, signed_int,
}
use ee_kernel.Perm.Split.Levels.{consume_arg_parens_iff}
use ee_kernel.Perm.Split.Pieces.{split_loop-Splits}
use ee_kernel.Perm.Split.Join.{split_by_comma_iff}
use ee_kernel.Perm.Tree.{PermList, text_perm, nil, cons, make_int}
use ee_kernel.Perm.Complete.{IsPositive}
use ee_kernel.Perm.Parse.{texts_of, parse_ints, int_from}
use ee_kernel.Perm.Parse.Shorter.{AreWithin, split_by_comma-AreWithin}

abbrev pub IsProperError : Error → Type 0
IsProperError e = e ≢ out_of_fuel

-- A result that the fuel did not cut off, whose value has the property.
abbrev pub Finishes {ℓ} : {A : Type ℓ} → (A → Type 0) → Result A → Type ℓ
Finishes P r = Outcome P IsProperError r

-- A call that cannot run out of fuel, with what is known of its value.
pub finishes : {A : Type 0} (r : Result A) → r ≢ err out_of_fuel → Finishes (λ a. r ≡ ok a) r
finishes (ok a) h = returns refl
finishes (err e) h = raises λ same. h (ap err same)

split_loop-fueled : (s : Text) → split_loop s 0 [] ≢ err out_of_fuel
split_loop-fueled s h = cc (Outcome-err (split_loop-Splits s 0) h)

some_pieces : (args : List Text) → args ≢ [] → 0 < length args
some_pieces [] h = absurd (h refl)
some_pieces (a ∷ args) h = omega arith

pub split_by_comma-Finishes :
    (text : Text)
    → Finishes (λ args. AreWithin (length text) args × (0 < length args)) (split_by_comma text)
unfolding split_by_comma
split_by_comma-Finishes text =
    Outcome-imp
      (λ args e. (
        split_by_comma-AreWithin text args e,
        some_pieces args ((split_by_comma_iff text args).0 e).1,
      ))
      (finishes (split_by_comma text) (split_loop-fueled text))

consume_loop-fueled : (s : Text) (level : ℕ) → consume_loop s level ≢ err out_of_fuel
unfolding consume_loop
consume_loop-fueled [] level h = cc
consume_loop-fueled (c ∷ s) zero h =
    ground (arith, consume_loop-fueled s 1, consume_loop-fueled s 0)
consume_loop-fueled (c ∷ s) (suc level) h = ground (
  arith,
  consume_loop-fueled s (suc (suc level)),
  consume_loop-fueled s level,
  consume_loop-fueled s (suc level),
)

consumed :
    (text args rest : Text)
    → consume_arg_parens text ≡ ok (args, rest)
    → (length args < length text) × (length rest < length text)
consumed text args rest h =
    let lengths = ap length ((consume_arg_parens_iff text args rest).0 h).0 in
    (
      omega (arith, lengths, length-append args (b')' ∷ rest)),
      omega (arith, lengths, length-append args (b')' ∷ rest)),
    )

pub consume-Finishes :
    (text : Text)
    → Finishes
        (λ (args, rest). (length args < length text) × (length rest < length text))
        (consume_arg_parens text)
unfolding consume_arg_parens
consume-Finishes text =
    Outcome-imp (λ (args, rest) e. consumed text args rest e)
      (finishes (consume_arg_parens text) (consume_loop-fueled text 0))

int_digits-fueled : (s : Text) (pending : Bool) (n : ℕ) → int_digits s pending n ≢ err out_of_fuel
unfolding int_digits
int_digits-fueled [] pending n h = ground arith
int_digits-fueled (c ∷ s) pending n h =
    ground (arith, int_digits-fueled s false (n * 10 + (c - 48)), int_digits-fueled s true n)

signed_int-fueled : (s : Text) → signed_int s ≢ err out_of_fuel
unfolding signed_int
signed_int-fueled [] h = cc
signed_int-fueled (c ∷ s) h =
    ground (arith, int_digits-fueled s true 0, int_digits-fueled (c ∷ s) true 0)

pub parse_ints-fueled : (ts : List Text) → parse_ints ts ≢ err out_of_fuel
unfolding parse_ints parse_int
parse_ints-fueled [] h = cc
parse_ints-fueled (t ∷ ts) h = ground (arith, signed_int-fueled (strip t), parse_ints-fueled ts)

make_int-ParsesWell : (low high : ℤ) → Finishes IsPositive (make_int low high)
unfolding make_int IsPositive
make_int-ParsesWell low high = elim (Bool-cases (leb_ℤ low high)) [
  | inl fits ↦ rw fits (returns (omega arith))
  | inr empty ↦ rw empty (raises (λ e. cc))
]

pub int_from-Finishes : (numbers : List ℤ) → Finishes IsPositive (int_from numbers)
unfolding int_from
int_from-Finishes (low ∷ high ∷ []) = make_int-ParsesWell low high
int_from-Finishes [] = raises (λ e. cc)
int_from-Finishes (low ∷ []) = raises (λ e. cc)
int_from-Finishes (low ∷ high ∷ more ∷ rest) = raises (λ e. cc)

pub texts_of-fueled : (ps : PermList) → texts_of ps ≢ err out_of_fuel
unfolding texts_of
texts_of-fueled nil h = cc
texts_of-fueled (cons (text_perm t) ps) h = ground (arith, texts_of-fueled ps)
texts_of-fueled (cons p ps) h = cc
