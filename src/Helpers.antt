-- ===== src/Helpers.antt =====
-- tools/decomp-permuter/src/helpers.py: text helpers, weights, and checked access to JSON values.
pub mod Json
pub mod Typed
use ee_kernel.Base.{
  ℕ, zero, suc, Option, none, some, [], ◌∷◌, ◌++◌, drop, Text, lit, starts_with, nat_str, Dict,
  lookup, ◌==◌, if◌then◌else◌,
}

-- plural
unfoldable pub plural : ℕ → Text → Text
plural n noun = nat_str n ++ (lit " " ++ (noun ++ (if n == 1 then [] else lit "s")))

-- source.find(part): the first index at which the part stands
unfoldable pub find : Text → Text → Option ℕ
find part [] = if starts_with [] part then some 0 else none
find part (c ∷ s) =
    let later : Option ℕ = elim (find part s) [ none ↦ none | some i ↦ some (suc i) ] in
    if starts_with (c ∷ s) part then some 0 else later

-- s.rfind(c, 0, end): the last index below `end` of a character
unfoldable pub rfind_char : ℕ → Text → ℕ → Option ℕ
rfind_char c [] end = none
rfind_char c (d ∷ s) zero = none
rfind_char c (d ∷ s) (suc end) = elim (rfind_char c s end) [
  | some i ↦ some (suc i)
  | none ↦ if c == d then some 0 else none
]

-- trim_source
unfoldable pub trim_source : Text → Text → Text
unfolding find rfind_char
trim_source source fn_name = elim (find fn_name source) [
  | none ↦ source
  | some fn_index ↦ elim (rfind_char 10 source fn_index) [
    | none ↦ source
    | some new_index ↦ drop new_index source
  ]
]

-- overrides.get(key, weight)
abbrev pub get_or {ℓ} : {A : Type ℓ} → Option A → A → A
get_or none a = a
get_or (some b) a = b

-- merge_randomization_weights
unfoldable pub merge_randomization_weights {ℓ} : {A : Type ℓ} → Dict A → Dict A → Dict A
merge_randomization_weights [] overrides = []
merge_randomization_weights ((key, weight) ∷ base) overrides =
    (key, get_or (lookup key overrides) weight) ∷ merge_randomization_weights base overrides
