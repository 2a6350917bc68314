-- ===== src/Perm/Whole.antt =====
-- A source text with macros, from its parse to the texts of its seeds.
use ee_kernel.Base.{
  ℕ, suc, ◌*◌, ◌<◌, ◌≡◌, ◌≢◌, ◌↔◌, refl, arith, Bool, true, false, Text, [], ◌∷◌, length, ok, err,
  >>=-eq-ok, out_of_fuel, if◌then◌else◌,
}
use ee_kernel.Perm.Parse.Fueled.{Finishes, finishes}
use ee_kernel.Base.Outcome.{Outcome, returns, Outcome-bind, Outcome-ok, Outcome-err}
use ee_kernel.Perm.Tree.{Perm, perm_count, randomizer_perm}
use ee_kernel.Perm.State.{EvalState}
use ee_kernel.Perm.Sound.{IsUndefinedVar}
use ee_kernel.Perm.Complete.{IsPositive}
use ee_kernel.Perm.Root.{OnceOptions, count_options, preprocess, RootPerm, make_root, evaluate_root}
use ee_kernel.Perm.Root.Choices.{
  RootVariation, root_count_pos, evaluate_root-Outcome, evaluate_root-reaches,
}
use ee_kernel.Perm.Parse.{rec_perm_parse, perm_parse}
use ee_kernel.Perm.Parse.Total.{rec_perm_parse_total}

-- The tree under the root, which stands for itself or is randomized.
chosen-IsPositive :
    (b : Bool) (p : Perm) → IsPositive p → IsPositive (if b then randomizer_perm p else p)
unfolding IsPositive
chosen-IsPositive true p h = h
chosen-IsPositive false p h = h

perm_parse-tree :
    (text : Text) (root : RootPerm)
    → perm_parse text ≡ ok root
    → (p : Perm) × IsPositive p × (make_root p ≡ ok root)
unfolding perm_parse
perm_parse-tree text root h =
    let ((p, n), parsed, rest) = >>=-eq-ok (rec_perm_parse (suc (length text)) text 0) _ h in
    let (first, made, last) = >>=-eq-ok (make_root p) _ rest in
    (
      _,
      chosen-IsPositive _ p
          (Outcome-ok (rec_perm_parse_total (suc (length text)) text 0 (omega arith)) parsed),
      last,
    )

-- Every seed below the count of a source that parses gives a variation of the source
-- under one choice for each PERM_ONCE key, or reads a PERM_VAR that is not set.
pub perm_parse_evaluates :
    (text : Text) (root : RootPerm)
    → perm_parse text ≡ ok root
    → (s : EvalState) (seed : ℕ) → seed < root.root_count
    → Outcome (λ (t, s'). RootVariation root s t s') IsUndefinedVar (evaluate_root root seed s)
perm_parse_evaluates text root h s seed lt =
    let (p, pos, made) = perm_parse-tree text root h in evaluate_root-Outcome p root made seed s lt

-- A source that parses has a seed below its count.
perm_parse-count_pos :
    (text : Text) (root : RootPerm) → perm_parse text ≡ ok root → 0 < root.root_count
perm_parse-count_pos text root h =
    let (p, pos, made) = perm_parse-tree text root h in root_count_pos p root made pos

-- For a source that parses, the texts and states that the seeds below its count give are exactly
-- the variations of the source under one choice for each PERM_ONCE key.
pub perm_parse_enumerates :
    (text : Text) (root : RootPerm)
    → perm_parse text ≡ ok root
    → (s : EvalState) (t : Text) (s' : EvalState)
    → RootVariation root s t s'
      ↔ ((seed : ℕ) × (seed < root.root_count) × (evaluate_root root seed s ≡ ok (t, s')))
perm_parse_enumerates text root h s t s' =
    let (p, pos, made) = perm_parse-tree text root h in
    (
      evaluate_root-reaches p root made s t s' pos,
      λ (seed, lt, e). Outcome-ok (perm_parse_evaluates text root h s seed lt) e,
    )

count_options-fueled : (o : OnceOptions) (n : ℕ) → count_options o n ≢ err out_of_fuel
unfolding count_options
count_options-fueled [] n h = cc
count_options-fueled ((key, options) ∷ rest) n h =
    ground (arith, count_options-fueled rest (n * length options))

make_root-Finishes : (p : Perm) → Finishes (λ root. Unit {0}) (make_root p)
unfolding make_root
make_root-Finishes p =
    Outcome-bind (finishes _ (count_options-fueled (preprocess p []) (perm_count p)))
      λ n e. returns tt

perm_parse-Finishes : (text : Text) → Finishes (λ root. Unit {0}) (perm_parse text)
unfolding perm_parse
perm_parse-Finishes text =
    Outcome-bind (rec_perm_parse_total (suc (length text)) text 0 (omega arith))
      λ (p, n) pos. Outcome-bind (make_root-Finishes p) λ root u. make_root-Finishes _

-- Parsing a source never stops for want of fuel.
pub perm_parse-ne-out_of_fuel : (text : Text) → perm_parse text ≢ err out_of_fuel
perm_parse-ne-out_of_fuel text h = Outcome-err (perm_parse-Finishes text) h refl
