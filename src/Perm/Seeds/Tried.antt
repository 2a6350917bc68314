-- ===== src/Perm/Seeds/Tried.antt =====
-- `_gen_all_seeds` of perm/eval.py for the seeds of a parsed source.
use ee_kernel.Base.{ℕ, ◌<◌, ◌≡◌, ◌∙◌, arith, Text, List, some, ok}
use ee_kernel.Base.Count.{nat_has_eq, count, SameItems}
use ee_kernel.Perm.State.{EvalState}
use ee_kernel.Perm.Root.{RootPerm, evaluate_root}
use ee_kernel.Perm.Root.Choices.{RootVariation}
use ee_kernel.Perm.Parse.{perm_parse}
use ee_kernel.Perm.Whole.{perm_parse_enumerates}
use ee_kernel.Perm.Seeds.{gen_all_seeds, range}
use ee_kernel.Perm.Seeds.Once.{count-range}
use ee_kernel.Perm.Seeds.Ends.{IsFair, gen_all_seeds_total}

-- For a source that parses, draws below its count that are fair, and a shuffle that keeps the items,
-- generating the seeds ends, and each variation of the source is the value of a seed that is
-- yielded exactly once.
pub every_variation_tried :
    (text : Text) (root : RootPerm) (draw : ℕ → ℕ) (shuffle : List ℕ → List ℕ) (s : EvalState)
    (t : Text) (s' : EvalState)
    → perm_parse text ≡ ok root
    → ((k : ℕ) → draw k < root.root_count)
    → ((xs : List ℕ) → SameItems (shuffle xs) xs)
    → IsFair draw root.root_count
    → RootVariation root s t s'
    → (fuel : ℕ) × (seeds : List ℕ) × (gen_all_seeds draw shuffle fuel root.root_count ≡ some seeds)
      × (seed : ℕ) × (count seed seeds ≡ 1)
      × (evaluate_root root seed s ≡ ok (t, s'))
every_variation_tried text root draw shuffle s t s' parsed lt keeps fair v =
    let (fuel, seeds, made, same) =
      gen_all_seeds_total draw shuffle root.root_count lt keeps fair in
    let (seed, below, e) = (perm_parse_enumerates text root parsed s t s').0 v in
    let once : count seed (range 0 root.root_count) ≡ 1 =
      let all = count-range seed 0 root.root_count in ground (arith, all, below) in
    (fuel, seeds, made, seed, same seed ∙ once, e)
