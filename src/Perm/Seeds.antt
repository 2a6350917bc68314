-- ===== src/Perm/Seeds.antt =====
-- perm/eval.py: the order in which the seeds are tried. The random draws and the shuffle are the
-- standard library's: `draw k` is the result of the k-th call of random.randrange(total_count), and
-- `shuffle` is what random.shuffle makes of a list.
pub mod Once
pub mod Ends
pub mod Tried
use ee_kernel.Base.{
  ℕ, zero, suc, ◌/◌, List, [], ◌∷◌, ◌++◌, Option, none, some, any, ltb, Bool, length, ◌==◌,
  if◌then◌else◌,
}
use ee_kernel.Perm.Tree.{Perm}
use ee_kernel.Perm.State.{EvalState, empty_state}

-- range(total_count), from a number on
unfoldable pub range : ℕ → ℕ → List ℕ
range from zero = []
range from (suc n) = from ∷ range (suc from) n

-- seed in seen
abbrev pub is_seen : ℕ → List ℕ → Bool
is_seen seed seen = any (λ x. seed == x) seen

-- The second loop of _gen_all_seeds: the seeds that are left.
remaining : List ℕ → List ℕ → List ℕ
remaining seen [] = []
remaining seen (seed ∷ seeds) =
    let rest = remaining seen seeds in if is_seen seed seen then rest else seed ∷ rest

-- yield seed
yield : ℕ → Option (List ℕ × List ℕ) → Option (List ℕ × List ℕ)
yield seed none = none
yield seed (some (seeds, seen)) = some (seed ∷ seeds, seen)

-- The first loop of _gen_all_seeds from the k-th draw on: what it yields, and the set `seen` behind
-- it. The fuel bounds the number of draws; none says that it did not suffice.
draw_loop : (ℕ → ℕ) → ℕ → ℕ → ℕ → List ℕ → Option (List ℕ × List ℕ)
unfolding yield
draw_loop draw half zero k seen = if ltb (length seen) half then none else some ([], seen)
draw_loop draw half (suc fuel) k seen =
    let seed = draw k in
    let again = draw_loop draw half fuel (suc k) seen in
    let new = draw_loop draw half fuel (suc k) (seed ∷ seen) in
    if ltb (length seen) half
    then (if is_seen seed seen then again else yield seed new)
    else some ([], seen)

-- The second part of _gen_all_seeds, behind the first loop.
then_remaining : (List ℕ → List ℕ) → ℕ → Option (List ℕ × List ℕ) → Option (List ℕ)
unfolding remaining range
then_remaining shuffle total_count none = none
then_remaining shuffle total_count (some (seeds, seen)) =
    some (seeds ++ shuffle (remaining seen (range 0 total_count)))

-- _gen_all_seeds, as the list of what it yields
unfoldable pub gen_all_seeds : (ℕ → ℕ) → (List ℕ → List ℕ) → ℕ → ℕ → Option (List ℕ)
unfolding draw_loop then_remaining
gen_all_seeds draw shuffle fuel total_count =
    then_remaining shuffle total_count (draw_loop draw (total_count / 2) fuel 0 [])
