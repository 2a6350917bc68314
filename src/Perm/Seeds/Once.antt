-- ===== src/Perm/Seeds/Once.antt =====
-- The list that `_gen_all_seeds` of perm/eval.py yields, as a collection of numbers.
use mathlib.Core.Option.{some-injective}
use ee_kernel.Base.{
  subst, ap, lt→ltb, ℕ, zero, suc, ◌+◌, ◌/◌, ◌≤◌, ◌<◌, ◌≡◌, refl, sym, arith, true, false,
  Bool-cases, inl, inr, ltb, List, [], ◌∷◌, ◌++◌, Option, none, some, length, ◌==◌, ==_iff,
  if◌then◌else◌,
}
use ee_kernel.Base.Count.{nat_has_eq, count, SameItems, count-append}
use ee_kernel.Perm.Seeds.{
  range, is_seen, remaining, yield, then_remaining, draw_loop, gen_all_seeds,
}

pub count-range :
    (m from n : ℕ)
    → count m (range from n) ≡ (if ltb m from then 0 else if ltb m (from + n) then 1 else 0)
unfolding count range
count-range m from zero = ground arith
count-range m from (suc n) = ground (arith, count-range m (suc from) n, ==_iff m from)

-- A list without repetitions, of numbers below the total.
abbrev pub IsSeenSet : ℕ → List ℕ → Type 0
IsSeenSet total seen = (m : ℕ) → count m seen ≤ (if ltb m total then 1 else 0)

count_unseen : (m : ℕ) (seen : List ℕ) → is_seen m seen ≡ false → count m seen ≡ 0
unfolding count
count_unseen m [] h = refl
count_unseen m (x ∷ xs) h = ground (arith, count_unseen m xs)

count_seen : (m : ℕ) (seen : List ℕ) → is_seen m seen ≡ true → 0 < count m seen
unfolding count
count_seen m [] h = cc
count_seen m (x ∷ xs) h = ground (arith, count_seen m xs)

IsSeenSet-cons :
    (total seed : ℕ) (seen : List ℕ)
    → seed < total
    → is_seen seed seen ≡ false
    → IsSeenSet total seen
    → IsSeenSet total (seed ∷ seen)
unfolding count
IsSeenSet-cons total seed seen lt new h m =
    let none = count_unseen seed seen new in
    elim (Bool-cases (m == seed)) [
      | inl e ↦
          let same = (==_iff m seed).0 e in
          let below : ltb m total ≡ true = lt→ltb m total (omega arith) in
          rw (e, below) (omega (arith, ap (λ x. count x seen) same, none))
      | inr e ↦ rw e (omega (arith, h m))
    ]

count-remaining :
    (m : ℕ) (seen seeds : List ℕ)
    → count m (remaining seen seeds) ≡ (if is_seen m seen then 0 else count m seeds)
unfolding count remaining
count-remaining m seen [] = ground arith
count-remaining m seen (x ∷ xs) = ground (arith, count-remaining m seen xs, ==_iff m x)

-- What is yielded from a set on, and the set behind it.
abbrev Yields : ℕ → List ℕ → List ℕ × List ℕ → Type 0
Yields total seen (seeds, seen') =
    IsSeenSet total seen' × ((m : ℕ) → count m seeds + count m seen ≡ count m seen')

yield-inv :
    (seed : ℕ) (o : Option (List ℕ × List ℕ)) (r : List ℕ × List ℕ)
    → yield seed o ≡ some r
    → (p : List ℕ × List ℕ) × (o ≡ some p) × (r ≡ (seed ∷ p.0, p.1))
unfolding yield
yield-inv seed none r e = cc
yield-inv seed (some p) r e = (p, refl, cc)

Yields-yield :
    (total seed : ℕ) (seen : List ℕ) (r p : List ℕ × List ℕ)
    → r ≡ (seed ∷ p.0, p.1)
    → Yields total (seed ∷ seen) p
    → Yields total seen r
unfolding count
Yields-yield total seed seen r p e (h, sums) =
    subst (Yields total seen) (sym e) (h, λ m. omega (arith, sums m))

Yields-nothing :
    (total : ℕ) (seen : List ℕ) (r : List ℕ × List ℕ)
    → some ([], seen) ≡ some r
    → IsSeenSet total seen
    → Yields total seen r
unfolding count
Yields-nothing total seen r e h =
    subst (Yields total seen) (some-injective _ _ e) (h, λ m. omega arith)

draw_loop-Yields :
    (draw : ℕ → ℕ) (total : ℕ)
    → ((k : ℕ) → draw k < total)
    → (half fuel k : ℕ) (seen : List ℕ) (r : List ℕ × List ℕ) → IsSeenSet total seen
    → draw_loop draw half fuel k seen ≡ some r
    → Yields total seen r
unfolding draw_loop
draw_loop-Yields draw total lt half zero k seen r h e = elim (Bool-cases (ltb (length seen) half)) [
  | inl more ↦ cc (rw more at e)
  | inr done ↦ Yields-nothing total seen r (rw done at e) h
]
draw_loop-Yields draw total lt half (suc fuel) k seen r h e =
    elim (Bool-cases (ltb (length seen) half)) [
      | inr done ↦ Yields-nothing total seen r (rw done at e) h
      | inl more ↦ elim (Bool-cases (is_seen (draw k) seen)) [
        | inl old ↦ draw_loop-Yields draw total lt half fuel (suc k) seen r h (rw (more, old) at e)
        | inr new ↦
            let (p, there, parts) = yield-inv (draw k) _ r (rw (more, new) at e) in
            Yields-yield total (draw k) seen r p parts (
              draw_loop-Yields draw total lt half fuel (suc k) (draw k ∷ seen) p
                (IsSeenSet-cons total (draw k) seen (lt k) new h) there)
      ]
    ]

seen-count : (m : ℕ) (seen : List ℕ) → (if is_seen m seen then 1 else 0) ≤ count m seen
seen-count m seen = elim (Bool-cases (is_seen m seen)) [
  | inl old ↦ rw old (count_seen m seen old)
  | inr new ↦ rw new (omega arith)
]

then_remaining-inv :
    (shuffle : List ℕ → List ℕ) (total : ℕ) (o : Option (List ℕ × List ℕ)) (seeds : List ℕ)
    → then_remaining shuffle total o ≡ some seeds
    → (p : List ℕ × List ℕ) × (o ≡ some p)
      × (seeds ≡ p.0 ++ shuffle (remaining p.1 (range 0 total)))
unfolding then_remaining
then_remaining-inv shuffle total none seeds e = cc
then_remaining-inv shuffle total (some p) seeds e = (p, refl, cc)

-- The seen seeds and the ones that are left make the range.
seen_and_left :
    (total m : ℕ) (seen : List ℕ)
    → IsSeenSet total seen
    → count m seen + count m (remaining seen (range 0 total)) ≡ count m (range 0 total)
seen_and_left total m seen h =
    let left = count-remaining m seen (range 0 total) in
    let all = count-range m 0 total in
    let at_most = h m in
    elim (Bool-cases (is_seen m seen)) [
      | inl old ↦ let one = count_seen m seen old in ground (arith, left, all, at_most, one, old)
      | inr new ↦ let zero' = count_unseen m seen new in ground (arith, left, zero', new)
    ]

count_nil : (m : ℕ) → count m [] ≡ 0
unfolding count
count_nil m = refl

IsSeenSet-nil : (total : ℕ) → IsSeenSet total []
IsSeenSet-nil total m = omega (arith, count_nil m)

-- If every draw is below the total and shuffling keeps the items, then what is generated holds each
-- number below the total once and nothing else.
pub gen_all_seeds-SameItems :
    (draw : ℕ → ℕ) (shuffle : List ℕ → List ℕ) (fuel total_count : ℕ) (seeds : List ℕ)
    → ((k : ℕ) → draw k < total_count)
    → ((xs : List ℕ) → SameItems (shuffle xs) xs)
    → gen_all_seeds draw shuffle fuel total_count ≡ some seeds
    → SameItems seeds (range 0 total_count)
unfolding gen_all_seeds
gen_all_seeds-SameItems draw shuffle fuel total seeds lt keeps e m =
    let ((yielded, seen), drawn, parts) = then_remaining-inv shuffle total _ seeds e in
    let (set, sums) =
      draw_loop-Yields draw total lt (total / 2) fuel 0 [] _ (IsSeenSet-nil total) drawn in
    let left = remaining seen (range 0 total) in
    omega (
      arith,
      ap (count m) parts,
      count-append m yielded (shuffle left),
      keeps left m,
      sums m,
      count_nil m,
      seen_and_left total m seen set,
    )
