-- ===== src/Perm/Seeds/Ends.antt =====
-- The number of draws of `_gen_all_seeds` of perm/eval.py.
use ee_kernel.Base.{
  ◌++◌, ltb→lt, ℕ, zero, suc, ◌+◌, ◌/◌, ◌≤◌, ◌<◌, ◌≡◌, refl, sym, ◌∙◌, arith, true, false,
  Bool-cases, inl, inr, ltb, List, [], ◌∷◌, Option, some, length, ◌==◌, if◌then◌else◌,
}
use ee_kernel.Base.Count.{nat_has_eq, SameItems}
use ee_kernel.Perm.Seeds.Once.{gen_all_seeds-SameItems}
use ee_kernel.Perm.Seeds.{
  range, remaining, is_seen, yield, then_remaining, draw_loop, gen_all_seeds,
}

-- seen without a number
without : ℕ → List ℕ → List ℕ
without m [] = []
without m (x ∷ xs) = let rest = without m xs in if m == x then rest else x ∷ rest

length-without : (m : ℕ) (xs : List ℕ) → length (without m xs) ≤ length xs
unfolding without
length-without m [] = omega arith
length-without m (x ∷ xs) = ground (arith, length-without m xs)

shorter-without : (m : ℕ) (xs : List ℕ) → is_seen m xs ≡ true → length (without m xs) < length xs
unfolding without
shorter-without m [] h = cc
shorter-without m (x ∷ xs) h = ground (arith, length-without m xs, shorter-without m xs)

is_seen-without :
    (m k : ℕ) (xs : List ℕ) → (m == k) ≡ false → is_seen m (without k xs) ≡ is_seen m xs
unfolding without
is_seen-without m k [] ne = refl
is_seen-without m k (x ∷ xs) ne = ground (arith, is_seen-without m k xs ne)

-- Fewer numbers than n leave a number below n out.
unseen : (n : ℕ) (xs : List ℕ) → length xs < n → (m : ℕ) × (m < n) × (is_seen m xs ≡ false)
unseen zero xs h = absurd (omega arith)
unseen (suc n) xs h = elim (Bool-cases (is_seen n xs)) [
  | inr new ↦ (n, omega arith, new)
  | inl old ↦
      let (m, lt, new) = unseen n (without n xs) (omega (arith, shorter-without n xs old)) in
      let other : (m == n) ≡ false = ground arith in
      (m, omega arith, sym (is_seen-without m n xs other) ∙ new)
]

-- Every number below the total is drawn again, wherever the draws are.
abbrev pub IsFair : (ℕ → ℕ) → ℕ → Type 0
IsFair draw total = (m k : ℕ) → m < total → (j : ℕ) × (draw (k + j) ≡ m)

-- With some fuel the loop ends.
abbrev Ends : (ℕ → ℕ) → ℕ → ℕ → List ℕ → Type 0
Ends draw half k seen =
    (fuel : ℕ) × (r : List ℕ × List ℕ) × (draw_loop draw half fuel k seen ≡ some r)

yield-some :
    (seed : ℕ) (o : Option (List ℕ × List ℕ)) (r : List ℕ × List ℕ)
    → o ≡ some r
    → yield seed o ≡ some (seed ∷ r.0, r.1)
unfolding yield
yield-some seed o r e = rw e refl

-- A draw that comes is new, so it is reached by the loop, or an earlier draw was new.
module _ (draw : ℕ → ℕ) (half : ℕ) (seen : List ℕ) (more : ltb (length seen) half ≡ true)
    (next : (k seed : ℕ) → is_seen seed seen ≡ false → Ends draw half k (seed ∷ seen)) where
  Ends-new : (k : ℕ) → is_seen (draw k) seen ≡ false → Ends draw half k seen
  unfolding draw_loop
  Ends-new k new =
      let (fuel, r, e) = next (suc k) (draw k) new in
      (suc fuel, (draw k ∷ r.0, r.1), rw (more, new) (yield-some (draw k) _ r e))

  Ends-within : (j k d : ℕ) → d ≡ k + j → is_seen (draw d) seen ≡ false → Ends draw half k seen
  unfolding draw_loop
  Ends-within zero k d e new = let same : d ≡ k = omega arith in Ends-new k (rw same at new)
  Ends-within (suc j) k d e new = elim (Bool-cases (is_seen (draw k) seen)) [
    | inr first ↦ Ends-new k first
    | inl old ↦
        let (fuel, r, found) = Ends-within j (suc k) d (omega arith) new in
        (suc fuel, r, rw (more, old) found)
  ]

module _ (draw : ℕ → ℕ) (total half : ℕ) (fair : IsFair draw total) (le : half ≤ total) where
  -- While there is more to draw, some draw to come is new.
  Ends-fair :
      (k : ℕ) (seen : List ℕ)
      → ltb (length seen) half ≡ true
      → ((k' seed : ℕ) → is_seen seed seen ≡ false → Ends draw half k' (seed ∷ seen))
      → Ends draw half k seen
  Ends-fair k seen more next =
      let fewer = ltb→lt (length seen) half more in
      let (m, lt, new) = unseen total seen (omega (arith, fewer)) in
      let (j, drawn) = fair m k lt in
      Ends-within draw half seen more next j k (k + j) refl (rw drawn new)

  draw_loop-Ends : (left k : ℕ) (seen : List ℕ) → half ≤ length seen + left → Ends draw half k seen
  unfolding draw_loop
  draw_loop-Ends zero k seen h =
      let done : ltb (length seen) half ≡ false = ground arith in (0, ([], seen), rw done refl)
  draw_loop-Ends (suc left) k seen h = elim (Bool-cases (ltb (length seen) half)) [
    | inr done ↦ (0, ([], seen), rw done refl)
    | inl more ↦
        Ends-fair k seen more λ k' seed new. draw_loop-Ends left k' (seed ∷ seen) (omega arith)
  ]

-- If every draw is below the total, every number below the total is drawn again, wherever the draws
-- are, and shuffling keeps the items, then generating the seeds ends, and what it yields is each
-- number below the total, once, in some order.
pub gen_all_seeds_total :
    (draw : ℕ → ℕ) (shuffle : List ℕ → List ℕ) (total_count : ℕ)
    → ((k : ℕ) → draw k < total_count)
    → ((xs : List ℕ) → SameItems (shuffle xs) xs)
    → IsFair draw total_count
    → (fuel : ℕ) × (seeds : List ℕ) × (gen_all_seeds draw shuffle fuel total_count ≡ some seeds)
      × SameItems seeds (range 0 total_count)
unfolding gen_all_seeds then_remaining
gen_all_seeds_total draw shuffle total lt keeps fair =
    let (fuel, r, drawn) =
      draw_loop-Ends draw total (total / 2) fair (omega arith) (total / 2) 0 [] (omega arith) in
    let made : gen_all_seeds draw shuffle fuel total
        ≡ some (r.0 ++ shuffle (remaining r.1 (range 0 total))) =
      rw drawn refl in
    (
      fuel,
      r.0 ++ shuffle (remaining r.1 (range 0 total)),
      made,
      gen_all_seeds-SameItems draw shuffle fuel total _ lt keeps made,
    )
