-- ===== src/Perm/Shuffle/Covers.antt =====
-- `_shuffle` of perm/perm.py and the rearrangements of a list.
use ee_kernel.Base.{
  ℕ, zero, suc, ◌+◌, ◌*◌, ◌/◌, ◌%◌, ◌<◌, ◌≡◌, ◌↔◌, subst, refl, sym, ap, ◌∙◌, List, [], ◌∷◌, some,
  arith, length, get_elem?, get_elem?-some, erase_idx, length-erase_idx,
}
use ee_kernel.Base.Digits.{digit_rest, digit_bound}
use ee_kernel.Base.Count.{
  Eq, count, SameItems, count-erase_idx, index_of_count, nil_of_count, count_self,
}
use ee_kernel.Perm.Shuffle.{shuffle, shuffle_loop, factorial}

pub factorial_pos : (n : ℕ) → 0 < factorial n
unfolding factorial
factorial_pos zero = omega arith
factorial_pos (suc n) = grind (arith, factorial_pos n)

pub factorial-suc : (n : ℕ) → factorial (suc n) ≡ suc n * factorial n
unfolding factorial
factorial-suc n = refl

shuffle_loop-zero {ℓ} : {A : Type ℓ} (xs : List A) (seed : ℕ) → shuffle_loop zero xs seed ≡ []
unfolding shuffle_loop
shuffle_loop-zero xs seed = refl

-- One round, when the index is known.
pub shuffle_loop_step {ℓ} :
    {A : Type ℓ} (n : ℕ) (xs : List A) (seed : ℕ) (x : A)
    → get_elem? xs (seed % length xs) ≡ some x
    → shuffle_loop (suc n) xs seed
      ≡ x ∷ shuffle_loop n (erase_idx xs (seed % length xs)) (seed / length xs)
unfolding shuffle_loop
shuffle_loop_step n xs seed x h = rw (h, shuffle_loop)

-- The same with the digit and the rest of the seed under other names.
round {ℓ} :
    {A : Type ℓ} (n : ℕ) (xs : List A) (seed i rest : ℕ) (x : A)
    → seed % length xs ≡ i
    → seed / length xs ≡ rest
    → get_elem? xs i ≡ some x
    → shuffle_loop (suc n) xs seed ≡ x ∷ shuffle_loop n (erase_idx xs i) rest
round n xs seed i rest x p q h = cc (p, q, shuffle_loop_step n xs seed x (rw p h))

module _ {ℓ} {A : Type ℓ} ⦃e : Eq A⦄ where
  shuffle_loop-SameItems :
      (n : ℕ) (xs : List A) (seed : ℕ) → length xs ≡ n → SameItems (shuffle_loop n xs seed) xs
  unfolding count
  shuffle_loop-SameItems zero [] seed h a = ap (count a) (shuffle_loop-zero [] seed)
  shuffle_loop-SameItems zero (x ∷ xs) seed h a = absurd (omega arith)
  shuffle_loop-SameItems (suc n) xs seed h a =
      let i = seed % length xs in
      let (x, at) = get_elem?-some xs i (omega arith) in
      let shorter : length (erase_idx xs i) ≡ n =
        omega (arith, length-erase_idx xs i (omega arith)) in
      let ih = shuffle_loop-SameItems n (erase_idx xs i) (seed / length xs) shorter a in
      let first = ap (count a) (shuffle_loop_step n xs seed x at) in
      omega (arith, first, ih, count-erase_idx a xs i x at)

  reach :
      (n : ℕ) (xs ys : List A)
      → length xs ≡ n
      → SameItems ys xs
      → (seed : ℕ) × (seed < factorial n) × (shuffle_loop n xs seed ≡ ys)
  unfolding count
  reach zero [] ys h same =
      (0, factorial_pos zero, unfold shuffle_loop in sym (nil_of_count ys same))
  reach zero (x ∷ xs) ys h same = absurd (omega arith)
  reach (suc n) [] ys h same = absurd (omega arith)
  reach (suc n) (x ∷ xs) [] h same = absurd (omega (arith, same x, count_self x xs))
  reach (suc n) (x ∷ xs) (y ∷ ys) h same =
      let items = x ∷ xs in
      let (i, lt, at) = index_of_count y items (omega (arith, same y, count_self y ys)) in
      let fewer = erase_idx items i in
      let (s, small, eq) =
        reach n fewer ys (omega (arith, length-erase_idx items i lt)) (rest_same i at) in
      let (p, q) = digit_rest i s (length items) lt in
      (
        i + s * length items,
        rw (h, factorial-suc n) (digit_bound i s (suc n) (factorial n) (rw h at lt) small),
        round n items (i + s * length items) i s y p q at ∙ ap (λ l. y ∷ l) eq,
      )
    where
      rest_same : (i : ℕ) → get_elem? (x ∷ xs) i ≡ some y → SameItems ys (erase_idx (x ∷ xs) i)
      rest_same i at a = omega (arith, same a, count-erase_idx a (x ∷ xs) i y at)

  pub shuffle-SameItems : (xs : List A) (seed : ℕ) → SameItems (shuffle xs seed) xs
  unfolding shuffle
  shuffle-SameItems xs seed = shuffle_loop-SameItems (length xs) xs seed refl

  -- The orders that the seeds below n! give to n items are exactly the rearrangements of the items.
  pub shuffle_covers :
      (xs ys : List A)
      → SameItems ys xs ↔ ((seed : ℕ) × (seed < factorial (length xs)) × (shuffle xs seed ≡ ys))
  unfolding shuffle
  shuffle_covers xs ys = (
    reach (length xs) xs ys refl,
    λ (seed, lt, e). subst (λ zs. SameItems zs xs) e (shuffle-SameItems xs seed),
  )
