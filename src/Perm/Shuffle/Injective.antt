-- ===== src/Perm/Shuffle/Injective.antt =====
-- `_shuffle` of perm/perm.py on lists of distinct items.
use ee_kernel.Base.Digits.{rest_bound, by_digits}
use ee_kernel.Base.{
  get_elem?-some, ℕ, zero, suc, ◌*◌, ◌/◌, ◌%◌, ◌<◌, ◌≡◌, ◌≢◌, refl, sym, ap, subst, ◌∙◌, List, [],
  ◌∷◌, some, arith, length, get_elem?, erase_idx, length-erase_idx, All,
}
use ee_kernel.Perm.Shuffle.{shuffle, shuffle_loop, factorial}
use ee_kernel.Perm.Shuffle.Covers.{shuffle_loop_step, factorial-suc}

module _ {ℓ} {A : Type ℓ} where
  -- No item stands twice in the list.
  abbrev pub Distinct : List A → Type ℓ
  Distinct [] = Unit
  Distinct (x ∷ xs) = All (λ y. x ≢ y) xs × Distinct xs

  All-erase_idx {κ} : (P : A → Type κ) (xs : List A) (i : ℕ) → All P xs → All P (erase_idx xs i)
  All-erase_idx P [] i h = tt
  All-erase_idx P (x ∷ xs) zero h = h.1
  All-erase_idx P (x ∷ xs) (suc i) h = (h.0, All-erase_idx P xs i h.1)

  Distinct-erase_idx : (xs : List A) (i : ℕ) → Distinct xs → Distinct (erase_idx xs i)
  Distinct-erase_idx [] i d = tt
  Distinct-erase_idx (x ∷ xs) zero d = d.1
  Distinct-erase_idx (x ∷ xs) (suc i) d =
      (All-erase_idx (λ y. x ≢ y) xs i d.0, Distinct-erase_idx xs i d.1)

  All-get_elem? {κ} :
      (P : A → Type κ) (xs : List A) (i : ℕ) (y : A) → All P xs → get_elem? xs i ≡ some y → P y
  All-get_elem? P [] i y h e = cc
  All-get_elem? P (x ∷ xs) zero y h e = subst P (cc) h.0
  All-get_elem? P (x ∷ xs) (suc i) y h e = All-get_elem? P xs i y h.1 e

  same_place :
      (xs : List A) (i j : ℕ) (y : A)
      → Distinct xs
      → get_elem? xs i ≡ some y
      → get_elem? xs j ≡ some y
      → i ≡ j
  same_place [] i j y d p q = cc
  same_place (x ∷ xs) zero zero y d p q = refl
  same_place (x ∷ xs) zero (suc j) y d p q = absurd (All-get_elem? (λ z. x ≢ z) xs j y d.0 q (cc))
  same_place (x ∷ xs) (suc i) zero y d p q = absurd (All-get_elem? (λ z. x ≢ z) xs i y d.0 p (cc))
  same_place (x ∷ xs) (suc i) (suc j) y d p q = ap suc (same_place xs i j y d.1 p q)

  same_seed :
      (n : ℕ) (xs : List A) (s t : ℕ)
      → length xs ≡ n
      → Distinct xs
      → s < factorial n
      → t < factorial n
      → shuffle_loop n xs s ≡ shuffle_loop n xs t
      → s ≡ t
  same_seed zero xs s t h d ls lt e = unfold factorial in omega arith
  same_seed (suc n) xs s t h d ls lt e =
      let i = s % length xs in
      let j = t % length xs in
      let (x, at_i) = get_elem?-some xs i (omega arith) in
      let (y, at_j) = get_elem?-some xs j (omega arith) in
      let orders = sym (shuffle_loop_step n xs s x at_i) ∙ e ∙ shuffle_loop_step n xs t y at_j in
      let places : i ≡ j = same_place xs i j x d at_i (cc orders) in
      let rests : s / length xs ≡ t / length xs =
        same_seed n (erase_idx xs i) (s / length xs) (t / length xs)
          (omega (arith, length-erase_idx xs i (omega arith))) (Distinct-erase_idx xs i d)
          (rest_bound s (length xs) (factorial n) (below s ls))
          (rest_bound t (length xs) (factorial n) (below t lt)) (cc (orders, places)) in
      by_digits (length xs) s t places rests
    where
      below : (u : ℕ) → u < factorial (suc n) → u < length xs * factorial n
      below u lu = rw (h, ← factorial-suc n) lu

  -- Two different seeds below n! put n distinct items in different orders.
  pub shuffle-injective :
      (xs : List A) (s t : ℕ)
      → Distinct xs
      → s < factorial (length xs)
      → t < factorial (length xs)
      → s ≢ t
      → shuffle xs s ≢ shuffle xs t
  unfolding shuffle
  shuffle-injective xs s t d ls lt ne e = ne (same_seed (length xs) xs s t refl d ls lt e)
