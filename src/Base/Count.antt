-- ===== src/Base/Count.antt =====
-- How often an item stands in a list, for types with a test of equality.
use ee_kernel.Base.{
  ap, ◌&&◌, ◌==◌, ==_iff, Text, text_eq, text_eq_iff, ℕ, zero, suc, ◌+◌, ◌<◌, ◌≡◌, refl, ◌↔◌, Bool,
  true, List, [], ◌∷◌, ◌++◌, some, arith, if◌then◌else◌, length, get_elem?, erase_idx, Bool-cases,
  inl, inr,
}

-- Equality as the program tests it.
pub record Eq {ℓ} (A : Type ℓ) : Type ℓ where
  pub beq : A → A → Bool
  pub beq_iff : (a b : A) → (beq a b ≡ true) ↔ (a ≡ b)

instance abbrev pub text_has_eq : Eq Text
text_has_eq = record { beq = text_eq; beq_iff = text_eq_iff }

module _ {ℓ} {A : Type ℓ} ⦃e : Eq A⦄ where
  unfoldable pub count : A → List A → ℕ
  count a [] = 0
  count a (x ∷ xs) = (if e.beq a x then 1 else 0) + count a xs

  -- The same items, as often: a rearrangement.
  abbrev pub SameItems : List A → List A → Type ℓ
  SameItems xs ys = (a : A) → count a xs ≡ count a ys

  pub count-append : (a : A) (xs ys : List A) → count a (xs ++ ys) ≡ count a xs + count a ys
  unfolding count
  count-append a [] ys = omega arith
  count-append a (x ∷ xs) ys = omega (arith, count-append a xs ys)

  -- Taking an item out of its place.
  pub count-erase_idx :
      (a : A) (xs : List A) (i : ℕ) (x : A)
      → get_elem? xs i ≡ some x
      → count a xs ≡ (if e.beq a x then 1 else 0) + count a (erase_idx xs i)
  unfolding count
  count-erase_idx a [] i x h = cc
  count-erase_idx a (y ∷ xs) zero x h = ground arith
  count-erase_idx a (y ∷ xs) (suc i) x h = omega (arith, count-erase_idx a xs i x h)

  -- What is counted is found.
  pub index_of_count :
      (a : A) (xs : List A) → 0 < count a xs → (i : ℕ) × (i < length xs) × (get_elem? xs i ≡ some a)
  unfolding count
  index_of_count a [] h = absurd (omega arith)
  index_of_count a (x ∷ xs) h = elim (Bool-cases (e.beq a x)) [
    | inl same ↦ (0, omega arith, ground (arith, e.beq_iff a x))
    | inr other ↦ let (i, lt, at) = index_of_count a xs (ground arith) in (suc i, omega arith, at)
  ]

  pub count_self : (a : A) (xs : List A) → 0 < count a (a ∷ xs)
  unfolding count
  count_self a xs = ground (arith, e.beq_iff a a)

  pub nil_of_count : (xs : List A) → SameItems xs [] → xs ≡ []
  nil_of_count [] h = refl
  nil_of_count (x ∷ xs) h = absurd (omega (arith, h x, count_self x xs, count_nil x))
    where
      count_nil : (a : A) → count a [] ≡ 0
      count_nil a = unfold count in refl

instance abbrev pub nat_has_eq : Eq ℕ
nat_has_eq = record { beq = ◌==◌; beq_iff = ==_iff }

pub pair_eq : ℕ × ℕ → ℕ × ℕ → Bool
pair_eq (a, b) (c, d) = (a == c) && (b == d)

pub pair_eq_iff : (p q : ℕ × ℕ) → (pair_eq p q ≡ true) ↔ (p ≡ q)
unfolding pair_eq
pair_eq_iff (a, b) (c, d) = (
  (λ h. ground (arith, h, ==_iff a c, ==_iff b d)),
  λ e.
      let first : a ≡ c = ap (λ (p : ℕ × ℕ). p.0) e in
      let second : b ≡ d = ap (λ (p : ℕ × ℕ). p.1) e in
      ground (arith, first, second, ==_iff a c, ==_iff b d),
)

instance abbrev pub pair_has_eq : Eq (ℕ × ℕ)
pair_has_eq = record { beq = pair_eq; beq_iff = pair_eq_iff }
