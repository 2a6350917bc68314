-- ===== src/Perm/Root/Choices.antt =====
-- The root's evaluation: the choices for all keys, then a variation of the tree under them.
use ee_kernel.Base.{
  get_elem?-some, text_eq, text_eq_iff, subst, false, ℕ, ◌+◌, ◌*◌, ◌/◌, ◌%◌, ◌<◌, ◌≡◌, refl, arith,
  some, Dict, lookup, insert, Text, List, [], ◌∷◌, length, get_elem?, ok, ◌==◌, Bool-cases, inl,
  inr, >>=-eq-ok,
}
use ee_kernel.Base.Digits.{rest_bound, low_bound, digit_bound}
use ee_kernel.Base.Outcome.{Outcome, returns, Outcome-bind, Outcome-imp}
use ee_kernel.Perm.Tree.{Perm, perm_count}
use ee_kernel.Perm.State.{EvalState}
use ee_kernel.Perm.Keys.{HasKey, HasKey-insert, HasKey-insert_self, HasChoices, HasChoices-imp}
use ee_kernel.Perm.Root.Preprocess.{preprocess-HasChoices, HaveOptions, preprocess-HaveOptions}
use ee_kernel.Perm.Variation.{Variation}
use ee_kernel.Perm.Sound.{IsUndefinedVar, evaluate-Outcome, divmod-ok}
use ee_kernel.Perm.Complete.{IsPositive, perm_count_pos, mul_pos, reach, divmod-digit}
use ee_kernel.Perm.Root.{
  OnceOptions, preprocess, RootPerm, count_options, make_root, pick, choose, evaluate_root,
}

-- One of the options of each key is chosen, in the order of the keys.
pub data Chosen : OnceOptions → Dict ℕ → Dict ℕ → Type 0 where
  all_chosen : {choices : Dict ℕ} → Chosen [] choices choices
  choice :
      {key : Text} {options : List ℕ} {rest : OnceOptions} {i id : ℕ} {choices choices' : Dict ℕ}
      → i < length options
      → get_elem? options i ≡ some id
      → Chosen rest (insert key id choices) choices'
      → Chosen ((key, options) ∷ rest) choices choices'

-- A choice for every key, and a variation of the tree under those choices.
abbrev pub RootVariation : RootPerm → EvalState → Text → EvalState → Type 0
RootVariation root s t s' =
    (choices : Dict ℕ) × Chosen root.once_options s.once_choices choices
    × Variation root.inner (record s { once_choices = choices }) t s'

Chosen-keeps :
    {o : OnceOptions} {c c' : Dict ℕ} (k : Text) → Chosen o c c' → HasKey k c → HasKey k c'
Chosen-keeps k all_chosen h = h
Chosen-keeps k (choice {key} {id = id} {choices = c} lt at rest) h =
    Chosen-keeps k rest (HasKey-insert k key id c h)

no_key : (k : Text) → HasKey {V = List ℕ} k [] → ⊥
unfolding lookup
no_key k h = cc (h.1)

pick-some : (options : List ℕ) (i id : ℕ) → get_elem? options i ≡ some id → pick options i ≡ ok id
unfolding pick
pick-some options i id at = rw (at, pick)

skip-key :
    (key k : Text) (options : List ℕ) (rest : OnceOptions) (v : List ℕ)
    → text_eq key k ≡ false
    → lookup k ((key, options) ∷ rest) ≡ some v
    → lookup k rest ≡ some v
unfolding lookup
skip-key key k options rest v other found = rw other at found

-- Every key that has options has a choice.
Chosen-HasKey :
    {o : OnceOptions} {c c' : Dict ℕ} (k : Text) → Chosen o c c' → HasKey k o → HasKey k c'
Chosen-HasKey k all_chosen h = absurd (no_key k h)
Chosen-HasKey k (choice {key} {options = options} {rest = o} {id = id} {choices = c} lt at rest) h =
    elim (Bool-cases (text_eq key k)) [
      | inl same ↦ Chosen-keeps k rest (
          subst (λ j. HasKey j (insert key id c)) ((text_eq_iff key k).0 same)
            (HasKey-insert_self key id c))
      | inr other ↦ Chosen-HasKey k rest (h.0, further other)
    ]
  where
    further : text_eq key k ≡ false → lookup k o ≡ some h.0
    further other = skip-key key k options o h.0 other h.1

root_product : OnceOptions → ℕ
root_product [] = 1
root_product ((key, options) ∷ rest) = length options * root_product rest

count_options-product :
    (o : OnceOptions) (n m : ℕ) → count_options o n ≡ ok m → m ≡ root_product o * n
unfolding count_options root_product
count_options-product [] n m h = ground arith
count_options-product ((key, options) ∷ rest) n m h = elim (Bool-cases (length options == 1)) [
  | inl single ↦ cc (rw single at h)
  | inr several ↦ omega (arith, count_options-product rest (n * length options) m (rw several at h))
]

choose-Outcome :
    (o : OnceOptions) (seed n : ℕ) (c : Dict ℕ)
    → seed < root_product o * n
    → Outcome (λ (seed', c'). (seed' < n) × Chosen o c c') IsUndefinedVar (choose o seed c)
unfolding choose root_product
choose-Outcome [] seed n c lt = returns (omega arith, all_chosen)
choose-Outcome ((key, options) ∷ rest) seed n c lt =
    let lt' : seed < length options * (root_product rest * n) = omega arith in
    let (id, at) = get_elem?-some options (seed % length options) (low_bound seed _ _ lt') in
    rw (divmod-ok seed (length options) (root_product rest * n) lt') (
      rw (pick-some options _ id at) (
        Outcome-imp (λ _ r. (r.0, choice (low_bound seed _ _ lt') at r.1))
          (choose-Outcome rest (seed / length options) n (insert key id c)
            (rest_bound seed _ _ lt'))))

choose-reaches :
    {o : OnceOptions} {c c' : Dict ℕ} (n m : ℕ)
    → Chosen o c c'
    → m < n
    → (seed : ℕ) × (seed < root_product o * n) × (choose o seed c ≡ ok (m, c'))
unfolding choose root_product
choose-reaches n m all_chosen lt = (m, omega arith, refl)
choose-reaches n m (choice {options = options} {rest} {i} {id} lt' at chosen) lt =
    let (seed, below, e) = choose-reaches n m chosen lt in
    (
      i + seed * length options,
      omega (arith, digit_bound i seed (length options) (root_product rest * n) lt' below),
      simp (divmod-digit i seed (length options) lt', pick-some options i id at) e,
    )

make_root-fields :
    (p : Perm) (root : RootPerm)
    → make_root p ≡ ok root
    → (root.inner ≡ p)
      × (root.once_options ≡ preprocess p [])
      × (root.root_count ≡ root_product (preprocess p []) * perm_count p)
unfolding make_root
make_root-fields p root h =
    let (n, e, e') = >>=-eq-ok (count_options (preprocess p []) (perm_count p)) _ h in
    let product = count_options-product (preprocess p []) (perm_count p) n e in (cc, cc, cc)

root_product_pos : (o : OnceOptions) → HaveOptions o → 0 < root_product o
unfolding root_product
root_product_pos [] h = omega arith
root_product_pos ((key, options) ∷ rest) h =
    mul_pos (length options) (root_product rest) h.0 (root_product_pos rest h.1)

module _ (p : Perm) (root : RootPerm) (made : make_root p ≡ ok root) where
  pub root_count_pos : IsPositive p → 0 < root.root_count
  root_count_pos pos =
      rw ((make_root-fields p root made).2)
        (mul_pos _ _ (root_product_pos _ (preprocess-HaveOptions p)) (perm_count_pos p pos))

  -- An in-range seed of the root chooses once for each key and gives a variation.
  pub evaluate_root-Outcome :
      (seed : ℕ) (s : EvalState)
      → seed < root.root_count
      → Outcome (λ (t, s'). RootVariation root s t s') IsUndefinedVar (evaluate_root root seed s)
  unfolding evaluate_root
  evaluate_root-Outcome seed s lt =
      let (tree, options, count) = make_root-fields p root made in
      Outcome-bind
        (choose-Outcome root.once_options seed (perm_count root.inner) s.once_choices
          (simp (options, tree) (rw count at lt)))
        λ (seed', choices) r.
          Outcome-imp (λ _ v. (choices, r.1, v))
            (evaluate-Outcome root.inner seed' (record s { once_choices = choices }) r.0
              (keys choices r.1))
    where
      keys :
          (choices : Dict ℕ)
          → Chosen root.once_options s.once_choices choices
          → HasChoices root.inner choices
      keys choices chosen =
          let (tree, options, count) = make_root-fields p root made in
          HasChoices-imp root.once_options choices (λ k. Chosen-HasKey k chosen) root.inner
            (rw (tree, options) (preprocess-HasChoices p []))

  pub evaluate_root-reaches :
      (s : EvalState) (t : Text) (s' : EvalState)
      → IsPositive p
      → RootVariation root s t s'
      → (seed : ℕ) × (seed < root.root_count) × (evaluate_root root seed s ≡ ok (t, s'))
  unfolding evaluate_root
  evaluate_root-reaches s t s' pos (choices, chosen, v) =
      let (tree, options, count) = make_root-fields p root made in
      let (n, lt, e) = reach v (rw tree pos) in
      let (seed, below, e') = choose-reaches (perm_count root.inner) n chosen lt in
      (seed, rw count (simp (options, tree) at below), simp e' e)
