-- ===== src/Run/Cycle/Turns.antt =====
-- The turns of `cycle_seeds` of main.py, and the items that it yields on the whole.
use mathlib.Core.Option.{some-injective}
use ee_kernel.Base.{
  ℕ, zero, suc, ◌+◌, ◌≤◌, ◌<◌, ◌≡◌, refl, sym, ap, ◌∙◌, ◌⊎◌, inl, inr, arith, Option-cases, Option,
  none, some, List, [], ◌∷◌, ◌++◌, length, get_elem?, set_elem, erase_idx, length-erase_idx,
  get_elem?-some, if◌then◌else◌,
}
use ee_kernel.Base.Int.{ℤ, pos, negsuc, minus}
use ee_kernel.Base.Count.{pair_has_eq, pair_eq, count, SameItems, count-append}
use ee_kernel.Base.Iterators.{
  Drains, ends, gives, Drains-none, Drains-some, Along, done, both, Along-get, Along-set,
  Along-erase,
}
use ee_kernel.Run.Cycle.{
  Cycling, index_mod, turn, then_on, next_within, cycle_next, cycle_seeds, enumerate,
}

-- The seeds of one permuter, with its index
unfoldable pub tag : ℕ → List ℕ → List (ℕ × ℕ)
tag p [] = []
tag p (s ∷ ss) = (p, s) ∷ tag p ss

-- All (permuter index, seed) pairs of these lists
unfoldable pub all_pairs : List (ℕ × List ℕ) → List (ℕ × ℕ)
unfolding tag
all_pairs [] = []
all_pairs ((p, ss) ∷ lists) = tag p ss ++ all_pairs lists

-- How many turns are left
turns_of : List (ℕ × List ℕ) → ℕ
turns_of [] = 0
turns_of ((p, ss) ∷ lists) = suc (length ss) + turns_of lists

abbrev one_if : ℕ × ℕ → ℕ × ℕ → ℕ
one_if a b = if pair_eq a b then 1 else 0

pub index_mod-lt : (i : ℤ) (n : ℕ) → 0 < n → index_mod i n < n
unfolding index_mod
index_mod-lt (pos i) n h = omega arith
index_mod-lt (negsuc i) n h = omega arith

set_pairs :
    (a : ℕ × ℕ) (lists : List (ℕ × List ℕ)) (j p s : ℕ) (ss : List ℕ)
    → get_elem? lists j ≡ some (p, s ∷ ss)
    → (count a (all_pairs lists) ≡ one_if a (p, s) + count a (all_pairs (set_elem lists j (p, ss))))
      × (turns_of lists ≡ suc (turns_of (set_elem lists j (p, ss))))
unfolding all_pairs turns_of
set_pairs a [] j p s ss e = cc
set_pairs a ((q, ts) ∷ lists) zero p s ss e =
    let same : (q, ts) ≡ (p, s ∷ ss) = some-injective _ _ e in
    let index : q ≡ p = ap (λ (x : ℕ × List ℕ). x.0) same in
    let items : ts ≡ s ∷ ss = ap (λ (x : ℕ × List ℕ). x.1) same in
    rw (index, items)
      (unfold tag count in omega (arith, count-append a (tag p ss) (all_pairs lists)), omega arith)
set_pairs a ((q, ts) ∷ lists) (suc j) p s ss e =
    let (c, t) = set_pairs a lists j p s ss e in
    (
      omega (
        arith,
        count-append a (tag q ts) (all_pairs lists),
        count-append a (tag q ts) (all_pairs (set_elem lists j (p, ss))),
        c,
      ),
      omega (arith, t),
    )

erase_pairs :
    (a : ℕ × ℕ) (lists : List (ℕ × List ℕ)) (j p : ℕ)
    → get_elem? lists j ≡ some (p, [])
    → (count a (all_pairs lists) ≡ count a (all_pairs (erase_idx lists j)))
      × (turns_of lists ≡ suc (turns_of (erase_idx lists j)))
unfolding all_pairs turns_of
erase_pairs a [] j p e = cc
erase_pairs a ((q, ts) ∷ lists) zero p e =
    let same : (q, ts) ≡ (p, []) = some-injective _ _ e in
    let items : ts ≡ [] = ap (λ (x : ℕ × List ℕ). x.1) same in
    rw items (unfold tag in refl, omega arith)
erase_pairs a ((q, ts) ∷ lists) (suc j) p e =
    let (c, t) = erase_pairs a lists j p e in
    (
      omega (
        arith,
        count-append a (tag q ts) (all_pairs lists),
        count-append a (tag q ts) (all_pairs (erase_idx lists j)),
        c,
      ),
      omega (arith, t),
    )

module _ {It : Type 0} (next_seed : It → Option (ℕ × It)) where
  -- An iterator of cycle_seeds, and the seeds that it still gives
  abbrev pub IsFor : ℕ × It → ℕ × List ℕ → Type 0
  IsFor (p, it) (q, ss) = (p ≡ q) × Drains next_seed it ss

  abbrev Nexts : List (ℕ × List ℕ) → Option ((ℕ × ℕ) × Cycling next_seed) → Type 0
  Nexts lists o =
      ((o ≡ none) × ((a : ℕ × ℕ) → count a (all_pairs lists) ≡ 0))
      ⊎ ((item : ℕ × ℕ) × (state : Cycling next_seed) × (rest : List (ℕ × List ℕ)) × (o
            ≡ some (item, state))
          × Along IsFor state.1 rest
          × ((a : ℕ × ℕ) → count a (all_pairs lists) ≡ one_if a item + count a (all_pairs rest))
          × (turns_of rest < turns_of lists))

  -- The items of the lists are those of the lists without a list that is empty.
  Nexts-erase :
      (lists : List (ℕ × List ℕ)) (j q : ℕ) (ss : List ℕ) (o : Option ((ℕ × ℕ) × Cycling next_seed))
      → get_elem? lists j ≡ some (q, ss)
      → ss ≡ []
      → Nexts (erase_idx lists j) o
      → Nexts lists o
  Nexts-erase lists j q ss o at nil nexts = elim nexts [
    | inl (e, none_left) ↦ inl (e, λ a. (erase_pairs a lists j q (rw nil at at)).0 ∙ none_left a)
    | inr (item, state, rest, e, al, counts, fewer) ↦
        let erased = λ (a : ℕ × ℕ). erase_pairs a lists j q (rw nil at at) in
        inr (
          item,
          state,
          rest,
          e,
          al,
          (λ a. (erased a).0 ∙ counts a),
          omega (arith, (erased item).1, fewer),
        )
  ]

  Nexts-given :
      (its : List (ℕ × It)) (lists : List (ℕ × List ℕ)) (i : ℤ) (j p q s : ℕ) (it' : It)
      (ss rest : List ℕ)
      → Along IsFor its lists
      → get_elem? lists j ≡ some (q, ss)
      → p ≡ q
      → ss ≡ s ∷ rest
      → Drains next_seed it' rest
      → Nexts lists (some ((p, s), (i, set_elem its j (p, it'))))
  Nexts-given its lists i j p q s it' ss rest al at same gives_s drains =
      let at' : get_elem? lists j ≡ some (q, s ∷ rest) = rw gives_s at at in
      let pairs = λ (a : ℕ × ℕ). set_pairs a lists j q s rest at' in
      inr (
        (p, s),
        (i, set_elem its j (p, it')),
        set_elem lists j (q, rest),
        refl,
        Along-set j al (same, drains),
        rw same (λ a. (pairs a).0),
        omega (arith, (pairs (q, s)).1),
      )

  turn-gone :
      (j p : ℕ) (its : List (ℕ × It)) (it : It)
      → get_elem? its j ≡ some (p, it)
      → next_seed it ≡ none
      → turn next_seed j its (get_elem? its j) ≡ inr (minus (pos j) (pos 1), erase_idx its j)
  unfolding turn
  turn-gone j p its it at gone = rw (at, turn, gone) refl

  turn-given :
      (j p s : ℕ) (its : List (ℕ × It)) (it it' : It)
      → get_elem? its j ≡ some (p, it)
      → next_seed it ≡ some (s, it')
      → turn next_seed j its (get_elem? its j)
        ≡ inl (some ((p, s), (pos (suc j), set_elem its j (p, it'))))
  unfolding turn
  turn-given j p s its it it' at given = rw (at, turn, given) refl

  -- A turn at the place of an iterator: it gives its next seed, or it is left out.
  after_turn :
      (n j : ℕ) (its : List (ℕ × It)) (lists : List (ℕ × List ℕ))
      → j < length its
      → Along IsFor its lists
      → ((i : ℤ) (its' : List (ℕ × It)) (lists' : List (ℕ × List ℕ))
          → suc (length its') ≡ length its
          → Along IsFor its' lists'
          → Nexts lists' (next_within next_seed n (i, its')))
      → Nexts lists
          (then_on next_seed (turn next_seed j its (get_elem? its j)) (next_within next_seed n))
  unfolding then_on
  after_turn n j its lists lt al more =
      let ((p, it), at) = get_elem?-some its j lt in
      let ((q, ss), at', belongs) = Along-get j al at in
      let (same, drains) = belongs in
      elim (Option-cases (next_seed it)) [
        | inl gone ↦ rw (turn-gone j p its it at gone) (
            Nexts-erase lists j q ss _ at' (Drains-none drains gone) (
              more (minus (pos j) (pos 1)) (erase_idx its j) (erase_idx lists j)
                (length-erase_idx its j lt) (Along-erase j al)))
        | inr ((s, it'), given) ↦
            let (rest, parts, drains') = Drains-some drains given in
            rw (turn-given j p s its it it' at given)
              (Nexts-given its lists (pos (suc j)) j p q s it' ss rest al at' same parts drains')
      ]

  next_within-Nexts :
      (n : ℕ) (i : ℤ) (its : List (ℕ × It)) (lists : List (ℕ × List ℕ))
      → length its ≡ n
      → Along IsFor its lists
      → Nexts lists (next_within next_seed n (i, its))
  unfolding next_within
  next_within-Nexts n i [] [] e done = inl (refl, λ a. unfold all_pairs count in refl)
  next_within-Nexts n i [] (_ ∷ _) e al = elim al [ ]
  next_within-Nexts zero i (it ∷ its) lists e al = absurd (omega (arith, e))
  next_within-Nexts (suc n) i (it ∷ its) lists e al =
      after_turn n (index_mod i (length (it ∷ its))) (it ∷ its) lists
        (index_mod-lt i (length (it ∷ its)) (omega arith)) al
        λ i' its' lists' l al'. next_within-Nexts n i' its' lists' (omega (arith, l, e)) al'

  count_more :
      (lists rest : List (ℕ × List ℕ)) (item : ℕ × ℕ) (items : List (ℕ × ℕ))
      → ((a : ℕ × ℕ) → count a (all_pairs lists) ≡ one_if a item + count a (all_pairs rest))
      → SameItems items (all_pairs rest)
      → SameItems (item ∷ items) (all_pairs lists)
  unfolding count
  count_more lists rest item items counts same a = omega (arith, counts a, same a)

  -- The iterators of the permuters and the seeds that they still give, whatever i is.
  cycle-Drains :
      (turns : ℕ) (i : ℤ) (its : List (ℕ × It)) (lists : List (ℕ × List ℕ))
      → turns_of lists ≤ turns
      → Along IsFor its lists
      → (items : List (ℕ × ℕ)) × Drains (cycle_next next_seed) (i, its) items
        × SameItems items (all_pairs lists)
  unfolding cycle_next
  cycle-Drains zero i its lists le al = elim (next_within-Nexts (length its) i its lists refl al) [
    | inl (e, none_left) ↦ ([], ends e, λ a. unfold count in sym (none_left a))
    | inr (item, state, rest, e, al', counts, fewer) ↦ absurd (omega (arith, fewer, le))
  ]
  cycle-Drains (suc turns) i its lists le al =
      elim (next_within-Nexts (length its) i its lists refl al) [
        | inl (e, none_left) ↦ ([], ends e, λ a. unfold count in sym (none_left a))
        | inr (item, state, rest, e, al', counts, fewer) ↦
            let (items, drains, same) =
              cycle-Drains turns state.0 state.1 rest (omega (arith, fewer, le)) al' in
            (item ∷ items, gives e drains, count_more lists rest item items counts same)
      ]

enumerate-Along :
    {It : Type 0} (next_seed : It → Option (ℕ × It)) (from : ℕ) (its : List It)
    (lists : List (List ℕ))
    → Along (Drains next_seed) its lists
    → Along (IsFor next_seed) (enumerate from its) (enumerate from lists)
unfolding enumerate
enumerate-Along next_seed from [] [] done = done
enumerate-Along next_seed from [] (_ ∷ _) al = elim al [ ]
enumerate-Along next_seed from (_ ∷ _) [] al = elim al [ ]
enumerate-Along next_seed from (it ∷ its) (ss ∷ lists) (both d al) =
    both (refl, d) (enumerate-Along next_seed (suc from) its lists al)

-- If the seed iterator of every permuter ends, then cycling over the permuters ends, and it yields
-- the pairs of a permuter's index and a seed of that permuter, each as often as the permuter's
-- iterator gives the seed, and nothing else.
pub cycle_seeds-Drains :
    {It : Type 0} (next_seed : It → Option (ℕ × It)) (its : List It) (lists : List (List ℕ))
    → Along (Drains next_seed) its lists
    → (items : List (ℕ × ℕ)) × Drains (cycle_next next_seed) (cycle_seeds next_seed its) items
      × SameItems items (all_pairs (enumerate 0 lists))
unfolding cycle_seeds
cycle_seeds-Drains next_seed its lists al =
    cycle-Drains next_seed (turns_of (enumerate 0 lists)) (pos 0) (enumerate 0 its)
      (enumerate 0 lists) (omega arith) (enumerate-Along next_seed 0 its lists al)
