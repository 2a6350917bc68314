-- ===== src/Scorer/Moves.antt =====
-- The two counters of scorer.py: moved, inserted and deleted rows.
use ee_kernel.Base.{
  ℕ, ◌+◌, ◌≤◌, ◌≡◌, refl, ◌∙◌, arith, Text, text_eq, text_eq_iff, text_eq_refl, List, [], ◌∷◌, ◌++◌,
  ltb, length, if◌then◌else◌,
}
use ee_kernel.Base.Count.{count, SameItems, count-append, text_has_eq}
use ee_kernel.Scorer.Diff.{remove, keys, count_moves, moves}

sum_over : List Text → (Text → ℕ) → ℕ
sum_over [] f = 0
sum_over (x ∷ xs) f = f x + sum_over xs f

count-remove :
    (a t : Text) (xs : List Text) → count a (remove t xs) ≡ (if text_eq a t then 0 else count a xs)
unfolding count remove
count-remove a t [] = ground arith
count-remove a t (x ∷ xs) =
    ground (arith, count-remove a t xs, text_eq_iff a t, text_eq_iff t x, text_eq_iff a x)

-- A key stands once in the keys, and what is no item not at all.
count-keys : (a : Text) (xs : List Text) → count a (keys xs) ≡ (if ltb 0 (count a xs) then 1 else 0)
unfolding count keys
count-keys a [] = refl
count-keys a (x ∷ xs) = ground (arith, count-remove a x (keys xs), count-keys a xs)

sum_over-add :
    (K : List Text) (f g h : Text → ℕ)
    → ((x : Text) → f x ≡ g x + h x)
    → sum_over K f ≡ sum_over K g + sum_over K h
unfolding sum_over
sum_over-add [] f g h e = omega arith
sum_over-add (x ∷ K) f g h e = omega (arith, e x, sum_over-add K f g h e)

sum_over-zero : (K : List Text) → sum_over K (λ k. count k []) ≡ 0
unfolding sum_over count
sum_over-zero [] = refl
sum_over-zero (x ∷ K) = omega (arith, sum_over-zero K)

text_eq_comm : (s t : Text) → text_eq s t ≡ text_eq t s
text_eq_comm s t = ground (arith, text_eq_iff s t, text_eq_iff t s)

sum_over-one :
    (K : List Text) (x : Text) → sum_over K (λ k. if text_eq k x then 1 else 0) ≡ count x K
unfolding sum_over count
sum_over-one [] x = refl
sum_over-one (k ∷ K) x = ground (arith, sum_over-one K x, text_eq_comm k x)

count-cons :
    (a x : Text) (xs : List Text) → count a (x ∷ xs) ≡ (if text_eq a x then 1 else 0) + count a xs
unfolding count
count-cons a x xs = refl

present : (x : Text) (xs l : List Text) → count x (x ∷ xs) ≤ count x l → count x (keys l) ≡ 1
present x xs l h = ground (arith, count-keys x l, count-cons x x xs, text_eq_refl x)

-- Counting each item for each key is counting each key for each item.
sum_over_swap : (K xs : List Text) → sum_over K (λ k. count k xs) ≡ sum_over xs (λ x. count x K)
unfolding sum_over
sum_over_swap K [] = sum_over-zero K
sum_over_swap K (x ∷ xs) = omega (
  arith,
  sum_over_swap K xs,
  sum_over-one K x,
  sum_over-add K (λ k. count k (x ∷ xs)) (λ k. if text_eq k x then 1 else 0) (λ k. count k xs)
      (λ k. count-cons k x xs),
)

sum_over-length :
    (xs l : List Text)
    → ((a : Text) → count a xs ≤ count a l)
    → sum_over xs (λ x. count x (keys l)) ≡ length xs
unfolding sum_over
sum_over-length [] l h = refl
sum_over-length (x ∷ xs) l h =
    omega (
      arith,
      present x xs l (h x),
      sum_over-length xs l (λ a. omega (arith, h a, count-cons a x xs)),
    )

-- The totals of the loop over the items.
totals :
    (ins dels K : List Text)
    → ((count_moves ins dels K).insertion + (count_moves ins dels K).reordering
        ≡ sum_over K (λ k. count k ins))
      × ((count_moves ins dels K).deletion + (count_moves ins dels K).reordering
          ≡ sum_over K (λ k. count k dels))
unfolding count_moves sum_over
totals ins dels [] = (refl, refl)
totals ins dels (k ∷ K) = let ih = totals ins dels K in (omega (arith, ih.0), omega (arith, ih.1))

-- Every inserted row is counted once, as moved or as new, and every deleted row once, as moved
-- or as gone.
pub moves_account :
    (ins dels : List Text)
    → ((moves ins dels).insertion + (moves ins dels).reordering ≡ length ins)
      × ((moves ins dels).deletion + (moves ins dels).reordering ≡ length dels)
unfolding moves
moves_account ins dels =
    let K = keys (ins ++ dels) in
    let sums = totals ins dels K in
    (
      sums.0
          ∙ sum_over_swap K ins
          ∙ sum_over-length ins (ins ++ dels) (λ a. omega (arith, count-append a ins dels)),
      sums.1
          ∙ sum_over_swap K dels
          ∙ sum_over-length dels (ins ++ dels) (λ a. omega (arith, count-append a ins dels)),
    )

only_moved :
    (ins dels K : List Text)
    → SameItems ins dels
    → ((count_moves ins dels K).insertion ≡ 0) × ((count_moves ins dels K).deletion ≡ 0)
unfolding count_moves
only_moved ins dels [] same = (refl, refl)
only_moved ins dels (k ∷ K) same =
    let ih = only_moved ins dels K same in
    (omega (arith, ih.0, same k), omega (arith, ih.1, same k))

-- If the deleted rows are the inserted ones in another order, each is a reordering.
pub moves-SameItems :
    (ins dels : List Text)
    → SameItems ins dels
    → ((moves ins dels).insertion ≡ 0)
      × ((moves ins dels).deletion ≡ 0)
      × ((moves ins dels).reordering ≡ length ins)
moves-SameItems ins dels same =
    let none : ((moves ins dels).insertion ≡ 0) × ((moves ins dels).deletion ≡ 0) =
      unfold moves in only_moved ins dels (keys (ins ++ dels)) same in
    (none.0, none.1, omega (arith, none.0, (moves_account ins dels).0))
