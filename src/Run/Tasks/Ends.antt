-- ===== src/Run/Tasks/Ends.antt =====
-- The tasks of `get_task` of main.py before the first one and behind the last one.
use ee_kernel.Base.{
  ◌⊎◌, inl, inr, ℕ, zero, suc, ◌≡◌, refl, sym, ap, ◌∙◌, arith, Option, none, some, List, [], ◌∷◌,
  map, length, get_elem?,
}
use ee_kernel.Base.Iterators.{Drains, Takes, stops}
use ee_kernel.Run.Tasks.{Feeding, Task, feeding}
use ee_kernel.Run.Tasks.Handed.{live, seeds_for, Stands, IsFed}

live-fresh : {It : Type 0} (start : List It) → live (map some start) ≡ length start
unfolding live
live-fresh [] = refl
live-fresh (it ∷ its) = ap suc (live-fresh its)

length-map-some : {It : Type 0} (start : List It) → length (map some start) ≡ length start
length-map-some [] = refl
length-map-some (it ∷ its) = ap suc (length-map-some its)

get-map-some :
    {It : Type 0} (start : List It) (p : ℕ) (first : It)
    → get_elem? start p ≡ some first
    → get_elem? (map some start) p ≡ some (some first)
get-map-some [] p first e = cc
get-map-some (it ∷ its) zero first e = ap some e
get-map-some (it ∷ its) (suc p) first e = get-map-some its p first e

-- Before the first task
pub IsFed-feeding :
    {It : Type 0} (next_seed : It → Option (ℕ × It)) (start : List It)
    → IsFed next_seed start (feeding start) []
unfolding feeding seeds_for
IsFed-feeding next_seed start = record {
  same_length = length-map-some start;
  stands = λ p first e. rw (get-map-some start p first e) stops;
  no_others = λ p le. refl;
  remaining = sym (live-fresh start);
  index = λ h. h;
}

no_live :
    {It : Type 0} (its : List (Option It)) (p : ℕ) (it : It)
    → live its ≡ 0
    → get_elem? its p ≡ some (some it)
    → ⊥
unfolding live
no_live [] p it none_left e = cc
no_live (none ∷ its) zero it none_left e = cc
no_live (none ∷ its) (suc p) it none_left e = no_live its p it none_left e
no_live (some i ∷ its) p it none_left e = absurd (omega (arith, none_left))

-- An iterator has ended, or it goes on, and its seeds are those handed out.
pub IsFed-Takes :
    {It : Type 0} (next_seed : It → Option (ℕ × It)) (start : List It) (f : Feeding It)
    (log : List Task) (p : ℕ) (first : It)
    → IsFed next_seed start f log
    → get_elem? start p ≡ some first
    → Drains next_seed first (seeds_for p log)
      ⊎ ((it : It) × Takes next_seed first (seeds_for p log) it)
IsFed-Takes {It} next_seed start f log p first fed e =
    stands_as (get_elem? f.seed_iterators p) (fed.stands p first e)
  where
    stands_as :
        (o : Option (Option It))
        → Stands next_seed first o (seeds_for p log)
        → Drains next_seed first (seeds_for p log)
          ⊎ ((it : It) × Takes next_seed first (seeds_for p log) it)
    stands_as none h = absurd h
    stands_as (some none) h = inl h
    stands_as (some (some it)) h = inr (it, h)

-- When no iterator is left, every iterator has given all that it has.
pub IsFed-Drains :
    {It : Type 0} (next_seed : It → Option (ℕ × It)) (start : List It) (f : Feeding It)
    (log : List Task) (p : ℕ) (first : It)
    → IsFed next_seed start f log
    → f.seed_iterators_remaining ≡ 0
    → get_elem? start p ≡ some first
    → Drains next_seed first (seeds_for p log)
IsFed-Drains {It} next_seed start f log p first fed none_left e =
    ended (get_elem? f.seed_iterators p) refl (fed.stands p first e)
  where
    ended :
        (o : Option (Option It))
        → get_elem? f.seed_iterators p ≡ o
        → Stands next_seed first o (seeds_for p log)
        → Drains next_seed first (seeds_for p log)
    ended none at h = absurd h
    ended (some none) at h = h
    ended (some (some it)) at h =
        absurd (no_live f.seed_iterators p it (sym fed.remaining ∙ none_left) at)
