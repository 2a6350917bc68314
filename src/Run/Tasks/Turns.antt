-- ===== src/Run/Tasks/Turns.antt =====
-- The turns of the loop of `get_task` of main.py, counted over a round of the iterators.
use native.Mathlib.Nat.{mod-eq_of_lt, mod-lt, mod_self}
use mathlib.Core.Option.{some-injective}
use ee_kernel.Base.{
  ℕ, zero, suc, ◌+◌, ◌%◌, ◌≤◌, ◌<◌, ◌≡◌, refl, sym, ap, subst, ◌∙◌, ◌⊎◌, inl, inr, arith,
  Bool-cases, Option, none, some, List, [], ◌∷◌, length, get_elem?, Result, ok, err, ltb, ◌==◌,
  ==_iff, ltb→lt,
}
use ee_kernel.Run.Tasks.{Feeding, Task, advance, then_turn, get_task_of, get_task_any, get_task}
use ee_kernel.Run.Tasks.Handed.{live, logged, IsFed, Takes1, get_task_of-Takes1}

-- A number that is reached within n steps over the numbers below a length.
abbrev IsWithin : ℕ → ℕ → ℕ → ℕ → Type 0
IsWithin n i len p = ((i ≤ p) × (p < i + n)) ⊎ ((p < i) × (p + len < i + n))

module _ {It : Type 0} where
  pub live-none :
      (its : List (Option It))
      → ((p : ℕ) → p < length its → get_elem? its p ≡ some none)
      → live its ≡ 0
  unfolding live
  live-none [] h = refl
  live-none (none ∷ its) h = live-none its λ p lt. h (suc p) (omega arith)
  live-none (some it ∷ its) h = absurd (cc (h 0 (omega arith)))

  -- Every iterator has ended, or its turn comes within n steps.
  abbrev Comes : ℕ → Feeding It → Type 0
  Comes n f =
      (p : ℕ)
      → p < length f.seed_iterators
      → (get_elem? f.seed_iterators p ≡ some none)
        ⊎ IsWithin n f.next_iterator_index (length f.seed_iterators) p

wrapped :
    (i len : ℕ)
    → i < len
    → ((suc i < len) × ((i + 1) % len ≡ suc i)) ⊎ ((suc i ≡ len) × ((i + 1) % len ≡ 0))
wrapped i len lt = elim (Bool-cases (ltb (suc i) len)) [
  | inl below ↦
      let below' = ltb→lt (suc i) len below in
      let next : i + 1 < len = omega (arith, below') in
      inl (below', omega (arith, mod-eq_of_lt next))
  | inr last ↦
      let all : i + 1 ≡ len = ground (arith, last) in
      inr (omega arith, subst (λ n. (i + 1) % n ≡ 0) all (mod_self (i + 1)))
]

-- A step further, the numbers but the one that is left behind are reached in a step less.
IsWithin-step :
    (n i len p : ℕ)
    → i < len
    → p < len
    → IsWithin (suc n) i len p
    → (p ≡ i) ⊎ IsWithin n ((i + 1) % len) len p
IsWithin-step n i len p lt lt' (inl (le, near)) = elim (wrapped i len lt) [
  | inl (more, e) ↦ elim (Bool-cases (p == i)) [
    | inl here ↦ inl ((==_iff p i).0 here)
    | inr there ↦
        let further : suc i ≤ p = ground (arith, there, ==_iff p i) in
        rw e (inr (inl (further, omega arith)))
  ]
  | inr (last, e) ↦ inl (omega arith)
]
IsWithin-step n i len p lt lt' (inr (less, near)) = elim (wrapped i len lt) [
  | inl (more, e) ↦ rw e (inr (inr (omega arith, omega arith)))
  | inr (last, e) ↦ rw e (inr (inl (omega arith, omega arith)))
]

module _ {It : Type 0} (next_seed : It → Option (ℕ × It)) (start : List It) where
  IsFed-advance :
      (f : Feeding It) (log : List Task)
      → IsFed next_seed start f log
      → IsFed next_seed start (advance f) log
  unfolding advance
  IsFed-advance f log fed = record {
    same_length = fed.same_length;
    stands = fed.stands;
    no_others = fed.no_others;
    remaining = fed.remaining;
    index = λ h.
        let same = fed.same_length in
        let len : 0 < length f.seed_iterators = omega (arith, h, same) in
        omega (arith, mod-lt (f.next_iterator_index + 1) len, same);
  }

  Comes-advance :
      (n : ℕ) (f f' : Feeding It)
      → f.next_iterator_index < length f.seed_iterators
      → length f'.seed_iterators ≡ length f.seed_iterators
      → f'.next_iterator_index ≡ f.next_iterator_index
      → ((q : ℕ)
          → get_elem? f.seed_iterators q ≡ some none
          → get_elem? f'.seed_iterators q ≡ some none)
      → get_elem? f'.seed_iterators f.next_iterator_index ≡ some none
      → Comes (suc n) f
      → Comes n (advance f')
  unfolding advance
  Comes-advance n f f' lt len index stays ended comes p lt' =
      elim (comes p (omega (arith, lt', len))) [
        | inl gone ↦ inl (stays p gone)
        | inr near ↦
            elim (IsWithin-step n f.next_iterator_index (length f.seed_iterators) p lt
              (omega (arith, lt', len)) near) [
                | inl here ↦ inl (rw here ended)
                | inr near' ↦ inr (rw (index, len) near')
              ]
      ]

  -- What a call returns, and what it leaves: a task more, or nothing more to hand out.
  abbrev pub Finds : List Task → Feeding It × Result (Option Task) → Type 0
  Finds log (f', r) =
      (o : Option Task) × (r ≡ ok o)
      × IsFed next_seed start f' (logged log o)
      × (o ≡ none → f'.seed_iterators_remaining ≡ 0)

  then_turn-Finds :
      (n : ℕ) (f : Feeding It) (log : List Task) (t : Feeding It × Result (Option Task))
      → f.next_iterator_index < length f.seed_iterators
      → length f.seed_iterators ≡ length start
      → Comes (suc n) f
      → Takes1 next_seed start f log f.next_iterator_index t
      → ((f' : Feeding It)
          → IsFed next_seed start f' log
          → Comes n f'
          → Finds log (get_task_any next_seed n f'))
      → Finds log (then_turn t (get_task_any next_seed n))
  unfolding then_turn
  then_turn-Finds n f log (f', err e) lt len comes (o, e', fed, index, stays, out) more = cc
  then_turn-Finds n f log (f', ok none) lt len comes (o, e', fed, index, stays, inl (gone, ended))
        more =
      let nothing : o ≡ none = gone in
      let fed' : IsFed next_seed start f' log =
        subst (λ o. IsFed next_seed start f' (logged log o)) nothing fed in
      more (advance f') (IsFed-advance f' log fed')
        (Comes-advance n f f' lt (fed'.same_length ∙ sym len) index stays ended comes)
  then_turn-Finds n f log (f', ok none) lt len comes (o, e', fed, index, stays, inr (seed, given))
        more =
      cc
  then_turn-Finds n f log (f', ok (some task)) lt len comes (o, e', fed, index, stays, out) more =
      let same : o ≡ some task = cc e' in
      (
        some task,
        refl,
        subst (λ o. IsFed next_seed start (advance f') (logged log o)) same
            (IsFed-advance f' (logged log o) fed),
        λ e. cc,
      )

  get_task_any-Finds :
      (n : ℕ) (f : Feeding It) (log : List Task)
      → 0 < length start
      → IsFed next_seed start f log
      → Comes n f
      → Finds log (get_task_any next_seed n f)
  unfolding get_task_any
  get_task_any-Finds zero f log h fed comes = elim (Bool-cases (f.seed_iterators_remaining == 0)) [
    | inl done ↦ rw done (none, refl, fed, λ e. (==_iff f.seed_iterators_remaining 0).0 done)
    | inr more ↦
        let ended : live f.seed_iterators ≡ 0 = live-none f.seed_iterators λ p lt.
          elim (comes p lt) [
            | inl gone ↦ gone
            | inr (inl near) ↦ absurd (omega (arith, near))
            | inr (inr near) ↦ absurd (omega (arith, near, lt))
          ] in
        absurd (ground (arith, more, ended, fed.remaining))
  ]
  get_task_any-Finds (suc n) f log h fed comes =
      elim (Bool-cases (f.seed_iterators_remaining == 0)) [
        | inl done ↦ rw done (none, refl, fed, λ e. (==_iff f.seed_iterators_remaining 0).0 done)
        | inr more ↦ rw more (
            then_turn-Finds n f log (get_task_of next_seed f.next_iterator_index f)
              (omega (arith, fed.index h, fed.same_length)) fed.same_length comes
              (get_task_of-Takes1 next_seed start f log fed f.next_iterator_index (fed.index h))
              λ f' fed' comes'. get_task_any-Finds n f' log h fed' comes')
      ]

  Comes-all :
      (f : Feeding It)
      → (0 < length f.seed_iterators → f.next_iterator_index < length f.seed_iterators)
      → Comes (length f.seed_iterators) f
  Comes-all f lt p lt' = elim (Bool-cases (ltb p f.next_iterator_index)) [
    | inl before ↦
        let less = ltb→lt p f.next_iterator_index before in
        let lt'' = lt (omega (arith, lt')) in inr (inr (less, omega (arith, less, lt'', lt')))
    | inr behind ↦
        let le : f.next_iterator_index ≤ p = ground (arith, behind) in
        inr (inl (le, omega (arith, lt')))
  ]

-- The local workers, where there are permuters, or a connection for a permuter
abbrev pub IsSource : Option ℕ → ℕ → Type 0
IsSource none n = 0 < n
IsSource (some p) n = p < n

-- There is nothing more to hand out to the source.
abbrev pub IsOver : {It : Type 0} → Option ℕ → Feeding It → Type 0
IsOver none f = f.seed_iterators_remaining ≡ 0
IsOver (some p) f = get_elem? f.seed_iterators p ≡ some none

-- If the tasks that were handed out are, for each permuter, what its iterator has given, in order,
-- and no others, and the number of iterators that have not ended is right, then for a source that is
-- there a call of get_task returns without an exception, after at most one round over the iterators,
-- and the same holds with the task that it returns, if any. If it returns none, there is nothing
-- more to hand out: no iterator is left for the local workers, or that of the connection's permuter
-- has ended. A task for a connection is a task for its permuter.
pub get_task-IsFed :
    {It : Type 0} (next_seed : It → Option (ℕ × It)) (start : List It) (f : Feeding It)
    (log : List Task) (source : Option ℕ)
    → IsFed next_seed start f log
    → IsSource source (length start)
    → (o : Option Task) × ((get_task next_seed source f).1 ≡ ok o)
      × IsFed next_seed start (get_task next_seed source f).0 (logged log o)
      × (o ≡ none → IsOver source (get_task next_seed source f).0)
      × ((p : ℕ) (t : Task) → source ≡ some p → o ≡ some t → t.0 ≡ p)
unfolding get_task
get_task-IsFed next_seed start f log none fed h =
    let (o, e, fed', over) =
      get_task_any-Finds next_seed start (length f.seed_iterators) f log h fed
        (Comes-all next_seed start f λ lt. omega (arith, fed.index h, fed.same_length)) in
    (o, e, fed', over, λ p t from. cc)
get_task-IsFed next_seed start f log (some p) fed h =
    let (o, e, fed', index, stays, out) = get_task_of-Takes1 next_seed start f log fed p h in
    (
      o,
      e,
      fed',
      (λ none_left. elim out [ inl (gone, ended) ↦ ended | inr (seed, given) ↦ cc ]),
      λ q t from given. elim out [
        | inl (gone, ended) ↦ cc
        | inr (seed, given') ↦
            let index : p ≡ t.0 =
              ap (λ (x : ℕ × ℕ). x.0) (some-injective _ _ (sym given' ∙ given)) in
            sym index ∙ some-injective _ _ from
      ],
    )
