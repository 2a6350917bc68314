-- ===== src/Run/Tasks/Handed.antt =====
-- The tasks that `get_task` of main.py hands out, by permuter, and the iterators behind them.
use ee_kernel.Base.{
  ℕ, zero, suc, ◌-◌, ◌≤◌, ◌<◌, ◌≡◌, refl, sym, ap, subst, ◌∙◌, ◌⊎◌, inl, inr, arith, false,
  Bool-cases, Option-cases, Option, none, some, List, [], ◌∷◌, ◌++◌, append-nil, length, get_elem?,
  set_elem, length-set_elem, get-set_elem, get-set_elem-other, get_elem?-some, Result, ok, ◌==◌,
  ==_iff, if◌then◌else◌,
}
use ee_kernel.Base.Iterators.{Drains, Takes, stops, takes, Takes-append, Takes-ends}
use ee_kernel.Run.Tasks.{Feeding, Task, take_seed, get_task_of}

-- The seeds of the tasks for a permuter, in order
unfoldable pub seeds_for : ℕ → List Task → List ℕ
seeds_for p [] = []
seeds_for p ((q, seed) ∷ log) = let rest = seeds_for p log in if q == p then seed ∷ rest else rest

-- The iterators that have not ended
unfoldable pub live : {It : Type 0} → List (Option It) → ℕ
live [] = 0
live (none ∷ its) = live its
live (some it ∷ its) = suc (live its)

-- A task more
abbrev pub logged : List Task → Option Task → List Task
logged log none = log
logged log (some task) = log ++ task ∷ []

seeds_for-append :
    (p : ℕ) (log log' : List Task) → seeds_for p (log ++ log') ≡ seeds_for p log ++ seeds_for p log'
unfolding seeds_for
seeds_for-append p [] log' = refl
seeds_for-append p ((q, seed) ∷ log) log' = ground (arith, seeds_for-append p log log')

pub seeds_for_same :
    (p seed : ℕ) (log : List Task)
    → seeds_for p (log ++ (p, seed) ∷ []) ≡ seeds_for p log ++ seed ∷ []
seeds_for_same p seed log =
    seeds_for-append p log ((p, seed) ∷ []) ∙ unfold seeds_for in ground arith

pub seeds_for_other :
    (p q seed : ℕ) (log : List Task)
    → (q == p) ≡ false
    → seeds_for p (log ++ (q, seed) ∷ []) ≡ seeds_for p log
seeds_for_other p q seed log other =
    seeds_for-append p log ((q, seed) ∷ [])
    ∙ unfold seeds_for in (rw other (append-nil (seeds_for p log)))

module _ {It : Type 0} (next_seed : It → Option (ℕ × It)) where
  -- What an iterator has given, and where it stands: it goes on, or it has ended.
  abbrev pub Stands : It → Option (Option It) → List ℕ → Type 0
  Stands first none seeds = ⊥
  Stands first (some none) seeds = Drains next_seed first seeds
  Stands first (some (some it)) seeds = Takes next_seed first seeds it

  -- Each permuter's tasks are what its iterator has given, in order, no other tasks are there, and
  -- the number of iterators that have not ended is right.
  pub record IsFed (start : List It) (f : Feeding It) (log : List Task) : Type 0 where
    pub same_length : length f.seed_iterators ≡ length start
    pub stands :
        (p : ℕ) (first : It)
        → get_elem? start p ≡ some first
        → Stands first (get_elem? f.seed_iterators p) (seeds_for p log)
    pub no_others : (p : ℕ) → length start ≤ p → seeds_for p log ≡ []
    pub remaining : f.seed_iterators_remaining ≡ live f.seed_iterators
    pub index : 0 < length start → f.next_iterator_index < length start

live-set_some :
    {It : Type 0} (its : List (Option It)) (p : ℕ) (it it' : It)
    → get_elem? its p ≡ some (some it)
    → live (set_elem its p (some it')) ≡ live its
unfolding live
live-set_some [] p it it' e = cc
live-set_some (some i ∷ its) zero it it' e = refl
live-set_some (none ∷ its) zero it it' e = cc
live-set_some (some i ∷ its) (suc p) it it' e = ap suc (live-set_some its p it it' e)
live-set_some (none ∷ its) (suc p) it it' e = live-set_some its p it it' e

live-set_none :
    {It : Type 0} (its : List (Option It)) (p : ℕ) (it : It)
    → get_elem? its p ≡ some (some it)
    → suc (live (set_elem its p none)) ≡ live its
unfolding live
live-set_none [] p it e = cc
live-set_none (some i ∷ its) zero it e = refl
live-set_none (none ∷ its) zero it e = cc
live-set_none (some i ∷ its) (suc p) it e = ap suc (live-set_none its p it e)
live-set_none (none ∷ its) (suc p) it e = live-set_none its p it e

-- What a call for a permuter returns, and what it leaves: its iterator has ended, or it has given
-- a seed more.
abbrev pub Takes1 :
    {It : Type 0}
    → (It → Option (ℕ × It))
    → List It
    → Feeding It
    → List Task
    → ℕ
    → Feeding It × Result (Option Task)
    → Type 0
Takes1 next_seed start f log p (f', r) =
    (o : Option Task) × (r ≡ ok o)
    × IsFed next_seed start f' (logged log o)
    × (f'.next_iterator_index ≡ f.next_iterator_index)
    × ((q : ℕ)
        → get_elem? f.seed_iterators q ≡ some none
        → get_elem? f'.seed_iterators q ≡ some none)
    × ((o ≡ none) × (get_elem? f'.seed_iterators p ≡ some none)
        ⊎ ((seed : ℕ) × (o ≡ some (p, seed))))

module _ {It : Type 0} (next_seed : It → Option (ℕ × It)) (start : List It) (f : Feeding It)
    (log : List Task) (fed : IsFed next_seed start f log) (p : ℕ) (lt : p < length start) where
  -- The iterator of one permuter is replaced, and tasks for that permuter are added.
  Stands-set :
      (x : Option It) (log' : List Task)
      → ((first : It)
          → get_elem? start p ≡ some first
          → Stands next_seed first (some x) (seeds_for p log'))
      → ((q : ℕ) → (p == q) ≡ false → seeds_for q log' ≡ seeds_for q log)
      → (q : ℕ) (first : It) → get_elem? start q ≡ some first
      → Stands next_seed first (get_elem? (set_elem f.seed_iterators p x) q) (seeds_for q log')
  Stands-set x log' new others q first e = elim (Bool-cases (p == q)) [
    | inl same ↦
        let here : p ≡ q = (==_iff p q).0 same in
        let set = get-set_elem f.seed_iterators p x (omega (arith, lt, fed.same_length)) in
        subst
          (λ r.
            Stands next_seed first (get_elem? (set_elem f.seed_iterators p x) r) (seeds_for r log'))
          here (rw set (new first (rw here e)))
    | inr other ↦
        let kept =
          get-set_elem-other f.seed_iterators p q x λ e'. absurd (cc ((==_iff p q).1 e', other)) in
        rw (kept, others q other) (fed.stands q first e)
  ]

  -- The iterator of the permuter ends.
  IsFed-ends :
      (it : It)
      → get_elem? f.seed_iterators p ≡ some (some it)
      → next_seed it ≡ none
      → IsFed next_seed start
          (record f {
            seed_iterators = set_elem f.seed_iterators p none;
            seed_iterators_remaining = f.seed_iterators_remaining - 1;
          })
          log
  IsFed-ends it at gone = record {
    same_length = length-set_elem f.seed_iterators p none ∙ fed.same_length;
    stands =
        Stands-set none log
          (λ first e.
            Takes-ends
              (subst (λ o. Stands next_seed first o (seeds_for p log)) at (fed.stands p first e))
              gone)
          λ q other. refl;
    no_others = fed.no_others;
    remaining = omega (arith, fed.remaining, live-set_none f.seed_iterators p it at);
    index = fed.index;
  }

  -- The iterator of the permuter gives a seed.
  IsFed-gives :
      (it it' : It) (seed : ℕ)
      → get_elem? f.seed_iterators p ≡ some (some it)
      → next_seed it ≡ some (seed, it')
      → IsFed next_seed start
          (record f { seed_iterators = set_elem f.seed_iterators p (some it') })
          (log ++ (p, seed) ∷ [])
  IsFed-gives it it' seed at given = record {
    same_length = length-set_elem f.seed_iterators p (some it') ∙ fed.same_length;
    stands =
        Stands-set (some it') (log ++ (p, seed) ∷ [])
          (λ first e. rw (seeds_for_same p seed log) (
            Takes-append
              (subst (λ o. Stands next_seed first o (seeds_for p log)) at (fed.stands p first e))
              (takes given stops)))
          λ q other. seeds_for_other q p seed log other;
    no_others = λ q le.
        seeds_for_other q p seed log (ground (arith, lt, le, ==_iff p q)) ∙ fed.no_others q le;
    remaining = fed.remaining ∙ sym (live-set_some f.seed_iterators p it it' at);
    index = fed.index;
  }

  ended_stays :
      (x : Option It) (it : It)
      → get_elem? f.seed_iterators p ≡ some (some it)
      → (q : ℕ) → get_elem? f.seed_iterators q ≡ some none
      → get_elem? (set_elem f.seed_iterators p x) q ≡ some none
  ended_stays x it at q e =
      get-set_elem-other f.seed_iterators p q x (λ same. absurd (cc (rw same at at, e))) ∙ e

  take_seed-Takes1 :
      (o : Option (Option It))
      → get_elem? f.seed_iterators p ≡ o
      → Takes1 next_seed start f log p (take_seed next_seed p f o)
  unfolding take_seed
  take_seed-Takes1 none at =
      let (x, e) = get_elem?-some f.seed_iterators p (omega (arith, lt, fed.same_length)) in
      absurd (cc (at, e))
  take_seed-Takes1 (some none) at = (none, refl, fed, refl, (λ q e. e), inl (refl, at))
  take_seed-Takes1 (some (some it)) at = elim (Option-cases (next_seed it)) [
    | inl gone ↦
        rw (take_seed, gone)
          (
            none,
            refl,
            IsFed-ends it at gone,
            refl,
            ended_stays none it at,
            inl (refl, get-set_elem f.seed_iterators p none (omega (arith, lt, fed.same_length))),
          )
    | inr ((seed, it'), given) ↦
        rw (take_seed, given)
          (
            some (p, seed),
            refl,
            IsFed-gives it it' seed at given,
            refl,
            ended_stays (some it') it at,
            inr (seed, refl),
          )
  ]

  pub get_task_of-Takes1 : Takes1 next_seed start f log p (get_task_of next_seed p f)
  unfolding get_task_of
  get_task_of-Takes1 = take_seed-Takes1 (get_elem? f.seed_iterators p) refl
