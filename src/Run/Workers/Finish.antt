-- ===== src/Run/Workers/Finish.antt =====
-- A run of main.py with local workers alone, from its first step to the end of its last loop.
use ee_kernel.Base.{
  ℕ, zero, suc, ◌+◌, ◌≤◌, ◌<◌, ◌≡◌, refl, sym, ap, ◌∙◌, ◌⊎◌, inl, inr, arith, Bool, true, false,
  Option, some, List, [], ◌∷◌, ◌++◌, map, length, length-append, All, get_elem?, get_elem?-some,
  Text, Error,
}
use ee_kernel.Base.Iterators.{Drains, Takes}
use ee_kernel.Run.Tasks.{Task, feeding}
use ee_kernel.Run.Tasks.Ends.{IsFed-feeding}
use ee_kernel.Run.Results.{RunOptions}
use ee_kernel.Run.Loop.{FeedbackItem, QueueItem, stop, task, copies, awaits}
use ee_kernel.Run.Workers.{Worker, System, Step}
use ee_kernel.Run.Workers.Steps.{IsLeft, IsRunning, Runs, all_pend, Step-Runs}
use ee_kernel.Run.Workers.Boxes.{
  works, pending_of, ended_of, total, IsTidy, ends_of, pends_of, works_of,
}
use ee_kernel.Run.Workers.Tail.{tasks_for, closing_queue}

-- What is reached from a state on, with the items that the main process has read
pub data Reach {It Candidate : Type 0} (next_seed : It → Option (ℕ × It)) (options : RunOptions)
    (format_exc : Error → Text) (first : System It Candidate)
    : System It Candidate → List FeedbackItem → Type 0 where
  begins : Reach next_seed options format_exc first first []
  goes_on :
      {s s' : System It Candidate} {read read' : List FeedbackItem}
      → Reach next_seed options format_exc first s read
      → Step next_seed options format_exc s read s' read'
      → Reach next_seed options format_exc first s' read'

-- Before the first step: the iterators are fresh, nothing is put or taken, and no worker has put
-- anything.
pub record IsFresh {It Candidate : Type 0} (start : List It) (s : System It Candidate)
    : Type 0 where
  pub feed : s.run.feed ≡ feeding start
  pub tasks : s.run.worker_tasks ≡ []
  pub alone : s.run.net_tasks ≡ []
  pub taken : s.taken ≡ 0
  pub feeds_first : s.awaiting ≡ false
  pub active : s.run.active_workers ≡ length s.workers
  pub idle :
      All
        (λ (w : Worker Candidate).
          (length w.permuters ≡ length start) × (w.ended ≡ false) × (w.outbox ≡ []))
        s.workers

module _ {It Candidate : Type 0} (next_seed : It → Option (ℕ × It)) (start : List It) where
  idle_workers :
      (workers : List (Worker Candidate))
      → All
          (λ (w : Worker Candidate).
            (length w.permuters ≡ length start) × (w.ended ≡ false) × (w.outbox ≡ []))
          workers
      → All (IsTidy (length start)) workers
        × (total ends_of workers ≡ 0)
        × ((p : ℕ) → total (works_of p) workers ≡ 0)
  unfolding total
  idle_workers [] idle = (tt, refl, λ p. refl)
  idle_workers (w ∷ ws) ((len, working, nothing), idle) =
      let (tidy, ends, counts) = idle_workers ws idle in
      let none_ended : ends_of w ≡ 0 = rw working (unfold ended_of in refl) in
      let no_works : (p : ℕ) → works_of p w ≡ 0 = λ p. rw nothing (unfold works in refl) in
      (
        ((len, rw (working, nothing) tt), tidy),
        omega (arith, none_ended, ends),
        λ p. omega (arith, no_works p, counts p),
      )

  IsFresh-Runs :
      (options : RunOptions) (s : System It Candidate)
      → IsFresh start s
      → Runs next_seed start options s []
  IsFresh-Runs options s f =
      let (tidy, ends, counts) = idle_workers s.workers f.idle in
      (
        [],
        0,
        record {
          fed = rw f.feed (IsFed-feeding next_seed start);
          queue = f.tasks ∙ unfold copies in refl;
          alone = f.alone;
          steady = record {
            tidy = tidy;
            in_queue = omega (arith, f.taken);
            ended = rw f.taken ends;
            active_left = f.active ∙ sym (all_pend s.workers ends);
            come_back = λ p. rw f.taken (unfold tasks_for works in omega (arith, counts p));
          };
          phase = inl (f.feeds_first, refl);
        },
      )

  Reach-Runs :
      (options : RunOptions) (format_exc : Error → Text) {first s : System It Candidate}
      {read : List FeedbackItem}
      → 0 < length start
      → IsFresh start first
      → Reach next_seed options format_exc first s read
      → Runs next_seed start options s read
  Reach-Runs options format_exc {first} h f begins = IsFresh-Runs options first f
  Reach-Runs options format_exc h f (goes_on reach step) =
      Step-Runs next_seed start options format_exc h step (Reach-Runs options format_exc h f reach)

pending_cases :
    (e : Bool) (box : List FeedbackItem)
    → (pending_of e box ≡ 0)
      ⊎ ((e ≡ false) ⊎ ((item : FeedbackItem) × (items : List FeedbackItem) × (box ≡ item ∷ items)))
unfolding pending_of
pending_cases false box = inr (inl refl)
pending_cases true [] = inl refl
pending_cases true (item ∷ items) = inr (inr (item, items, refl))

ended_bound : (e : Bool) → ended_of e ≤ 1
unfolding ended_of
ended_bound true = omega arith
ended_bound false = omega arith

total_ended :
    {Candidate : Type 0} (workers : List (Worker Candidate))
    → total ends_of workers ≤ length workers
unfolding total
total_ended [] = omega arith
total_ended (w ∷ ws) = omega (arith, total_ended ws, ended_bound w.ended)

awaits-some : (active : ℕ) → awaits active [] ≡ true → 0 < active
awaits-some zero h = cc
awaits-some (suc active) h = omega arith

-- A worker that has not ended, and then not all have, or that has an item to be read
abbrev pub CanGo : {Candidate : Type 0} → List (Worker Candidate) → Worker Candidate → Type 0
CanGo workers w =
    ((w.ended ≡ false) × (total ends_of workers < length workers))
    ⊎ ((item : FeedbackItem) × (items : List FeedbackItem) × (w.outbox ≡ item ∷ items))

some_pend :
    {Candidate : Type 0} (workers : List (Worker Candidate))
    → 0 < total pends_of workers
    → (before after : List (Worker Candidate)) × (w : Worker Candidate) × (workers
        ≡ before ++ w ∷ after)
      × CanGo workers w
unfolding total
some_pend [] h = absurd (omega (arith, h))
some_pend (w ∷ ws) h = elim (pending_cases w.ended w.outbox) [
  | inr (inl working) ↦
      let none_ended : ends_of w ≡ 0 = rw working (unfold ended_of in refl) in
      ([], ws, w, refl, inl (working, omega (arith, none_ended, total_ended ws)))
  | inr (inr put) ↦ ([], ws, w, refl, inr put)
  | inl done ↦
      let (before, after, w', e, can) = some_pend ws (omega (arith, h, done)) in
      (
        w ∷ before,
        after,
        w',
        ap (λ xs. w ∷ xs) e,
        elim can [
          | inl (working, some_left) ↦ inl (working, omega (arith, some_left, ended_bound w.ended))
          | inr put ↦ inr put
        ],
      )
]

length_tasks : (us : List Task) → length (map task us) ≡ length us
length_tasks [] = refl
length_tasks (t ∷ us) = ap suc (length_tasks us)

length-copies : (m : ℕ) (item : QueueItem) → length (copies m item) ≡ m
unfolding copies
length-copies zero item = refl
length-copies (suc m) item = ap suc (length-copies m item)

get-queue :
    (ts : List Task) (n k : ℕ)
    → k < length ts + n
    → (item : QueueItem) × (get_elem? (closing_queue ts n) k ≡ some item)
get-queue ts n k lt = get_elem?-some (closing_queue ts n) k (
    omega (
      arith,
      lt,
      length-append (map task ts) (copies n stop),
      length_tasks ts,
      length-copies n stop,
    ))

module _ {It Candidate : Type 0} (next_seed : It → Option (ℕ × It)) (start : List It)
    (options : RunOptions) (format_exc : Error → Text) where
  await_phase :
      (s : System It Candidate) (read : List FeedbackItem) (ts : List Task) (n : ℕ)
      → IsRunning next_seed start options ts n s read
      → s.awaiting ≡ true
      → (n ≡ length s.workers) × IsLeft options s.run
  await_phase s read ts n r await = elim r.phase [
    | inl (feeding', zero_n) ↦ cc
    | inr (await', all, over) ↦ (all, over)
  ]

  -- The seeds that an iterator has given: all that it has, or some where a score of 0 was found and
  -- stops the run.
  abbrev pub HasGiven : It → List ℕ → System It Candidate → Type 0
  HasGiven it given s =
      Drains next_seed it given
      ⊎ ((it' : It) × Takes next_seed it given it'
          × (s.run.found_zero ≡ true)
          × (options.stop_on_zero ≡ true))

  -- If the run starts so, then whenever the last loop is not over, there is a worker with an item
  -- that the main process can read, or one that has not ended, with an item in its queue.
  pub workers_can_go :
      (first s : System It Candidate) (read : List FeedbackItem)
      → 0 < length start
      → IsFresh start first
      → Reach next_seed options format_exc first s read
      → s.awaiting ≡ true
      → awaits s.run.active_workers s.run.net_tasks ≡ true
      → (before after : List (Worker Candidate)) × (w : Worker Candidate) × (s.workers
          ≡ before ++ w ∷ after)
        × (((w.ended ≡ false)
              × ((item : QueueItem) × (get_elem? s.run.worker_tasks s.taken ≡ some item)))
            ⊎ ((item : FeedbackItem) × (items : List FeedbackItem) × (w.outbox ≡ item ∷ items)))
  workers_can_go first s read h fresh reach await more =
      let (ts, n, r) = Reach-Runs next_seed start options format_exc h fresh reach in
      let (all, none_left) = await_phase s read ts n r await in
      let (before, after, w, e, can) = some_pend s.workers (
        omega
          (arith, r.steady.active_left, awaits-some s.run.active_workers (rw r.alone at more))) in
      (
        before,
        after,
        w,
        e,
        elim can [
          | inr put ↦ inr put
          | inl (working, some_left) ↦
              let (item, there) =
                get-queue ts n s.taken
                  (omega (arith, all, some_left, r.steady.ended, r.steady.in_queue)) in
              inl (working, (item, rw r.queue there))
        ],
      )
