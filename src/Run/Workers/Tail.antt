-- ===== src/Run/Workers/Tail.antt =====
-- The queue of the workers of main.py: tasks, and behind them Finished() for every worker.
use mathlib.Core.Option.{some-injective}
use ee_kernel.Base.{
  ℕ, zero, suc, ◌+◌, ◌-◌, ◌≤◌, ◌<◌, ◌≡◌, refl, sym, ap, ◌∙◌, ◌⊎◌, inl, inr, arith, Bool, true,
  false, ◌&&◌, Bool-cases, Option, none, some, List, [], ◌∷◌, ◌++◌, map, append-nil, length, take,
  get_elem?, Text, Result, ok, err, ◌==◌, ==_iff, if◌then◌else◌,
}
use ee_kernel.Run.Tasks.{Feeding, Task, get_task}
use ee_kernel.Run.Tasks.Handed.{logged, seeds_for, IsFed}
use ee_kernel.Run.Tasks.Turns.{get_task-IsFed}
use ee_kernel.Run.Loop.Fed.{ok-injective}
use ee_kernel.Run.Results.{RunOptions, EvalContext, process_result}
use ee_kernel.Run.Loop.{
  break, FeedbackItem, finished, message, need_more_work, work_done, QueueItem, stop, task, Run,
  copies, process_finish, note_zero, note_last, put_task, feed_task, feed_round, await_round,
}
use ee_kernel.Run.Loop.Queues.{tasks_in}
use ee_kernel.Run.Workers.Boxes.{IsOpen}

-- How many of the tasks are for a permuter
unfoldable pub tasks_for : ℕ → List Task → ℕ
tasks_for p [] = 0
tasks_for p ((i, seed) ∷ ts) = (if i == p then 1 else 0) + tasks_for p ts

-- Tasks, and n times Finished behind them
abbrev pub closing_queue : List Task → ℕ → List QueueItem
closing_queue ts n = map task ts ++ copies n stop

tasks_in-copies : (n : ℕ) → tasks_in (copies n stop) ≡ []
unfolding tasks_in copies
tasks_in-copies zero = refl
tasks_in-copies (suc n) = tasks_in-copies n

pub tasks_in-closing_queue : (ts : List Task) (n : ℕ) → tasks_in (closing_queue ts n) ≡ ts
unfolding tasks_in
tasks_in-closing_queue [] n = tasks_in-copies n
tasks_in-closing_queue (t ∷ ts) n = ap (λ us. t ∷ us) (tasks_in-closing_queue ts n)

get-copies :
    (n k : ℕ) (item : QueueItem) → get_elem? (copies n stop) k ≡ some item → (item ≡ stop) × (k < n)
unfolding copies
get-copies zero k item e = cc
get-copies (suc n) zero item e = (sym (some-injective _ _ e), omega arith)
get-copies (suc n) (suc k) item e =
    let (same, lt) = get-copies n k item e in (same, omega (arith, lt))

-- The item at a place of the queue is a task, the next one of the tasks, or it is behind them.
pub get-closing_queue :
    (ts : List Task) (n k : ℕ) (item : QueueItem)
    → get_elem? (closing_queue ts n) k ≡ some item
    → ((t : Task) × (item ≡ task t)
        × (get_elem? ts k ≡ some t)
        × ((p : ℕ)
            → tasks_for p (take (suc k) ts) ≡ tasks_for p (take k ts) + (if t.0 == p then 1 else 0))
        × (k < length ts))
      ⊎ ((item ≡ stop) × (length ts ≤ k) × (k < length ts + n))
unfolding tasks_for
get-closing_queue [] n k item e =
    let (same, lt) = get-copies n k item e in inr (same, omega arith, omega (arith, lt))
get-closing_queue ((i, seed) ∷ ts) n zero item e =
    inl ((i, seed), sym (some-injective _ _ e), refl, (λ p. omega arith), omega arith)
get-closing_queue ((i, seed) ∷ ts) n (suc k) item e = elim (get-closing_queue ts n k item e) [
  | inl (t', same, at, counts, lt) ↦
      inl (t', same, at, (λ p. omega (arith, counts p)), omega (arith, lt))
  | inr (same, le, lt) ↦ inr (same, omega (arith, le), omega (arith, lt))
]

pub take-append :
    {A : Type 0} (n : ℕ) (xs ys : List A) → n ≤ length xs → take n (xs ++ ys) ≡ take n xs
take-append zero xs ys le = refl
take-append (suc n) [] ys le = absurd (omega arith)
take-append (suc n) (x ∷ xs) ys le = ap (λ zs. x ∷ zs) (take-append n xs ys (omega (arith, le)))

pub take_all : {A : Type 0} (n : ℕ) (xs : List A) → length xs ≤ n → take n xs ≡ xs
take_all zero [] le = refl
take_all zero (x ∷ xs) le = absurd (omega arith)
take_all (suc n) [] le = refl
take_all (suc n) (x ∷ xs) le = ap (λ zs. x ∷ zs) (take_all n xs (omega (arith, le)))

pub tasks_for-length : (p : ℕ) (ts : List Task) → tasks_for p ts ≡ length (seeds_for p ts)
unfolding tasks_for seeds_for
tasks_for-length p [] = refl
tasks_for-length p ((i, seed) ∷ ts) = ground (arith, tasks_for-length p ts)

pub seeds_for-get :
    (ts : List Task) (k i seed : ℕ) → get_elem? ts k ≡ some (i, seed) → 0 < length (seeds_for i ts)
unfolding seeds_for
seeds_for-get [] k i seed e = cc
seeds_for-get ((j, seed') ∷ ts) zero i seed e =
    let same : j ≡ i = ap (λ (t : Task). t.0) (some-injective _ _ e) in
    ground (arith, same, ==_iff j i)
seeds_for-get ((j, seed') ∷ ts) (suc k) i seed e = ground (arith, seeds_for-get ts k i seed e)

module _ {It Candidate : Type 0} where
  -- What a round for a local worker leaves: these tasks more, and a worker less that is active if it
  -- has finished.
  abbrev pub Leaves : List Task → FeedbackItem → Run It Candidate → Run It Candidate → Type 0
  Leaves ts item run run' =
      (run'.worker_tasks ≡ run.worker_tasks ++ map task ts)
      × (run'.net_tasks ≡ run.net_tasks)
      × (IsOpen item → run'.active_workers ≡ run.active_workers)
      × ((reason : Option Text)
          → item ≡ finished reason
          → run'.active_workers ≡ run.active_workers - 1)

  -- Neither the tasks nor the number of workers have changed.
  abbrev IsAlike : Run It Candidate → Run It Candidate → Type 0
  IsAlike run run' =
      (run'.worker_tasks ≡ run.worker_tasks)
      × (run'.net_tasks ≡ run.net_tasks)
      × (run'.active_workers ≡ run.active_workers)
      × (run'.feed ≡ run.feed)

  IsAlike-Leaves :
      (item : FeedbackItem) (run run' : Run It Candidate)
      → ((reason : Option Text) → item ≡ finished reason → ⊥)
      → IsAlike run run'
      → Leaves [] item run run'
  IsAlike-Leaves item run run' other (tasks, nets, active, feed) =
      (tasks ∙ sym (append-nil run.worker_tasks), nets, (λ o. active), λ r e. absurd (other r e))

  note_zero-IsAlike :
      (options : RunOptions) (run : Run It Candidate) (r : EvalContext Candidate × Result Bool)
      → IsAlike run (note_zero options run r).0
  unfolding note_zero
  note_zero-IsAlike options run (context, err e) = (refl, refl, refl, refl)
  note_zero-IsAlike options run (context, ok false) = (refl, refl, refl, refl)
  note_zero-IsAlike options run (context, ok true) = (refl, refl, refl, refl)

  note_last-IsAlike :
      (run : Run It Candidate) (r : EvalContext Candidate × Result Bool)
      → IsAlike run (note_last run r).0
  unfolding note_last
  note_last-IsAlike run (context, err e) = (refl, refl, refl, refl)
  note_last-IsAlike run (context, ok found) = (refl, refl, refl, refl)

  note_zero-break :
      (options : RunOptions) (run : Run It Candidate) (r : EvalContext Candidate × Result Bool)
      → (note_zero options run r).1 ≡ ok break
      → ((note_zero options run r).0.found_zero ≡ true) × (options.stop_on_zero ≡ true)
  unfolding note_zero
  note_zero-break options run (context, err x) e = cc
  note_zero-break options run (context, ok false) e = cc
  note_zero-break options run (context, ok true) e = (refl, ground (arith, e))

  feed_task-break :
      (run : Run It Candidate) (r : Feeding It × Result (Option Task))
      → (feed_task none run r).1 ≡ ok break
      → ⊥
  unfolding feed_task
  feed_task-break run (feed, err x) e = cc
  feed_task-break run (feed, ok none) e = cc
  feed_task-break run (feed, ok (some t)) e = cc

  -- The loop that feeds the queues breaks off for a score of 0 alone.
  pub feed_round-break :
      (next_seed : It → Option (ℕ × It)) (options : RunOptions) (item : FeedbackItem)
      (run : Run It Candidate)
      → (feed_round next_seed options (item, none) run).1 ≡ ok break
      → ((feed_round next_seed options (item, none) run).0.found_zero ≡ true)
        × (options.stop_on_zero ≡ true)
  unfolding feed_round
  feed_round-break next_seed options (finished reason) run e = cc
  feed_round-break next_seed options (message text) run e = cc
  feed_round-break next_seed options need_more_work run e =
      absurd (feed_task-break run (get_task next_seed none run.feed) e)
  feed_round-break next_seed options (work_done i result) run e =
      note_zero-break options run (process_result options i result run.context) e

  note_last-zero :
      (run : Run It Candidate) (r : EvalContext Candidate × Result Bool)
      → run.found_zero ≡ true
      → (note_last run r).0.found_zero ≡ true
  unfolding note_last
  note_last-zero run (context, err x) z = z
  note_last-zero run (context, ok found) z = rw z refl

  pub await_round-zero :
      (options : RunOptions) (item : FeedbackItem) (run : Run It Candidate)
      → run.found_zero ≡ true
      → (await_round options (item, none) run).0.found_zero ≡ true
  unfolding await_round process_finish
  await_round-zero options (finished reason) run z = z
  await_round-zero options (message text) run z = z
  await_round-zero options need_more_work run z = z
  await_round-zero options (work_done i result) run z =
      elim (Bool-cases (options.stop_on_zero && run.found_zero)) [
        | inl over ↦ rw over z
        | inr more ↦ rw more (note_last-zero run (process_result options i result run.context) z)
      ]

  -- A round of the loop that awaits the last results
  pub await_round-Leaves :
      (options : RunOptions) (item : FeedbackItem) (run : Run It Candidate)
      → Leaves [] item run (await_round options (item, none) run).0
        × ((await_round options (item, none) run).0.feed ≡ run.feed)
  unfolding await_round process_finish
  await_round-Leaves options (finished reason) run =
      ((sym (append-nil run.worker_tasks), refl, (λ o. absurd o), λ r e. refl), refl)
  await_round-Leaves options (message text) run =
      (IsAlike-Leaves (message text) run run (λ r e. cc) (refl, refl, refl, refl), refl)
  await_round-Leaves options need_more_work run =
      (IsAlike-Leaves need_more_work run run (λ r e. cc) (refl, refl, refl, refl), refl)
  await_round-Leaves options (work_done i result) run =
      elim (Bool-cases (options.stop_on_zero && run.found_zero)) [
        | inl over ↦
            rw over (
              IsAlike-Leaves (work_done i result) run run (λ r e. cc) (refl, refl, refl, refl),
              refl,
            )
        | inr more ↦
            let r = process_result options i result run.context in
            let alike = note_last-IsAlike run r in
            rw more (
              IsAlike-Leaves (work_done i result) run (note_last run r).0 (λ r e. cc) alike,
              alike.3,
            )
      ]

  module _ (next_seed : It → Option (ℕ × It)) (start : List It) (log : List Task) where
    -- The tasks more are those that are handed out.
    abbrev pub Feeds : FeedbackItem → Run It Candidate → Run It Candidate → Type 0
    Feeds item run run' =
        (ts : List Task) × Leaves ts item run run' × IsFed next_seed start run'.feed (log ++ ts)

    IsAlike-Feeds :
        (item : FeedbackItem) (run run' : Run It Candidate)
        → ((reason : Option Text) → item ≡ finished reason → ⊥)
        → IsFed next_seed start run.feed log
        → IsAlike run run'
        → Feeds item run run'
    IsAlike-Feeds item run run' other fed alike =
        ([], IsAlike-Leaves item run run' other alike, rw (append-nil log, alike.3) fed)

    feed_task-Feeds :
        (run : Run It Candidate) (r : Feeding It × Result (Option Task)) (o : Option Task)
        → r.1 ≡ ok o
        → IsFed next_seed start r.0 (logged log o)
        → Feeds need_more_work run (feed_task none run r).0
    unfolding feed_task put_task
    feed_task-Feeds run (feed, err x) o e fed = cc
    feed_task-Feeds run (feed, ok none) (some t) e fed = cc
    feed_task-Feeds run (feed, ok (some t)) none e fed = cc
    feed_task-Feeds run (feed, ok none) none e fed = (
      [],
      (sym (append-nil run.worker_tasks), refl, (λ o. refl), λ r e'. cc),
      rw (append-nil log) fed,
    )
    feed_task-Feeds run (feed, ok (some t')) (some t) e fed =
        let same : t' ≡ t = some-injective _ _ (ok-injective e) in
        rw same (t ∷ [], (refl, refl, (λ o. refl), λ r e'. cc), fed)

    -- A round of the loop that feeds the queues
    pub feed_round-Feeds :
        (options : RunOptions) (item : FeedbackItem) (run : Run It Candidate)
        → 0 < length start
        → IsFed next_seed start run.feed log
        → Feeds item run (feed_round next_seed options (item, none) run).0
    unfolding feed_round process_finish
    feed_round-Feeds options (finished reason) run h fed = (
      [],
      (sym (append-nil run.worker_tasks), refl, (λ o. absurd o), λ r e. refl),
      rw (append-nil log) fed,
    )
    feed_round-Feeds options (message text) run h fed =
        IsAlike-Feeds (message text) run run (λ r e. cc) fed (refl, refl, refl, refl)
    feed_round-Feeds options need_more_work run h fed =
        let (o, e, fed', over, own) = get_task-IsFed next_seed start run.feed log none fed h in
        feed_task-Feeds run (get_task next_seed none run.feed) o e fed'
    feed_round-Feeds options (work_done i result) run h fed =
        let r = process_result options i result run.context in
        IsAlike-Feeds (work_done i result) run (note_zero options run r).0 (λ r e. cc) fed
          (note_zero-IsAlike options run r)
