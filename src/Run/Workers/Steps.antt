-- ===== src/Run/Workers/Steps.antt =====
-- The steps of main.py with local workers alone, and what they keep.
use ee_kernel.Base.{
  ℕ, suc, ◌≤◌, ◌<◌, ◌≡◌, refl, sym, ap, subst, ◌∙◌, ◌⊎◌, inl, inr, arith, Bool, true, false,
  Bool-cases, Option, none, some, List, [], ◌∷◌, ◌++◌, map, append-nil, length, get_elem?, Text,
  Error, Result, ltb, ==_iff, ltb→lt,
}
use ee_kernel.Permuter.Evaluation.{Draws}
use ee_kernel.Run.Tasks.{Feeding, Task}
use ee_kernel.Run.Tasks.Handed.{IsFed}
use ee_kernel.Run.Results.{RunOptions}
use ee_kernel.Run.Loop.{
  FeedbackItem, QueueItem, stop, task, Run, Flow, copies, await_round, signal_stop, put_all,
}
use ee_kernel.Run.Workers.{
  Worker, ask, take_item, System, Step, asks, gets, feeds, breaks, signals, reads,
}
use ee_kernel.Run.Workers.Boxes.{pending_of, ended_of, total, length_change, ends_of, pends_of}
use ee_kernel.Run.Workers.Tail.{
  closing_queue, get-closing_queue, Leaves, Feeds, feed_round-Feeds, feed_round-break,
  await_round-Leaves, await_round-zero, seeds_for-get,
}
use ee_kernel.Run.Workers.Whole.{
  IsSteady, IsSteady-asks, IsSteady-task, IsSteady-stop, IsSteady-read, IsSteady-more,
  IsSteady-signal,
}

-- Why the first loop has ended: no iterator is left, or a score of 0 was found and stops the run.
abbrev pub IsLeft : {It Candidate : Type 0} → RunOptions → Run It Candidate → Type 0
IsLeft options run =
    (run.feed.seed_iterators_remaining ≡ 0)
    ⊎ ((run.found_zero ≡ true) × (options.stop_on_zero ≡ true))

-- The main process and the workers over the tasks and the n times Finished that were put
pub record IsRunning {It Candidate : Type 0} (next_seed : It → Option (ℕ × It)) (start : List It)
    (options : RunOptions) (ts : List Task) (n : ℕ) (s : System It Candidate)
    (read : List FeedbackItem) : Type 0 where
  pub fed : IsFed next_seed start s.run.feed ts
  pub queue : s.run.worker_tasks ≡ closing_queue ts n
  pub alone : s.run.net_tasks ≡ []
  pub steady : IsSteady (length start) ts n s.taken s.run.active_workers s.workers read
  pub phase :
      ((s.awaiting ≡ false) × (n ≡ 0))
      ⊎ ((s.awaiting ≡ true) × (n ≡ length s.workers) × IsLeft options s.run)

map_append : (ts us : List Task) → map task (ts ++ us) ≡ map task ts ++ map task us
map_append [] us = refl
map_append (t ∷ ts) us = ap (λ xs. task t ∷ xs) (map_append ts us)

-- A queue without Finished, and items behind it
queue_more :
    (ts : List Task) (items : List QueueItem) → closing_queue ts 0 ++ items ≡ map task ts ++ items
unfolding copies
queue_more ts items = ap (λ xs. xs ++ items) (append-nil (map task ts))

pub all_pend :
    {Candidate : Type 0} (workers : List (Worker Candidate))
    → total ends_of workers ≡ 0
    → total pends_of workers ≡ length workers
unfolding total
all_pend [] none_ended = refl
all_pend (w ∷ ws) none_ended =
    let later = all_pend ws (omega (arith, none_ended)) in
    let here = pends (w.ended) w.outbox (omega (arith, none_ended)) in omega (arith, later, here)
  where
    pends : (e : Bool) (box : List FeedbackItem) → ended_of e ≡ 0 → pending_of e box ≡ 1
    pends false box h = unfold pending_of in refl
    pends true box h = absurd (unfold ended_of in omega (arith, h))

module _ {It Candidate : Type 0} (next_seed : It → Option (ℕ × It)) (start : List It)
    (options : RunOptions) where
  abbrev pub Runs : System It Candidate → List FeedbackItem → Type 0
  Runs s read = (ts : List Task) × (n : ℕ) × IsRunning next_seed start options ts n s read

  -- A task in the queue is one for a permuter.
  task-lt :
      (ts : List Task) (n k : ℕ) (s : System It Candidate) (read : List FeedbackItem) (t : Task)
      → IsRunning next_seed start options ts n s read
      → get_elem? ts k ≡ some t
      → t.0 < length start
  task-lt ts n k s read (i, seed) r at = elim (Bool-cases (ltb i (length start))) [
    | inl below ↦ ltb→lt i (length start) below
    | inr above ↦
        let le : length start ≤ i = ground (arith, above) in
        let none_there = ap length (r.fed.no_others i le) in
        absurd (omega (arith, seeds_for-get ts k i seed at, none_there))
  ]

  before_stop :
      {ts : List Task} {n : ℕ} {s : System It Candidate} {read : List FeedbackItem}
      → n ≡ 0
      → IsRunning next_seed start options ts n s read
      → IsRunning next_seed start options ts 0 s read
  before_stop {ts} {n} {s} {read} none_put r =
      subst (λ k. IsRunning next_seed start options ts k s read) none_put r

  -- A queue has an item for a worker.
  gets-Runs :
      (format_exc : Error → Text) (run : Run It Candidate) (awaiting : Bool) (taken : ℕ)
      (draws : Draws) (item : QueueItem) (before after : List (Worker Candidate))
      (w : Worker Candidate) (read : List FeedbackItem) (ts : List Task) (n : ℕ)
      → w.ended ≡ false
      → get_elem? run.worker_tasks taken ≡ some item
      → IsRunning next_seed start options ts n
          (record { run = run; awaiting = awaiting; taken = taken; workers = before ++ w ∷ after })
          read
      → IsSteady
          (length start)
          ts
          n
          (suc taken)
          run.active_workers
          (before ++ take_item format_exc draws item w ∷ after)
          read
  gets-Runs format_exc run awaiting taken draws item before after w read ts n working at r =
      elim (get-closing_queue ts n taken item
        (subst (λ q. get_elem? q taken ≡ some item) r.queue at)) [
          | inl (t, same, there, counts, lt) ↦ rw same (
              IsSteady-task (length start) ts n taken run.active_workers before after w read
                r.steady format_exc draws t working (task-lt ts n taken _ read t r there) lt counts)
          | inr (same, le, lt) ↦ rw same (
              IsSteady-stop (length start) ts n taken run.active_workers before after w read
                r.steady format_exc draws working le lt)
        ]

  -- The main process reads an item while it feeds the workers.
  Feeds-Runs :
      (run run' : Run It Candidate) (taken : ℕ) (item : FeedbackItem) (items : List FeedbackItem)
      (before after : List (Worker Candidate)) (w : Worker Candidate) (read : List FeedbackItem)
      (ts : List Task)
      → w.outbox ≡ item ∷ items
      → Feeds next_seed start ts item run run'
      → IsRunning next_seed start options ts 0
          (record { run = run; awaiting = false; taken = taken; workers = before ++ w ∷ after })
          read
      → Runs
          (record {
            run = run';
            awaiting = false;
            taken = taken;
            workers = before ++ record w { outbox = items } ∷ after;
          })
          (item ∷ read)
  Feeds-Runs run run' taken item items before after w read ts put
        (ts', (tasks, nets, same, less), fed) r =
      (
        ts ++ ts',
        0,
        record {
          fed = fed;
          queue =
              tasks
              ∙ ap (λ q. q ++ map task ts') r.queue
              ∙ queue_more ts (map task ts')
              ∙ sym (map_append ts ts')
              ∙ sym (append-nil (map task (ts ++ ts')))
              ∙ unfold copies in refl;
          alone = nets ∙ r.alone;
          steady =
              IsSteady-more (length start) ts taken run'.active_workers
                (before ++ record w { outbox = items } ∷ after) (item ∷ read)
                (IsSteady-read (length start) ts 0 taken run.active_workers before after w read
                  r.steady item items run'.active_workers put same less)
                ts';
          phase = inl (refl, refl);
        },
      )

  -- The main process puts Finished for every worker.
  signals-Runs :
      (run : Run It Candidate) (taken : ℕ) (workers : List (Worker Candidate))
      (read : List FeedbackItem) (ts : List Task)
      → IsLeft options run
      → IsRunning next_seed start options ts 0
          (record { run = run; awaiting = false; taken = taken; workers = workers })
          read
      → Runs
          (record { run = signal_stop run; awaiting = true; taken = taken; workers = workers })
          read
  unfolding signal_stop put_all
  signals-Runs run taken workers read ts over r =
      let le = r.steady.in_queue in
      let none_ended : total ends_of workers ≡ 0 = omega (arith, r.steady.ended, le) in
      let all_active = r.steady.active_left ∙ all_pend workers none_ended in
      (
        ts,
        length workers,
        record {
          fed = r.fed;
          queue =
              ap (λ q. q ++ copies run.active_workers stop) r.queue
              ∙ queue_more ts (copies run.active_workers stop)
              ∙ ap (λ k. map task ts ++ copies k stop) all_active;
          alone = rw r.alone refl;
          steady =
              IsSteady-signal (length start) ts taken run.active_workers workers read r.steady
                (length workers);
          phase = inr (refl, refl, over);
        },
      )

  -- The main process reads an item while it awaits the last results.
  reads-Runs :
      (run run' : Run It Candidate) (taken : ℕ) (item : FeedbackItem) (items : List FeedbackItem)
      (before after : List (Worker Candidate)) (w : Worker Candidate) (read : List FeedbackItem)
      (ts : List Task) (n : ℕ)
      → w.outbox ≡ item ∷ items
      → (await_round options (item, none) run).0 ≡ run'
      → n ≡ length (before ++ w ∷ after)
      → IsLeft options run
      → IsRunning next_seed start options ts n
          (record { run = run; awaiting = true; taken = taken; workers = before ++ w ∷ after })
          read
      → Runs
          (record {
            run = run';
            awaiting = true;
            taken = taken;
            workers = before ++ record w { outbox = items } ∷ after;
          })
          (item ∷ read)
  reads-Runs run run' taken item items before after w read ts n put e all over r =
      let ((tasks, nets, same, less), feed) =
        subst (λ (x : Run It Candidate). Leaves [] item run x × (x.feed ≡ run.feed)) e
          (await_round-Leaves options item run) in
      (
        ts,
        n,
        record {
          fed = subst (λ f. IsFed next_seed start f ts) (sym feed) r.fed;
          queue = tasks ∙ append-nil run.worker_tasks ∙ r.queue;
          alone = nets ∙ r.alone;
          steady =
              IsSteady-read (length start) ts n taken run.active_workers before after w read
                r.steady item items run'.active_workers put same less;
          phase = inr (
            refl,
            all ∙ sym (length_change before after w (record w { outbox = items })),
            elim over [
              | inl none_left ↦
                  inl (ap (λ (f : Feeding It). f.seed_iterators_remaining) feed ∙ none_left)
              | inr (zero_found, stops) ↦ inr (
                subst (λ (x : Run It Candidate). x.found_zero ≡ true) e
                    (await_round-zero options item run zero_found),
                stops,
              )
            ],
          );
        },
      )

  -- The main process has read an item, and puts Finished for every worker.
  Breaks-Runs :
      (run : Run It Candidate) (taken : ℕ) (workers : List (Worker Candidate))
      (read : List FeedbackItem)
      → IsLeft options run
      → Runs (record { run = run; awaiting = false; taken = taken; workers = workers }) read
      → Runs
          (record { run = signal_stop run; awaiting = true; taken = taken; workers = workers })
          read
  Breaks-Runs run taken workers read over (ts, n, r) = elim r.phase [
    | inr (await, all, over') ↦ cc
    | inl (feeding', zero_n) ↦ signals-Runs run taken workers read ts over (before_stop zero_n r)
  ]

  pub Step-Runs :
      (format_exc : Error → Text) {s s' : System It Candidate} {read read' : List FeedbackItem}
      → 0 < length start
      → Step next_seed options format_exc s read s' read'
      → Runs s read
      → Runs s' read'
  Step-Runs format_exc h (asks run awaiting taken before after w read working ready) (ts, n, r) = (
    ts,
    n,
    record {
      fed = r.fed;
      queue = r.queue;
      alone = r.alone;
      steady =
          IsSteady-asks (length start) ts n taken run.active_workers before after w read r.steady
            working;
      phase = rw (length_change before after w (ask w)) r.phase;
    },
  )
  Step-Runs format_exc h (gets run awaiting taken draws item before after w read working at)
        (ts, n, r) =
      (
        ts,
        n,
        record {
          fed = r.fed;
          queue = r.queue;
          alone = r.alone;
          steady =
              gets-Runs format_exc run awaiting taken draws item before after w read ts n working at
                r;
          phase = rw (length_change before after w (take_item format_exc draws item w)) r.phase;
        },
      )
  Step-Runs format_exc h (feeds run run' taken item items before after w read put more e)
        (ts, n, r) =
      elim r.phase [
        | inr (await, all, over) ↦ cc
        | inl (feeding', zero_n) ↦
            Feeds-Runs run run' taken item items before after w read ts put
              (subst (λ (x : Run It Candidate). Feeds next_seed start ts item run x)
                (ap (λ (x : Run It Candidate × Result Flow). x.0) e)
                (feed_round-Feeds next_seed start ts options item run h r.fed))
              (before_stop zero_n r)
      ]
  Step-Runs format_exc h (breaks run run' taken item items before after w read put more e)
        (ts, n, r) =
      elim r.phase [
        | inr (await, all, over) ↦ cc
        | inl (feeding', zero_n) ↦
            let first = ap (λ (x : Run It Candidate × Result Flow). x.0) e in
            let zero_found =
              feed_round-break next_seed options item run
                (ap (λ (x : Run It Candidate × Result Flow). x.1) e) in
            Breaks-Runs run' taken (before ++ record w { outbox = items } ∷ after) (item ∷ read)
              (inr (
                subst (λ (x : Run It Candidate). x.found_zero ≡ true) first zero_found.0,
                zero_found.1,
              ))
              (Feeds-Runs run run' taken item items before after w read ts put
                (subst (λ (x : Run It Candidate). Feeds next_seed start ts item run x) first
                  (feed_round-Feeds next_seed start ts options item run h r.fed))
                (before_stop zero_n r))
      ]
  Step-Runs format_exc h (signals run taken workers read over) (ts, n, r) = elim r.phase [
    | inr (await, all, over') ↦ cc
    | inl (feeding', zero_n) ↦
        signals-Runs run taken workers read ts (inl ((==_iff _ 0).0 over)) (before_stop zero_n r)
  ]
  Step-Runs format_exc h (reads run run' taken item items before after w read put more e)
        (ts, n, r) =
      elim r.phase [
        | inl (feeding', zero_n) ↦ cc
        | inr (await, all, over) ↦
            reads-Runs run run' taken item items before after w read ts n put
              (ap (λ (x : Run It Candidate × Result Flow). x.0) e) all over r
      ]
