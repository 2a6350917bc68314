-- ===== src/Run/Loop.antt =====
-- The loops of run_inner of main.py that feed the workers and await their results.
pub mod Queues
pub mod Fed
use ee_kernel.Base.{
  ℕ, zero, suc, ◌-◌, Bool, true, false, ◌&&◌, ◌||◌, Option, none, some, List, [], ◌∷◌, ◌++◌, Text,
  Result, ok, err, ◌==◌, if◌then◌else◌,
}
use ee_kernel.Run.Tasks.{Feeding, Task, get_task}
use ee_kernel.Permuter.State.{EvalResult}
use ee_kernel.Run.Results.{RunOptions, EvalContext, process_result}

-- FeedbackItem of permuter.py
pub data FeedbackItem : Type 0 where
  finished : (reason : Option Text) → FeedbackItem
  message : (text : Text) → FeedbackItem
  need_more_work : FeedbackItem
  work_done : (perm_index : ℕ) → EvalResult → FeedbackItem

-- Feedback of permuter.py, without the name that is printed: the source is a connection's index, or
-- none for -1, which the local workers send.
abbrev pub Feedback : Type 0
Feedback = FeedbackItem × Option ℕ

-- What is put into a queue of tasks: Finished, or a task
pub data QueueItem : Type 0 where
  stop : QueueItem
  task : Task → QueueItem

-- The variables of run_inner, and what it has put into the queue of the workers and into those of
-- the connections
pub record Run (It Candidate : Type 0) : Type 0 where
  pub context : EvalContext Candidate
  pub feed : Feeding It
  pub active_workers : ℕ
  pub found_zero : Bool
  pub worker_tasks : List QueueItem
  pub net_tasks : List (List QueueItem)

-- A round of a loop goes on to the next one, or breaks off.
pub data Flow : Type 0 where
  continue break : Flow

-- An item more in the i-th queue
unfoldable pub put_at : List (List QueueItem) → ℕ → QueueItem → List (List QueueItem)
put_at [] i item = []
put_at (q ∷ qs) zero item = (q ++ item ∷ []) ∷ qs
put_at (q ∷ qs) (suc i) item = q ∷ put_at qs i item

-- An item more in every queue
unfoldable pub put_all : List (List QueueItem) → QueueItem → List (List QueueItem)
put_all [] item = []
put_all (q ∷ qs) item = (q ++ item ∷ []) ∷ put_all qs item

-- n times the item
unfoldable pub copies : ℕ → QueueItem → List QueueItem
copies zero item = []
copies (suc n) item = item ∷ copies n item

-- active_workers > 0 or net_conns
abbrev pub awaits : ℕ → List (List QueueItem) → Bool
awaits zero [] = false
awaits zero (q ∷ qs) = true
awaits (suc n) qs = true

module _ {It Candidate : Type 0} where
  -- process_finish
  unfoldable pub process_finish : Option ℕ → Run It Candidate → Run It Candidate
  process_finish none run = record run { active_workers = run.active_workers - 1 }
  process_finish (some source) run = run

  -- A result that has been processed
  unfoldable pub note_zero :
      RunOptions
      → Run It Candidate
      → EvalContext Candidate × Result Bool
      → Run It Candidate × Result Flow
  note_zero options run (context, err e) = (record run { context = context }, err e)
  note_zero options run (context, ok false) = (record run { context = context }, ok continue)
  note_zero options run (context, ok true) = (
    record run { context = context; found_zero = true },
    ok (if options.stop_on_zero then break else continue),
  )

  -- worker_task_queue.put(task), or net_conns[source][1].put(task)
  unfoldable pub put_task : Option ℕ → Task → Run It Candidate → Run It Candidate
  unfolding put_at
  put_task none next run = record run { worker_tasks = run.worker_tasks ++ task next ∷ [] }
  put_task (some source) next run = record run {
    net_tasks = put_at run.net_tasks source (task next);
  }

  unfoldable pub feed_task :
      Option ℕ
      → Run It Candidate
      → Feeding It × Result (Option Task)
      → Run It Candidate × Result Flow
  unfolding put_task
  feed_task source run (feed, err e) = (record run { feed = feed }, err e)
  feed_task source run (feed, ok none) = (record run { feed = feed }, ok continue)
  feed_task source run (feed, ok (some next)) =
      (put_task source next (record run { feed = feed }), ok continue)

  -- A round of the loop that feeds the queues
  unfoldable pub feed_round :
      (It → Option (ℕ × It))
      → RunOptions
      → Feedback
      → Run It Candidate
      → Run It Candidate × Result Flow
  unfolding process_finish note_zero feed_task
  feed_round next_seed options (finished reason, source) run =
      (process_finish source run, ok continue)
  feed_round next_seed options (message text, source) run = (run, ok continue)
  feed_round next_seed options (work_done perm_index result, source) run =
      note_zero options run (process_result options perm_index result run.context)
  feed_round next_seed options (need_more_work, source) run =
      feed_task source run (get_task next_seed source run.feed)

  -- A result that has been processed while the last results are awaited
  unfoldable pub note_last :
      Run It Candidate → EvalContext Candidate × Result Bool → Run It Candidate × Result Flow
  note_last run (context, err e) = (record run { context = context }, err e)
  note_last run (context, ok found) =
      (record run { context = context; found_zero = run.found_zero || found }, ok continue)

  -- A round of the loop that awaits the last results
  unfoldable pub await_round :
      RunOptions → Feedback → Run It Candidate → Run It Candidate × Result Flow
  unfolding process_finish note_last
  await_round options (finished reason, source) run = (process_finish source run, ok continue)
  await_round options (message text, source) run = (run, ok continue)
  await_round options (need_more_work, source) run = (run, ok continue)
  await_round options (work_done perm_index result, source) run =
      if options.stop_on_zero && run.found_zero
      then (run, ok continue)
      else note_last run (process_result options perm_index result run.context)

  -- What follows a round: none is a loop that still waits for feedback.
  unfoldable pub then_round :
      List Feedback
      → Run It Candidate × Result Flow
      → (Run It Candidate → Run It Candidate × Result (Option (List Feedback)))
      → Run It Candidate × Result (Option (List Feedback))
  then_round feedback (run, err e) more = (run, err e)
  then_round feedback (run, ok break) more = (run, ok (some feedback))
  then_round feedback (run, ok continue) more = more run

  -- The loop that feeds the queues, over what it gets from the feedback queue. It returns the
  -- feedback that it has not read.
  unfoldable pub feed_loop :
      (It → Option (ℕ × It))
      → RunOptions
      → List Feedback
      → Run It Candidate
      → Run It Candidate × Result (Option (List Feedback))
  unfolding feed_round then_round
  feed_loop next_seed options [] run =
      (run, ok (if run.feed.seed_iterators_remaining == 0 then some [] else none))
  feed_loop next_seed options (next ∷ feedback) run =
      if run.feed.seed_iterators_remaining == 0
      then (run, ok (some (next ∷ feedback)))
      else then_round feedback (feed_round next_seed options next run)
          (feed_loop next_seed options feedback)

  -- Finished() for every worker and for every connection
  unfoldable pub signal_stop : Run It Candidate → Run It Candidate
  unfolding put_all copies
  signal_stop run = record run {
    worker_tasks = run.worker_tasks ++ copies run.active_workers stop;
    net_tasks = put_all run.net_tasks stop;
  }

  -- The loop that awaits the last results
  unfoldable pub await_loop :
      RunOptions
      → List Feedback
      → Run It Candidate
      → Run It Candidate × Result (Option (List Feedback))
  unfolding await_round then_round
  await_loop options [] run =
      (run, ok (if awaits run.active_workers run.net_tasks then none else some []))
  await_loop options (next ∷ feedback) run =
      if awaits run.active_workers run.net_tasks
      then then_round feedback (await_round options next run) (await_loop options feedback)
      else (run, ok (some (next ∷ feedback)))

  -- The second loop behind the first one
  unfoldable pub then_await :
      RunOptions
      → Run It Candidate × Result (Option (List Feedback))
      → Run It Candidate × Result (Option (List Feedback))
  unfolding signal_stop await_loop
  then_await options (run, err e) = (run, err e)
  then_await options (run, ok none) = (run, ok none)
  then_await options (run, ok (some feedback)) = await_loop options feedback (signal_stop run)

  -- Both loops of run_inner
  unfoldable pub run_workers :
      (It → Option (ℕ × It))
      → RunOptions
      → List Feedback
      → Run It Candidate
      → Run It Candidate × Result (Option (List Feedback))
  unfolding feed_loop then_await
  run_workers next_seed options feedback run =
      then_await options (feed_loop next_seed options feedback run)
