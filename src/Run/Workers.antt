-- ===== src/Run/Workers.antt =====
-- multiprocess_worker of main.py, and the workers beside the main process.
pub mod Boxes
pub mod Tail
pub mod Whole
pub mod Steps
pub mod Finish
pub mod Scores
use ee_kernel.Base.{
  ℕ, suc, ◌≡◌, Bool, true, false, Option, none, some, List, [], ◌∷◌, ◌++◌, get_elem?, set_elem,
  Text, Error, ok, ◌==◌, if◌then◌else◌,
}
use ee_kernel.Permuter.State.{
  CandidateResult, EvalResult, candidate_result, eval_error, Options, Permuter,
}
use ee_kernel.Permuter.Output.{should_output, record_result}
use ee_kernel.Permuter.Evaluation.{Calls, Draws}
use ee_kernel.Permuter.Evaluation.Try.{try_eval_candidate}
use ee_kernel.Run.Tasks.{Task}
use ee_kernel.Run.Results.{RunOptions}
use ee_kernel.Run.Loop.{
  FeedbackItem, finished, need_more_work, work_done, QueueItem, stop, task, Run, Flow, continue,
  break, feed_round, await_round, awaits, signal_stop,
}

-- A permuter of a worker, with what its evaluation calls
abbrev pub Own : Type 0 → Type 0
Own Candidate = Calls Candidate × Options × Permuter Candidate

-- A worker process: its permuters, whether it has ended, whether it has asked for work and waits, and
-- what it has put into the queue of feedback that the main process has not read yet. What one
-- process puts arrives in its order.
pub record Worker (Candidate : Type 0) : Type 0 where
  pub permuters : List (Own Candidate)
  pub ended : Bool
  pub waiting : Bool
  pub outbox : List FeedbackItem

module _ {Candidate : Type 0} where
  -- A result that should be output is recorded.
  unfoldable pub note_result : Options → Permuter Candidate × EvalResult → Permuter Candidate
  note_result options (p, candidate_result result) =
      if should_output options p result then record_result result p else p
  note_result options (p, eval_error exc_str seed) = p

  -- queue.Empty: the worker asks for more work, and waits.
  unfoldable pub ask : Worker Candidate → Worker Candidate
  ask w = record w { waiting = true; outbox = w.outbox ++ need_more_work ∷ [] }

  -- What a worker does with a task for one of its permuters. An index that is out of range ends it.
  unfoldable pub evaluate_task :
      (Error → Text) → Draws → Task → Worker Candidate → Option (Own Candidate) → Worker Candidate
  unfolding note_result
  evaluate_task format_exc draws (i, seed) w none = record w { ended = true }
  evaluate_task format_exc draws (i, seed) w (some (calls, options, p)) =
      let (p', result) = try_eval_candidate calls format_exc options draws seed p in
      record w {
        waiting = false;
        permuters = set_elem w.permuters i (calls, options, note_result options (p', result));
        outbox = w.outbox ++ work_done i result ∷ need_more_work ∷ [];
      }

  -- What a worker does with an item that it has got from its queue.
  unfoldable pub take_item :
      (Error → Text) → Draws → QueueItem → Worker Candidate → Worker Candidate
  unfolding evaluate_task
  take_item format_exc draws stop w = record w {
    ended = true;
    outbox = w.outbox ++ finished none ∷ [];
  }
  take_item format_exc draws (task (i, seed)) w =
      evaluate_task format_exc draws (i, seed) w (get_elem? w.permuters i)

-- The main process in one of its two loops, the workers, and how many items of the workers' queue
-- have been taken.
pub record System (It Candidate : Type 0) : Type 0 where
  pub run : Run It Candidate
  pub awaiting : Bool
  pub taken : ℕ
  pub workers : List (Worker Candidate)

-- A step of a worker or of the main process without connections, with the items that the main
-- process has read before and behind it, the last one first. It reads the next item of any worker,
-- and breaks off its first loop where a score of 0 stops the run. An exception in the main process,
-- or its sys.exit, ends the program, and no step follows.
pub data Step {It Candidate : Type 0} (next_seed : It → Option (ℕ × It)) (options : RunOptions)
    (format_exc : Error → Text)
    : System It Candidate
      → List FeedbackItem
      → System It Candidate
      → List FeedbackItem
      → Type 0 where
  asks :
      (run : Run It Candidate) (awaiting : Bool) (taken : ℕ)
      (before after : List (Worker Candidate)) (w : Worker Candidate) (read : List FeedbackItem)
      → w.ended ≡ false
      → w.waiting ≡ false
      → Step next_seed options format_exc
          (record { run = run; awaiting = awaiting; taken = taken; workers = before ++ w ∷ after })
          read
          (record {
            run = run;
            awaiting = awaiting;
            taken = taken;
            workers = before ++ ask w ∷ after;
          })
          read
  gets :
      (run : Run It Candidate) (awaiting : Bool) (taken : ℕ) (draws : Draws) (item : QueueItem)
      (before after : List (Worker Candidate)) (w : Worker Candidate) (read : List FeedbackItem)
      → w.ended ≡ false
      → get_elem? run.worker_tasks taken ≡ some item
      → Step next_seed options format_exc
          (record { run = run; awaiting = awaiting; taken = taken; workers = before ++ w ∷ after })
          read
          (record {
            run = run;
            awaiting = awaiting;
            taken = suc taken;
            workers = before ++ take_item format_exc draws item w ∷ after;
          })
          read
  feeds :
      (run run' : Run It Candidate) (taken : ℕ) (item : FeedbackItem) (items : List FeedbackItem)
      (before after : List (Worker Candidate)) (w : Worker Candidate) (read : List FeedbackItem)
      → w.outbox ≡ item ∷ items
      → (run.feed.seed_iterators_remaining == 0) ≡ false
      → feed_round next_seed options (item, none) run ≡ (run', ok continue)
      → Step next_seed options format_exc
          (record { run = run; awaiting = false; taken = taken; workers = before ++ w ∷ after })
          read
          (record {
            run = run';
            awaiting = false;
            taken = taken;
            workers = before ++ record w { outbox = items } ∷ after;
          })
          (item ∷ read)
  breaks :
      (run run' : Run It Candidate) (taken : ℕ) (item : FeedbackItem) (items : List FeedbackItem)
      (before after : List (Worker Candidate)) (w : Worker Candidate) (read : List FeedbackItem)
      → w.outbox ≡ item ∷ items
      → (run.feed.seed_iterators_remaining == 0) ≡ false
      → feed_round next_seed options (item, none) run ≡ (run', ok break)
      → Step next_seed options format_exc
          (record { run = run; awaiting = false; taken = taken; workers = before ++ w ∷ after })
          read
          (record {
            run = signal_stop run';
            awaiting = true;
            taken = taken;
            workers = before ++ record w { outbox = items } ∷ after;
          })
          (item ∷ read)
  signals :
      (run : Run It Candidate) (taken : ℕ) (workers : List (Worker Candidate))
      (read : List FeedbackItem)
      → (run.feed.seed_iterators_remaining == 0) ≡ true
      → Step next_seed options format_exc
          (record { run = run; awaiting = false; taken = taken; workers = workers })
          read
          (record { run = signal_stop run; awaiting = true; taken = taken; workers = workers })
          read
  reads :
      (run run' : Run It Candidate) (taken : ℕ) (item : FeedbackItem) (items : List FeedbackItem)
      (before after : List (Worker Candidate)) (w : Worker Candidate) (read : List FeedbackItem)
      → w.outbox ≡ item ∷ items
      → awaits run.active_workers run.net_tasks ≡ true
      → await_round options (item, none) run ≡ (run', ok continue)
      → Step next_seed options format_exc
          (record { run = run; awaiting = true; taken = taken; workers = before ++ w ∷ after })
          read
          (record {
            run = run';
            awaiting = true;
            taken = taken;
            workers = before ++ record w { outbox = items } ∷ after;
          })
          (item ∷ read)
