-- ===== src/Run/Loop/Fed.antt =====
-- What the loop of main.py that feeds the queues has put into them.
use mathlib.Core.Option.{some-injective}
use ee_kernel.Base.{
  ℕ, ◌<◌, ◌≡◌, refl, sym, subst, ◌⊎◌, inl, inr, arith, Bool, true, false, Bool-cases, Option, none,
  some, List, [], ◌∷◌, ◌++◌, length, All, Result, ok, err, ◌==◌, ==_iff,
}
use ee_kernel.Run.Tasks.{Feeding, Task}
use ee_kernel.Run.Tasks.Handed.{logged, IsFed}
use ee_kernel.Run.Tasks.Turns.{IsSource, get_task-IsFed}
use ee_kernel.Run.Results.{RunOptions, EvalContext, process_result}
use ee_kernel.Run.Loop.Queues.{
  AreOwn, ArePut, ArePut-workers, ArePut-connection, put_at-AreOwn, length-put_at,
}
use ee_kernel.Run.Loop.{
  FeedbackItem, finished, message, need_more_work, work_done, Feedback, task, Run, Flow, continue,
  break, process_finish, note_zero, put_task, feed_task, feed_round, then_round, feed_loop,
}

-- Feedback of a local worker, or of one of the connections, which have a permuter each
abbrev pub IsFrom : ℕ → ℕ → Feedback → Type 0
IsFrom permuters connections (item, none) = 0 < permuters
IsFrom permuters connections (item, some p) = (p < permuters) × (p < connections)

from_IsSource :
    (permuters connections : ℕ) (source : Option ℕ)
    → IsFrom permuters connections (need_more_work, source)
    → IsSource source permuters
from_IsSource permuters connections none from = from
from_IsSource permuters connections (some p) from = from.0

pub ok-injective : {A : Type 0} {a b : A} → ok a ≡ ok b → a ≡ b
ok-injective e = cc

module _ {It Candidate : Type 0} (next_seed : It → Option (ℕ × It)) (start : List It) where
  -- The tasks handed out are those of the iterators. Each was put into one queue, and the queues
  -- hold them in the order they were handed out, those of a connection being its permuter's own.
  pub record IsFeeding (run : Run It Candidate) (log : List Task) : Type 0 where
    pub fed : IsFed next_seed start run.feed log
    pub put : ArePut run.worker_tasks run.net_tasks log
    pub own : AreOwn 0 run.net_tasks

  put_task-IsFeeding :
      (source : Option ℕ) (item : FeedbackItem) (t : Task) (run : Run It Candidate)
      (log : List Task)
      → IsFrom (length start) (length run.net_tasks) (item, source)
      → ((p : ℕ) → source ≡ some p → t.0 ≡ p)
      → IsFed next_seed start run.feed (log ++ t ∷ [])
      → ArePut run.worker_tasks run.net_tasks log
      → AreOwn 0 run.net_tasks
      → IsFeeding (put_task source t run) (log ++ t ∷ [])
  unfolding put_task
  put_task-IsFeeding none item t run log from is_own fed put own = record {
    fed = fed;
    put = ArePut-workers run.worker_tasks run.net_tasks log t put;
    own = own;
  }
  put_task-IsFeeding (some p) item t run log from is_own fed put own = record {
    fed = fed;
    put = ArePut-connection run.worker_tasks run.net_tasks log p t from.1 put;
    own = put_at-AreOwn 0 p run.net_tasks t (omega (arith, is_own p refl)) own;
  }

  length-put_task :
      (source : Option ℕ) (t : Task) (run : Run It Candidate)
      → length (put_task source t run).net_tasks ≡ length run.net_tasks
  unfolding put_task
  length-put_task none t run = refl
  length-put_task (some p) t run = length-put_at run.net_tasks p (task t)

  -- A round that goes on or breaks off keeps the queues.
  abbrev pub Round :
      RunOptions → Run It Candidate → List Task → Run It Candidate × Result Flow → Type 0
  Round options run log (run', r) =
      (log' : List Task) × IsFeeding run' log'
      × (length run'.net_tasks ≡ length run.net_tasks)
      × (r ≡ ok break → (run'.found_zero ≡ true) × (options.stop_on_zero ≡ true))

  note_zero-Round :
      (options : RunOptions) (run : Run It Candidate) (log : List Task)
      (r : EvalContext Candidate × Result Bool)
      → IsFeeding run log
      → Round options run log (note_zero options run r)
  unfolding note_zero
  note_zero-Round options run log (context, err e) f =
      (log, record { fed = f.fed; put = f.put; own = f.own }, refl, λ e. cc)
  note_zero-Round options run log (context, ok false) f =
      (log, record { fed = f.fed; put = f.put; own = f.own }, refl, λ e. cc)
  note_zero-Round options run log (context, ok true) f =
      (log, record { fed = f.fed; put = f.put; own = f.own }, refl, λ e. (refl, ground (arith, e)))

  feed_task-Round :
      (options : RunOptions) (source : Option ℕ) (item : FeedbackItem) (run : Run It Candidate)
      (log : List Task) (r : Feeding It × Result (Option Task)) (o : Option Task)
      → IsFrom (length start) (length run.net_tasks) (item, source)
      → IsFeeding run log
      → r.1 ≡ ok o
      → IsFed next_seed start r.0 (logged log o)
      → ((p : ℕ) (t : Task) → source ≡ some p → o ≡ some t → t.0 ≡ p)
      → Round options run log (feed_task source run r)
  unfolding feed_task
  feed_task-Round options source item run log (feed, err x) o from f e fed own = cc
  feed_task-Round options source item run log (feed, ok none) (some t) from f e fed own = cc
  feed_task-Round options source item run log (feed, ok (some t)) none from f e fed own = cc
  feed_task-Round options source item run log (feed, ok none) none from f e fed own =
      (log, record { fed = fed; put = f.put; own = f.own }, refl, λ e'. cc)
  feed_task-Round options source item run log (feed, ok (some t')) (some t) from f e fed own =
      let same : t' ≡ t = some-injective _ _ (ok-injective e) in
      rw same (
        log ++ t ∷ [],
        put_task-IsFeeding source item t (record run { feed = feed }) log from
            (λ p from'. own p t from' refl) fed f.put f.own,
        length-put_task source t (record run { feed = feed }),
        λ e'. cc,
      )

  pub feed_round-Round :
      (options : RunOptions) (next : Feedback) (run : Run It Candidate) (log : List Task)
      → IsFrom (length start) (length run.net_tasks) next
      → IsFeeding run log
      → Round options run log (feed_round next_seed options next run)
  unfolding feed_round process_finish
  feed_round-Round options (finished reason, none) run log from f =
      (log, record { fed = f.fed; put = f.put; own = f.own }, refl, λ e. cc)
  feed_round-Round options (finished reason, some source) run log from f = (log, f, refl, λ e. cc)
  feed_round-Round options (message text, source) run log from f = (log, f, refl, λ e. cc)
  feed_round-Round options (work_done perm_index result, source) run log from f =
      note_zero-Round options run log (process_result options perm_index result run.context) f
  feed_round-Round options (need_more_work, source) run log from f =
      let (o, e, fed, over, own) =
        get_task-IsFed next_seed start run.feed log source f.fed
          (from_IsSource (length start) (length run.net_tasks) source from) in
      feed_task-Round options source need_more_work run log _ o from f e fed own

  -- What the loop leaves: the queues, and why it has ended if it has.
  abbrev pub Fed : RunOptions → Run It Candidate × Result (Option (List Feedback)) → Type 0
  Fed options (run, r) =
      (log : List Task) × IsFeeding run log
      × ((rest : List Feedback)
          → r ≡ ok (some rest)
          → (run.feed.seed_iterators_remaining ≡ 0)
            ⊎ (run.found_zero ≡ true) × (options.stop_on_zero ≡ true))

  then_round-Fed :
      (options : RunOptions) (run : Run It Candidate) (log : List Task) (feedback : List Feedback)
      (r : Run It Candidate × Result Flow)
      → Round options run log r
      → ((run' : Run It Candidate) (log' : List Task)
          → length run'.net_tasks ≡ length run.net_tasks
          → IsFeeding run' log'
          → Fed options (feed_loop next_seed options feedback run'))
      → Fed options (then_round feedback r (feed_loop next_seed options feedback))
  unfolding then_round
  then_round-Fed options run log feedback (run', err e) (log', f, same, stopped) more =
      (log', f, λ rest e'. cc)
  then_round-Fed options run log feedback (run', ok break) (log', f, same, stopped) more =
      (log', f, λ rest e'. inr (stopped refl))
  then_round-Fed options run log feedback (run', ok continue) (log', f, same, stopped) more =
      more run' log' same f

  -- Over any feedback of local workers and of the connections, from tasks and queues that fit the
  -- iterators on, the tasks that the loop has handed out are for each permuter what its iterator has
  -- given, in order; each of them was put into one queue, every queue holds those that were put into
  -- it in the order they were handed out and no others, and a connection's queue has tasks for its
  -- own permuter alone; and if the loop has ended without an exception, no iterator is left, or a
  -- score of 0 was found and the run stops there.
  pub feed_loop-Fed :
      (options : RunOptions) (feedback : List Feedback) (run : Run It Candidate) (log : List Task)
      → All (IsFrom (length start) (length run.net_tasks)) feedback
      → IsFeeding run log
      → Fed options (feed_loop next_seed options feedback run)
  unfolding feed_loop
  feed_loop-Fed options [] run log from f =
      elim (Bool-cases (run.feed.seed_iterators_remaining == 0)) [
        | inl done ↦ rw done (log, f, λ rest e. inl ((==_iff _ 0).0 done))
        | inr more ↦ rw more (log, f, λ rest e. cc)
      ]
  feed_loop-Fed options (next ∷ feedback) run log from f =
      elim (Bool-cases (run.feed.seed_iterators_remaining == 0)) [
        | inl done ↦ rw done (log, f, λ rest e. inl ((==_iff _ 0).0 done))
        | inr more ↦ rw more (
            then_round-Fed options run log feedback (feed_round next_seed options next run)
              (feed_round-Round options next run log from.0 f)
              λ run' log' same f'.
                feed_loop-Fed options feedback run' log'
                  (subst (λ n. All (IsFrom (length start) n) feedback) (sym same) from.1) f')
      ]
