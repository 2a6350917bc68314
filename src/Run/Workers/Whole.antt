-- ===== src/Run/Workers/Whole.antt =====
-- The workers of main.py beside the main process: the bookkeeping over their tasks and results.
use ee_kernel.Base.{
  ℕ, suc, ◌+◌, ◌-◌, ◌≤◌, ◌<◌, ◌≡◌, refl, ap, subst, ◌∙◌, inl, inr, arith, false, Option, none, List,
  [], ◌∷◌, ◌++◌, length, length-append, All, take, Text, Error, ◌==◌, if◌then◌else◌,
}
use ee_kernel.Base.Count.{pair_has_eq, count}
use ee_kernel.Permuter.Evaluation.{Draws}
use ee_kernel.Run.Tasks.{Task}
use ee_kernel.Run.Loop.{FeedbackItem, finished, need_more_work, work_done, stop, task}
use ee_kernel.Run.Workers.{Worker, ask, take_item}
use ee_kernel.Run.Workers.Boxes.{
  works, works-append, IsOpen, Box, Popped, Box-pop, IsClosed-finished, IsClosed-Box,
  closed_pending, pending_of, pending_open, ended_of, total, total_change, All-change, IsTidy,
  ends_of, pends_of, works_of, take_item-task, Puts-IsTidy,
}
use ee_kernel.Run.Workers.Tail.{tasks_for, take-append, take_all}

-- The bookkeeping of the workers over the tasks and the n times Finished in their queue: how many
-- items were taken, who has ended and whose Finished is still to be read, and that each task taken
-- is a result that is read or is still to be read.
pub record IsSteady {Candidate : Type 0} (permuters : ℕ) (ts : List Task) (n taken active : ℕ)
    (workers : List (Worker Candidate)) (read : List FeedbackItem) : Type 0 where
  pub tidy : All (IsTidy permuters) workers
  pub in_queue : taken ≤ length ts + n
  pub ended : total ends_of workers ≡ taken - length ts
  pub active_left : active ≡ total pends_of workers
  pub come_back : (p : ℕ) → tasks_for p (take taken ts) ≡ total (works_of p) workers + works p read

module _ {Candidate : Type 0} (permuters : ℕ) (ts : List Task) (n taken active : ℕ)
    (before after : List (Worker Candidate)) (w : Worker Candidate) (read : List FeedbackItem)
    (s : IsSteady permuters ts n taken active (before ++ w ∷ after) read) where
  pub IsSteady-asks :
      w.ended ≡ false → IsSteady permuters ts n taken active (before ++ ask w ∷ after) read
  unfolding ask
  IsSteady-asks working =
      let (tidy, new) = All-change (IsTidy permuters) before after w s.tidy in
      let (tidy', ends, pends, count) =
        Puts-IsTidy permuters w (ask w) (need_more_work ∷ []) tidy working (tt, tt)
          (tidy.0, working, refl) in
      record {
        tidy = new (ask w) tidy';
        in_queue = s.in_queue;
        ended = omega (arith, s.ended, ends, total_change ends_of before after w (ask w));
        active_left =
            omega (arith, s.active_left, pends, total_change pends_of before after w (ask w));
        come_back = λ p.
            unfold works in
            omega (arith, s.come_back p, count p, total_change (works_of p) before after w (ask w));
      }

  pub IsSteady-task :
      (format_exc : Error → Text) (draws : Draws) (t : Task)
      → w.ended ≡ false
      → t.0 < permuters
      → taken < length ts
      → ((p : ℕ)
          → tasks_for p (take (suc taken) ts)
            ≡ tasks_for p (take taken ts) + (if t.0 == p then 1 else 0))
      → IsSteady permuters ts n
          (suc taken)
          active
          (before ++ take_item format_exc draws (task t) w ∷ after)
          read
  IsSteady-task format_exc draws (i, seed) working lt more counts =
      let w' = take_item format_exc draws (task (i, seed)) w in
      let (tidy, new) = All-change (IsTidy permuters) before after w s.tidy in
      let (result, puts) = take_item-task format_exc draws i seed permuters w lt tidy.0 working in
      let (tidy', ends, pends, count) =
        Puts-IsTidy permuters w w' (work_done i result ∷ need_more_work ∷ []) tidy working
          (tt, (tt, tt)) puts in
      record {
        tidy = new w' tidy';
        in_queue = omega (arith, more);
        ended = omega (arith, s.ended, ends, more, total_change ends_of before after w w');
        active_left = omega (arith, s.active_left, pends, total_change pends_of before after w w');
        come_back = λ p.
            unfold works in
            omega (
              arith,
              counts p,
              s.come_back p,
              count p,
              total_change (works_of p) before after w w',
            );
      }

  pub IsSteady-stop :
      (format_exc : Error → Text) (draws : Draws)
      → w.ended ≡ false
      → length ts ≤ taken
      → taken < length ts + n
      → IsSteady permuters ts n
          (suc taken)
          active
          (before ++ take_item format_exc draws stop w ∷ after)
          read
  unfolding take_item
  IsSteady-stop format_exc draws working le lt =
      let w' = take_item format_exc draws stop w in
      let (tidy, new) = All-change (IsTidy permuters) before after w s.tidy in
      let open_items : All IsOpen w.outbox = subst (λ e. Box e w.outbox) working tidy.1 in
      let closed = IsClosed-finished w.outbox open_items in
      let one : pends_of w ≡ 1 = rw working (unfold pending_of in refl) in
      let none_ended : ends_of w ≡ 0 = rw working (unfold ended_of in refl) in
      let one_ended : ends_of w' ≡ 1 = unfold ended_of in refl in
      record {
        tidy = new w' (tidy.0, IsClosed-Box (w.outbox ++ finished none ∷ []) closed);
        in_queue = omega (arith, lt);
        ended =
            omega
              (arith, s.ended, le, none_ended, one_ended, total_change ends_of before after w w');
        active_left = omega (
          arith,
          s.active_left,
          one,
          closed_pending (w.outbox ++ finished none ∷ []) closed,
          total_change pends_of before after w w',
        );
        come_back = λ p. rw (take_all (suc taken) ts (omega (arith, le))) (
            unfold works in
            omega (
              arith,
              ap (tasks_for p) (take_all taken ts le),
              s.come_back p,
              works-append p w.outbox (finished none ∷ []),
              total_change (works_of p) before after w w',
            ));
      }

  -- The main process reads an item of the worker.
  pub IsSteady-read :
      (item : FeedbackItem) (items : List FeedbackItem) (active' : ℕ)
      → w.outbox ≡ item ∷ items
      → (IsOpen item → active' ≡ active)
      → ((reason : Option Text) → item ≡ finished reason → active' ≡ active - 1)
      → IsSteady permuters ts n taken active'
          (before ++ record w { outbox = items } ∷ after)
          (item ∷ read)
  IsSteady-read item items active' put same less =
      let w' : Worker Candidate = record w { outbox = items } in
      let (tidy, new) = All-change (IsTidy permuters) before after w s.tidy in
      let ends : ends_of w' ≡ ends_of w = refl in
      let (box, left) =
        read_box (Box-pop w.ended item items (subst (λ b. Box w.ended b) put tidy.1)) in
      record {
        tidy = new w' (tidy.0, box);
        in_queue = s.in_queue;
        ended = omega (arith, s.ended, ends, total_change ends_of before after w w');
        active_left = left;
        come_back = λ p. omega (
          arith,
          s.come_back p,
          ap (works p) put,
          works-append p (item ∷ []) items,
          works-append p (item ∷ []) read,
          total_change (works_of p) before after w w',
        );
      }
    where
      read_box :
          Popped w.ended item items
          → Box w.ended items
            × (active' ≡ total pends_of (before ++ record w { outbox = items } ∷ after))
      read_box (inl (is_open, box, more)) = (
        box,
        omega (
          arith,
          same is_open,
          s.active_left,
          ap (pending_of w.ended) put,
          pending_open w.ended item items more,
          total_change pends_of before after w (record w { outbox = items }),
        ),
      )
      read_box (inr (reason, is_finished, has_ended, nothing)) =
          let old : pends_of w ≡ 1 = rw (put, has_ended) (unfold pending_of in refl) in
          let none_left : pending_of w.ended items ≡ 0 =
            rw (has_ended, nothing) (unfold pending_of in refl) in
          (
            rw (has_ended, nothing) tt,
            omega (
              arith,
              less reason is_finished,
              s.active_left,
              old,
              none_left,
              total_change pends_of before after w (record w { outbox = items }),
            ),
          )

module _ {Candidate : Type 0} (permuters : ℕ) (ts : List Task) (taken active : ℕ)
    (workers : List (Worker Candidate)) (read : List FeedbackItem)
    (s : IsSteady permuters ts 0 taken active workers read) where
  -- More tasks are put behind the tasks.
  pub IsSteady-more : (ts' : List Task) → IsSteady permuters (ts ++ ts') 0 taken active workers read
  IsSteady-more ts' =
      let len = length-append ts ts' in
      let le = s.in_queue in
      record {
        tidy = s.tidy;
        in_queue = omega (arith, le, len);
        ended = omega (arith, s.ended, le, len);
        active_left = s.active_left;
        come_back =
            λ p. ap (tasks_for p) (take-append taken ts ts' (omega (arith, le))) ∙ s.come_back p;
      }

  -- Finished is put behind the tasks.
  pub IsSteady-signal : (n : ℕ) → IsSteady permuters ts n taken active workers read
  IsSteady-signal n = record {
    tidy = s.tidy;
    in_queue = omega (arith, s.in_queue);
    ended = s.ended;
    active_left = s.active_left;
    come_back = s.come_back;
  }
