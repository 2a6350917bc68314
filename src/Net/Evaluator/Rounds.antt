-- ===== src/Net/Evaluator/Rounds.antt =====
-- The rounds of main in net/evaluator.py, as steps, and the workers beside it.
use ee_kernel.Base.{
  ℕ, ◌+◌, ◌≡◌, refl, ap, subst, inl, inr, arith, true, Bool-cases, List, [], ◌∷◌, ◌++◌, length,
  length-append, Text, lookup, insert, Result, ok, err,
}
use ee_kernel.Base.Int.{ℤ, pos, minus}
use ee_kernel.Net.Data.{PermuterData}
use ee_kernel.Net.Server.{handle_eq}
use ee_kernel.Net.Evaluator.{
  Creation, built, failed, EvalResult, Work, add, remove, start_work, work_done, LocalTask,
  add_local, Evaluator, evaluator, remaining, try_remove, send_result, add_permuter, handle_task,
  obey, catch_up,
}
use ee_kernel.Net.Evaluator.Log.{
  replay, has, IsTimed, IsPresent, IsPresent-later, Finds, catch_up-Finds, IsTimed-later,
}
use ee_kernel.Net.Evaluator.Available.{
  Pending, pending_of, IsHeld, IsConsistent, told, add_stays, try_remove-IsConsistent,
  IsLogged-start, IsHeld-finish, IsCounted-start, IsCounted-finish,
}

-- A round of main, with what the workers still have to do before and behind it. The server gives
-- work for permuters alone that are there, and a worker reports what it has been given.
pub data Step (create : PermuterData → Creation)
    : Evaluator → Pending → Evaluator → Pending → Type 0 where
  adds :
      (spent_us : ℤ) (perm_id : Text) (p : PermuterData) (s : Evaluator) (pending : Pending)
      → Step create s pending (handle_task create spent_us (add perm_id p) s).0 pending
  removes :
      (spent_us : ℤ) (perm_id : Text) (s : Evaluator) (pending : Pending)
      → Step create s pending (handle_task create spent_us (remove perm_id) s).0 pending
  starts :
      (spent_us : ℤ) (work : Work) (s : Evaluator) (pending : Pending)
      → has work.perm_id s.permuters ≡ true
      → Step create s pending
          (handle_task create spent_us (start_work work) s).0
          ((work.perm_id, s.timestamp) ∷ pending)
  finishes :
      (spent_us : ℤ) (perm_id : Text) (t : ℕ) (id time_us : ℤ) (result : EvalResult) (s : Evaluator)
      (before after pending : Pending)
      → pending ≡ before ++ (perm_id, t) ∷ after
      → Step create s pending
          (handle_task create spent_us (work_done perm_id id time_us result) s).0
          (before ++ after)

pub data Reach (create : PermuterData → Creation) : Evaluator → Pending → Type 0 where
  here : Reach create evaluator []
  next :
      {s s' : Evaluator} {pending pending' : Pending}
      → Reach create s pending
      → Step create s pending s' pending'
      → Reach create s' pending'

add_permuter-IsConsistent :
    (q : Text) (p : PermuterData) (c : Creation) (spent_us : ℤ) (s : Evaluator) (pending : Pending)
    → IsConsistent s pending
    → IsConsistent (add_permuter q p c spent_us s) pending
unfolding add_permuter obey
add_permuter-IsConsistent q p (failed exc_str) spent_us s pending c = c
add_permuter-IsConsistent q p (built perm) spent_us s pending c =
    elim (Bool-cases (handle_eq perm.base_score p.base_score)) [
      | inl same ↦ rw same (
        told s.permuters s.local_queue (add_local q perm) s.timestamp pending c.0
            (add_stays q perm s.permuters s.local_queue pending c.0.3),
        c.1,
      )
      | inr other ↦ rw other c
    ]

module _ (create : PermuterData → Creation) (spent_us : ℤ) (s : Evaluator) (pending : Pending)
    (c : IsConsistent s pending) where
  adds-IsConsistent :
      (q : Text) (p : PermuterData)
      → IsConsistent (handle_task create spent_us (add q p) s).0 pending
  unfolding handle_task
  adds-IsConsistent q p = elim (Bool-cases (has q s.permuters)) [
    | inl there ↦ rw there c
    | inr new ↦ rw new (add_permuter-IsConsistent q p (create p) spent_us s pending c)
  ]

  removes-IsConsistent :
      (q : Text) → IsConsistent (handle_task create spent_us (remove q) s).0 pending
  unfolding handle_task
  removes-IsConsistent q = elim (Bool-cases (has q s.permuters)) [
    | inl there ↦
        rw there
          (try_remove-IsConsistent q (record s { should_remove = q ∷ s.should_remove }) pending
            there c).0
    | inr gone ↦ rw gone c
  ]

  starts-IsConsistent :
      (work : Work)
      → has work.perm_id s.permuters ≡ true
      → IsConsistent
          (handle_task create spent_us (start_work work) s).0
          ((work.perm_id, s.timestamp) ∷ pending)
  unfolding handle_task
  starts-IsConsistent work there = (
    IsLogged-start s.permuters s.local_queue work.perm_id s.timestamp pending there c.0,
    IsCounted-start work.perm_id s.timestamp s.remaining_work pending c.1,
  )

finished :
    (q : Text) (t : ℕ) (s : Evaluator) (before after : Pending)
    → IsConsistent s (before ++ (q, t) ∷ after)
    → IsHeld s.permuters s.local_queue (q, t)
      × IsConsistent
          (record s {
            remaining_work =
                insert q (minus (remaining q s.remaining_work) (pos 1)) s.remaining_work;
          })
          (before ++ after)
finished q t s before after ((clock, timed, replayed, held), counted) =
    let (one, rest) = IsHeld-finish s.permuters s.local_queue before after (q, t) held in
    (
      one,
      ((clock, timed, replayed, rest), IsCounted-finish q t s.remaining_work before after counted),
    )

finishes-IsConsistent :
    (create : PermuterData → Creation) (spent_us : ℤ) (q : Text) (t : ℕ) (id time_us : ℤ)
    (result : EvalResult) (s : Evaluator) (before after : Pending)
    → IsConsistent s (before ++ (q, t) ∷ after)
    → IsConsistent
        (handle_task create spent_us (work_done q id time_us result) s).0
        (before ++ after)
      × ((handle_task create spent_us (work_done q id time_us result) s).1 ≡ ok tt)
unfolding handle_task
finishes-IsConsistent create spent_us q t id time_us result s before after c =
    let ((there, le, present), c') = finished q t s before after c in
    answered
      (try_remove q (record s {
        remaining_work = insert q (minus (remaining q s.remaining_work) (pos 1)) s.remaining_work;
      }))
      (try_remove-IsConsistent q
        (record s {
          remaining_work = insert q (minus (remaining q s.remaining_work) (pos 1)) s.remaining_work;
        })
        (before ++ after) there c')
  where
    answered :
        (r : Evaluator × Result (Unit {0}))
        → IsConsistent r.0 (before ++ after) × (r.1 ≡ ok tt)
        → (let r' : Evaluator × Result (Unit {0}) = elim r.1 [
          | err e ↦ (r.0, err e)
          | ok u ↦ (record r.0 { sent = r.0.sent ++ send_result q id time_us result }, ok tt)
        ] in
            IsConsistent r'.0 (before ++ after) × (r'.1 ≡ ok tt))
    answered (s', err e) h = cc (h.1)
    answered (s', ok u) h = (h.0, refl)

Step-IsConsistent :
    {create : PermuterData → Creation} {s s' : Evaluator} {pending pending' : Pending}
    → Step create s pending s' pending'
    → IsConsistent s pending
    → IsConsistent s' pending'
Step-IsConsistent {create} (adds spent_us q p s pending) c =
    adds-IsConsistent create spent_us s pending c q p
Step-IsConsistent {create} (removes spent_us q s pending) c =
    removes-IsConsistent create spent_us s pending c q
Step-IsConsistent {create} (starts spent_us work s pending there) c =
    starts-IsConsistent create spent_us s pending c work there
Step-IsConsistent {create} (finishes spent_us q t id time_us result s before after pending e) c =
    (finishes-IsConsistent create spent_us q t id time_us result s before after
      (subst (IsConsistent s) e c)).0

evaluator-IsConsistent : IsConsistent evaluator []
unfolding replay remaining pending_of lookup
evaluator-IsConsistent = ((refl, tt, refl, tt), λ p. refl)

pub Reach-IsConsistent :
    {create : PermuterData → Creation} {s : Evaluator} {pending : Pending}
    → Reach create s pending
    → IsConsistent s pending
Reach-IsConsistent here = evaluator-IsConsistent
Reach-IsConsistent (next r step) = Step-IsConsistent step (Reach-IsConsistent r)

zero_plus : (n : ℕ) → 0 + n ≡ n
zero_plus n = omega arith

-- At every time, a worker that takes up work that is pending, wherever it is in its local queue and
-- however much of that it sees, does not block forever, and has the permuter of the work.
pub worker-Finds :
    (create : PermuterData → Creation) (s : Evaluator) (pending before after : Pending) (q : Text)
    (required visible : ℕ) (seen queue : List (LocalTask × ℕ))
    → Reach create s pending
    → pending ≡ before ++ (q, required) ∷ after
    → s.local_queue ≡ seen ++ queue
    → Finds q required (catch_up required visible (length seen) queue (replay [] seen))
worker-Finds create s pending before after q required visible seen queue reached e parts =
    let ((clock, timed, replayed, held), counted) =
      subst (IsConsistent s) e (Reach-IsConsistent reached) in
    let ((there, le, present), rest) =
      IsHeld-finish s.permuters s.local_queue before after (q, required) held in
    catch_up-Finds q required visible (length seen) queue (replay [] seen)
      (subst (λ n. IsTimed n queue) (zero_plus (length seen))
        (IsTimed-later 0 seen queue (subst (IsTimed 0) parts timed)))
      (subst (λ n. IsPresent q required n (replay [] seen) queue) (zero_plus (length seen))
        (IsPresent-later q required 0 [] seen queue
          (subst (IsPresent q required 0 []) parts present)))
      (omega (arith, le, ap length parts, length-append seen queue))

-- In every state that the rounds of the evaluator reach, where work is given for permuters that are
-- there, and a result comes back for pending work, such a result does not fail the assertion that its
-- permuter is there.
pub work_done_lem :
    (create : PermuterData → Creation) (s : Evaluator) (pending before after : Pending) (q : Text)
    (t : ℕ) (spent_us id time_us : ℤ) (result : EvalResult)
    → Reach create s pending
    → pending ≡ before ++ (q, t) ∷ after
    → (handle_task create spent_us (work_done q id time_us result) s).1 ≡ ok tt
work_done_lem create s pending before after q t spent_us id time_us result reached e =
    (finishes-IsConsistent create spent_us q t id time_us result s before after
      (subst (IsConsistent s) e (Reach-IsConsistent reached))).1
