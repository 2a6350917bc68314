-- ===== src/Run/Loop/Queues.antt =====
-- The queues of tasks of main.py: what is in them when an item is put into one.
use ee_kernel.Base.{
  Option, none, some, Bool, true, false, Bool-cases, ◌==◌, ==_iff, ◌∙◌, sym, ◌≤◌, inl, inr,
  All-append, ℕ, zero, suc, ◌+◌, ◌<◌, ◌≡◌, refl, ap, arith, List, [], ◌∷◌, ◌++◌, length, All,
  if◌then◌else◌,
}
use ee_kernel.Run.Tasks.{Task}
use ee_kernel.Run.Loop.{QueueItem, stop, task, put_at}

-- The tasks in a queue
unfoldable pub tasks_in : List QueueItem → List Task
tasks_in [] = []
tasks_in (stop ∷ items) = tasks_in items
tasks_in (task t ∷ items) = t ∷ tasks_in items

-- A queue of a connection has tasks for its own permuter alone.
unfoldable pub AreOwn : ℕ → List (List QueueItem) → Type 0
unfolding tasks_in
AreOwn i [] = Unit
AreOwn i (q ∷ qs) = All (λ (t : Task). t.0 ≡ i) (tasks_in q) × AreOwn (suc i) qs

tasks_in-append : (q r : List QueueItem) → tasks_in (q ++ r) ≡ tasks_in q ++ tasks_in r
unfolding tasks_in
tasks_in-append [] r = refl
tasks_in-append (stop ∷ q) r = tasks_in-append q r
tasks_in-append (task t ∷ q) r = ap (λ ts. t ∷ ts) (tasks_in-append q r)

-- A task is put into the queue of its permuter's connection.
pub put_at-AreOwn :
    (i source : ℕ) (qs : List (List QueueItem)) (t : Task)
    → t.0 ≡ i + source
    → AreOwn i qs
    → AreOwn i (put_at qs source (task t))
unfolding AreOwn put_at
put_at-AreOwn i source [] t e own = own
put_at-AreOwn i zero (q ∷ qs) t e own = (
  rw (tasks_in-append q (task t ∷ [])) (
      All-append (λ (t : Task). t.0 ≡ i) (tasks_in q) _ own.0
        (unfold tasks_in in (omega (arith, e), tt))),
  own.1,
)
put_at-AreOwn i (suc source) (q ∷ qs) t e own =
    (own.0, put_at-AreOwn (suc i) source qs t (omega (arith, e)) own.1)

-- Where a task was put, and the task: none is the queue of the workers.
abbrev pub Sent : Type 0
Sent = Option ℕ × Task

-- The queue of the workers, or one of so many connections
abbrev pub IsPlace : ℕ → Sent → Type 0
IsPlace connections (none, t) = Unit
IsPlace connections (some i, t) = i < connections

unfoldable pub same_place : Option ℕ → Option ℕ → Bool
same_place none none = true
same_place none (some j) = false
same_place (some i) none = false
same_place (some i) (some j) = i == j

-- The tasks, wherever they were put
unfoldable pub all_sent : List Sent → List Task
all_sent [] = []
all_sent ((place, t) ∷ sent) = t ∷ all_sent sent

-- The tasks that were put to the place
unfoldable pub tasks_to : Option ℕ → List Sent → List Task
unfolding same_place
tasks_to place [] = []
tasks_to place ((place', t) ∷ sent) =
    let rest = tasks_to place sent in if same_place place place' then t ∷ rest else rest

-- The queues from the i-th on hold what was put to them, in this order.
unfoldable pub AreQueued : ℕ → List Sent → List (List QueueItem) → Type 0
unfolding tasks_in tasks_to
AreQueued i sent [] = Unit
AreQueued i sent (q ∷ qs) = (tasks_in q ≡ tasks_to (some i) sent) × AreQueued (suc i) sent qs

all_sent-append :
    (sent : List Sent) (place : Option ℕ) (t : Task)
    → all_sent (sent ++ (place, t) ∷ []) ≡ all_sent sent ++ t ∷ []
unfolding all_sent
all_sent-append [] place t = refl
all_sent-append (x ∷ sent) place t = ap (λ ts. x.1 ∷ ts) (all_sent-append sent place t)

tasks_to-same :
    (place : Option ℕ) (sent : List Sent) (place' : Option ℕ) (t : Task)
    → same_place place place' ≡ true
    → tasks_to place (sent ++ (place', t) ∷ []) ≡ tasks_to place sent ++ t ∷ []
unfolding tasks_to
tasks_to-same place [] place' t e = rw e refl
tasks_to-same place (x ∷ sent) place' t e = elim (Bool-cases (same_place place x.0)) [
  | inl here ↦ rw here (ap (λ ts. x.1 ∷ ts) (tasks_to-same place sent place' t e))
  | inr not_here ↦ rw not_here (tasks_to-same place sent place' t e)
]

tasks_to-other :
    (place : Option ℕ) (sent : List Sent) (place' : Option ℕ) (t : Task)
    → same_place place place' ≡ false
    → tasks_to place (sent ++ (place', t) ∷ []) ≡ tasks_to place sent
unfolding tasks_to
tasks_to-other place [] place' t e = rw e refl
tasks_to-other place (x ∷ sent) place' t e = elim (Bool-cases (same_place place x.0)) [
  | inl here ↦ rw here (ap (λ ts. x.1 ∷ ts) (tasks_to-other place sent place' t e))
  | inr not_here ↦ rw not_here (tasks_to-other place sent place' t e)
]

-- What is put elsewhere changes none of the queues.
AreQueued-other :
    (i : ℕ) (sent : List Sent) (qs : List (List QueueItem)) (place : Option ℕ) (t : Task)
    → ((j : ℕ) → i ≤ j → same_place (some j) place ≡ false)
    → AreQueued i sent qs
    → AreQueued i (sent ++ (place, t) ∷ []) qs
unfolding AreQueued
AreQueued-other i sent [] place t other queued = tt
AreQueued-other i sent (q ∷ qs) place t other queued = (
  queued.0 ∙ sym (tasks_to-other (some i) sent place t (other i (omega arith))),
  AreQueued-other (suc i) sent qs place t (λ j le. other j (omega (arith, le))) queued.1,
)

later_place : (i j : ℕ) → i < j → same_place (some j) (some i) ≡ false
unfolding same_place
later_place i j lt = ground arith

put_at-AreQueued :
    (i source place : ℕ) (sent : List Sent) (qs : List (List QueueItem)) (t : Task)
    → place ≡ i + source
    → AreQueued i sent qs
    → AreQueued i (sent ++ (some place, t) ∷ []) (put_at qs source (task t))
unfolding AreQueued put_at
put_at-AreQueued i source place sent [] t e queued = tt
put_at-AreQueued i zero place sent (q ∷ qs) t e queued = (
  tasks_in-append q (task t ∷ [])
      ∙ ap (λ ts. ts ++ t ∷ []) queued.0
      ∙ sym (
          tasks_to-same (some i) sent (some place) t
            (unfold same_place in (==_iff i place).1 (omega (arith, e)))),
  AreQueued-other (suc i) sent qs (some place) t
      (λ j le. later_place place j (omega (arith, e, le))) queued.1,
)
put_at-AreQueued i (suc source) place sent (q ∷ qs) t e queued = (
  queued.0
      ∙ sym (tasks_to-other (some i) sent (some place) t (unfold same_place in ground (arith, e))),
  put_at-AreQueued (suc i) source place sent qs t (omega (arith, e)) queued.1,
)

pub length-put_at :
    (qs : List (List QueueItem)) (source : ℕ) (item : QueueItem)
    → length (put_at qs source item) ≡ length qs
unfolding put_at
length-put_at [] source item = refl
length-put_at (q ∷ qs) zero item = refl
length-put_at (q ∷ qs) (suc source) item = ap suc (length-put_at qs source item)

-- The queues hold the tasks of the log: each was put to one place, and every queue holds what was
-- put to it, in the order of the log.
abbrev pub ArePut : List QueueItem → List (List QueueItem) → List Task → Type 0
ArePut workers connections log =
    (sent : List Sent) × (all_sent sent ≡ log)
    × All (IsPlace (length connections)) sent
    × (tasks_in workers ≡ tasks_to none sent)
    × AreQueued 0 sent connections

none_same : same_place none none ≡ true
unfolding same_place
none_same = refl

pub ArePut-workers :
    (workers : List QueueItem) (connections : List (List QueueItem)) (log : List Task) (t : Task)
    → ArePut workers connections log
    → ArePut (workers ++ task t ∷ []) connections (log ++ t ∷ [])
unfolding tasks_in
ArePut-workers workers connections log t (sent, whole, places, own, queued) = (
  sent ++ (none, t) ∷ [],
  all_sent-append sent none t ∙ ap (λ ts. ts ++ t ∷ []) whole,
  All-append (IsPlace (length connections)) sent _ places (tt, tt),
  tasks_in-append workers (task t ∷ [])
      ∙ ap (λ ts. ts ++ t ∷ []) own
      ∙ sym (tasks_to-same none sent none t none_same),
  AreQueued-other 0 sent connections none t (λ j le. unfold same_place in refl) queued,
)

pub ArePut-connection :
    (workers : List QueueItem) (connections : List (List QueueItem)) (log : List Task) (source : ℕ)
    (t : Task)
    → source < length connections
    → ArePut workers connections log
    → ArePut workers (put_at connections source (task t)) (log ++ t ∷ [])
ArePut-connection workers connections log source t lt (sent, whole, places, own, queued) =
    rw (length-put_at connections source (task t)) (
      sent ++ (some source, t) ∷ [],
      all_sent-append sent (some source) t ∙ ap (λ ts. ts ++ t ∷ []) whole,
      All-append (IsPlace (length connections)) sent _ places (lt, tt),
      own ∙ sym (tasks_to-other none sent (some source) t (unfold same_place in refl)),
      put_at-AreQueued 0 source source sent connections t (omega arith) queued,
    )
