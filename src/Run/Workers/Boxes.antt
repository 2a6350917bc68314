-- ===== src/Run/Workers/Boxes.antt =====
-- The feedback of the workers of main.py that has not been read.
use ee_kernel.Base.{
  All-append, ℕ, suc, ◌+◌, ◌<◌, ◌≡◌, refl, ap, subst, ◌∙◌, ◌⊎◌, inl, inr, arith, Bool, true, false,
  Option, none, some, List, [], ◌∷◌, ◌++◌, length, All, length-set_elem, get_elem?-some, Text,
  Error, ◌==◌, if◌then◌else◌,
}
use ee_kernel.Permuter.State.{EvalResult}
use ee_kernel.Permuter.Evaluation.{Draws}
use ee_kernel.Permuter.Evaluation.Try.{try_eval_candidate}
use ee_kernel.Run.Loop.{FeedbackItem, finished, message, need_more_work, work_done, task}
use ee_kernel.Run.Workers.{Own, Worker, evaluate_task, take_item}

-- How many results of a permuter are among the items
unfoldable pub works : ℕ → List FeedbackItem → ℕ
works p [] = 0
works p (work_done i result ∷ items) = (if i == p then 1 else 0) + works p items
works p (finished reason ∷ items) = works p items
works p (message text ∷ items) = works p items
works p (need_more_work ∷ items) = works p items

pub works-append :
    (p : ℕ) (xs ys : List FeedbackItem) → works p (xs ++ ys) ≡ works p xs + works p ys
unfolding works
works-append p [] ys = omega arith
works-append p (work_done i result ∷ xs) ys = omega (arith, works-append p xs ys)
works-append p (finished reason ∷ xs) ys = works-append p xs ys
works-append p (message text ∷ xs) ys = works-append p xs ys
works-append p (need_more_work ∷ xs) ys = works-append p xs ys

-- Not the last item of a worker
abbrev pub IsOpen : FeedbackItem → Type 0
IsOpen (finished reason) = ⊥
IsOpen item = Unit

-- The last item, and it alone, is Finished.
abbrev pub IsClosed : List FeedbackItem → Type 0
IsClosed [] = ⊥
IsClosed (finished reason ∷ []) = Unit
IsClosed (finished reason ∷ item ∷ items) = ⊥
IsClosed (message text ∷ items) = IsClosed items
IsClosed (need_more_work ∷ items) = IsClosed items
IsClosed (work_done i result ∷ items) = IsClosed items

-- What a worker that has ended or has not has put and was not read yet
abbrev pub Box : Bool → List FeedbackItem → Type 0
Box false items = All IsOpen items
Box true [] = Unit
Box true (item ∷ items) = IsClosed (item ∷ items)

pub IsClosed-finished :
    (items : List FeedbackItem) → All IsOpen items → IsClosed (items ++ finished none ∷ [])
IsClosed-finished [] h = tt
IsClosed-finished (finished reason ∷ items) h = absurd h.0
IsClosed-finished (message text ∷ items) h = IsClosed-finished items h.1
IsClosed-finished (need_more_work ∷ items) h = IsClosed-finished items h.1
IsClosed-finished (work_done i result ∷ items) h = IsClosed-finished items h.1

pub IsClosed-Box : (items : List FeedbackItem) → IsClosed items → Box true items
IsClosed-Box [] h = tt
IsClosed-Box (item ∷ items) h = h

IsClosed-some : (items : List FeedbackItem) → IsClosed items → items ≡ [] → ⊥
IsClosed-some [] h e = h
IsClosed-some (item ∷ items) h e = cc

-- The item that is read is the last one, or there are more to come.
abbrev pub Popped : Bool → FeedbackItem → List FeedbackItem → Type 0
Popped ended item items =
    (IsOpen item × Box ended items × (items ≡ [] → ended ≡ false))
    ⊎ ((reason : Option Text) × (item ≡ finished reason) × (ended ≡ true) × (items ≡ []))

pub Box-pop :
    (ended : Bool) (item : FeedbackItem) (items : List FeedbackItem)
    → Box ended (item ∷ items)
    → Popped ended item items
Box-pop false item items box = inl (box.0, box.1, λ e. refl)
Box-pop true (finished reason) [] box = inr (reason, refl, refl, refl)
Box-pop true (finished reason) (x ∷ items) box = absurd box
Box-pop true (message text) items box =
    inl (tt, IsClosed-Box items box, λ e. absurd (IsClosed-some items box e))
Box-pop true need_more_work items box =
    inl (tt, IsClosed-Box items box, λ e. absurd (IsClosed-some items box e))
Box-pop true (work_done i result) items box =
    inl (tt, IsClosed-Box items box, λ e. absurd (IsClosed-some items box e))

-- 1 for a worker whose Finished has not been read
unfoldable pub pending_of : Bool → List FeedbackItem → ℕ
pending_of false items = 1
pending_of true [] = 0
pending_of true (item ∷ items) = 1

unfoldable pub ended_of : Bool → ℕ
ended_of true = 1
ended_of false = 0

pub closed_pending : (items : List FeedbackItem) → IsClosed items → pending_of true items ≡ 1
unfolding pending_of
closed_pending [] h = absurd h
closed_pending (item ∷ items) h = refl

pub pending_open :
    (ended : Bool) (item : FeedbackItem) (items : List FeedbackItem)
    → (items ≡ [] → ended ≡ false)
    → pending_of ended items ≡ pending_of ended (item ∷ items)
unfolding pending_of
pending_open false item items more = refl
pending_open true item [] more = cc (more refl)
pending_open true item (x ∷ items) more = refl

module _ {Candidate : Type 0} where
  -- A sum over the workers
  unfoldable pub total : (Worker Candidate → ℕ) → List (Worker Candidate) → ℕ
  total f [] = 0
  total f (w ∷ ws) = f w + total f ws

  -- One worker of them has changed.
  pub total_change :
      (f : Worker Candidate → ℕ) (before after : List (Worker Candidate)) (w w' : Worker Candidate)
      → total f (before ++ w' ∷ after) + f w ≡ total f (before ++ w ∷ after) + f w'
  unfolding total
  total_change f [] after w w' = omega arith
  total_change f (x ∷ before) after w w' = omega (arith, total_change f before after w w')

  pub All-change :
      (P : Worker Candidate → Type 0) (before after : List (Worker Candidate))
      (w : Worker Candidate)
      → All P (before ++ w ∷ after)
      → P w × ((w' : Worker Candidate) → P w' → All P (before ++ w' ∷ after))
  All-change P [] after w h = (h.0, λ w' h'. (h', h.1))
  All-change P (x ∷ before) after w h =
      let (here, new) = All-change P before after w h.1 in (here, λ w' h'. (h.0, new w' h'))

  pub length_change :
      (before after : List (Worker Candidate)) (w w' : Worker Candidate)
      → length (before ++ w' ∷ after) ≡ length (before ++ w ∷ after)
  length_change [] after w w' = refl
  length_change (x ∷ before) after w w' = ap suc (length_change before after w w')

  -- A worker with its n permuters, and what it has put
  abbrev pub IsTidy : ℕ → Worker Candidate → Type 0
  IsTidy n w = (length w.permuters ≡ n) × Box w.ended w.outbox

  abbrev pub ends_of : Worker Candidate → ℕ
  ends_of w = ended_of w.ended

  abbrev pub pends_of : Worker Candidate → ℕ
  pends_of w = pending_of w.ended w.outbox

  abbrev pub works_of : ℕ → Worker Candidate → ℕ
  works_of p w = works p w.outbox

  -- A worker that has not ended stays so, is tidy, and puts these items.
  abbrev pub Puts : ℕ → Worker Candidate → List FeedbackItem → Worker Candidate → Type 0
  Puts n w items w' =
      (length w'.permuters ≡ n) × (w'.ended ≡ false) × (w'.outbox ≡ w.outbox ++ items)

  evaluate_task-Puts :
      (format_exc : Error → Text) (draws : Draws) (i seed n : ℕ) (w : Worker Candidate)
      (own : Own Candidate)
      → length w.permuters ≡ n
      → w.ended ≡ false
      → (result : EvalResult) × Puts n w
          (work_done i result ∷ need_more_work ∷ [])
          (evaluate_task format_exc draws (i, seed) w (some own))
  unfolding evaluate_task
  evaluate_task-Puts format_exc draws i seed n w (calls, options, p) len working = (
    (try_eval_candidate calls format_exc options draws seed p).1,
    (length-set_elem w.permuters i _ ∙ len, working, refl),
  )

  -- A worker with a task for one of its permuters puts one result of that permuter, and asks.
  pub take_item-task :
      (format_exc : Error → Text) (draws : Draws) (i seed n : ℕ) (w : Worker Candidate)
      → i < n
      → length w.permuters ≡ n
      → w.ended ≡ false
      → (result : EvalResult) × Puts n w
          (work_done i result ∷ need_more_work ∷ [])
          (take_item format_exc draws (task (i, seed)) w)
  unfolding take_item
  take_item-task format_exc draws i seed n w lt len working =
      let (own, at) = get_elem?-some w.permuters i (omega (arith, lt, len)) in
      rw at (evaluate_task-Puts format_exc draws i seed n w own len working)

  -- What a worker has put that has not ended stays open with items that are not the last one.
  pub Puts-IsTidy :
      (n : ℕ) (w w' : Worker Candidate) (items : List FeedbackItem)
      → IsTidy n w
      → w.ended ≡ false
      → All IsOpen items
      → Puts n w items w'
      → IsTidy n w'
        × (ends_of w' ≡ ends_of w)
        × (pends_of w' ≡ pends_of w)
        × ((p : ℕ) → works_of p w' ≡ works_of p w + works p items)
  Puts-IsTidy n w w' items (len, box) working open_items (len', working', put) = (
    (
      len',
      rw (working', put)
          (All-append IsOpen w.outbox items (subst (λ e. Box e w.outbox) working box) open_items),
    ),
    rw (working, working') refl,
    rw (working, working') (unfold pending_of in refl),
    λ p. rw put (works-append p w.outbox items),
  )
