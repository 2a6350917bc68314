-- ===== src/Run/Workers/Scores.antt =====
-- The scores that a worker of main.py puts into the queue of feedback.
use mathlib.Core.Option.{some-injective}
use ee_kernel.Base.{
  ℕ, zero, suc, ◌≡◌, refl, sym, ap, subst, ◌∙◌, inl, inr, false, Bool-cases, Option, none, some,
  List, [], ◌∷◌, All, get_elem?, set_elem, ◌++◌, Text, Error, Result, ok, err,
}
use ee_kernel.Permuter.State.{
  CandidateResult, EvalResult, candidate_result, eval_error, Options, Permuter,
}
use ee_kernel.Permuter.Output.{should_output, record_result}
use ee_kernel.Permuter.Evaluation.{Calls, Draws, eval_candidate}
use ee_kernel.Permuter.Evaluation.Try.{caught, try_eval_candidate}
use ee_kernel.Permuter.Evaluation.Cache.{Post, IsCache, IsScored, eval_candidate_scores}
use ee_kernel.Permuter.Create.{PermuterArguments, create_permuter, create_permuter-IsCache}
use ee_kernel.Run.Loop.{need_more_work, work_done, QueueItem, stop, task}
use ee_kernel.Run.Workers.{Own, Worker, note_result, evaluate_task, take_item}

-- A worker takes one item after the other.
unfoldable pub take_items :
    {Candidate : Type 0}
    → (Error → Text)
    → List (Draws × QueueItem)
    → Worker Candidate
    → Worker Candidate
take_items format_exc [] w = w
take_items format_exc ((draws, item) ∷ items) w =
    take_items format_exc items (take_item format_exc draws item w)

module _ {Candidate : Type 0} where
  -- No two sources have one digest, and what the permuter remembers is right.
  abbrev pub IsSound : Own Candidate → Type 0
  IsSound (calls, options, p) =
      ((s t : Text) → calls.digest s ≡ calls.digest t → s ≡ t) × IsCache calls p

  -- The score of a result is that of the compilation of the permuter's current candidate.
  abbrev pub IsScoreOf : Calls Candidate → Permuter Candidate → EvalResult → Type 0
  IsScoreOf calls p (eval_error exc_str seed) = Unit
  IsScoreOf calls p (candidate_result r) = IsScored calls p r

  note_result-IsCache :
      (calls : Calls Candidate) (options : Options) (p : Permuter Candidate) (r : EvalResult)
      → IsCache calls p
      → IsCache calls (note_result options (p, r))
  unfolding note_result record_result
  note_result-IsCache calls options p (eval_error exc_str seed) h = h
  note_result-IsCache calls options p (candidate_result r) h =
      elim (Bool-cases (should_output options p r)) [
        | inl out ↦ rw out (record { right = h.right; small = h.small })
        | inr skip ↦ rw skip h
      ]

  note_result-IsScoreOf :
      (calls : Calls Candidate) (options : Options) (p : Permuter Candidate) (r : EvalResult)
      → IsScoreOf calls p r
      → IsScoreOf calls (note_result options (p, r)) r
  unfolding note_result record_result
  note_result-IsScoreOf calls options p (eval_error exc_str seed) h = tt
  note_result-IsScoreOf calls options p (candidate_result r) h =
      elim (Bool-cases (should_output options p r)) [ inl out ↦ rw out h | inr skip ↦ rw skip h ]

  caught-IsScoreOf :
      (calls : Calls Candidate) (format_exc : Error → Text)
      (r : Permuter Candidate × Result CandidateResult)
      → Post (IsCache calls) (IsScored calls) r
      → IsCache calls (caught format_exc r).0
        × IsScoreOf calls (caught format_exc r).0 (caught format_exc r).1
  unfolding caught
  caught-IsScoreOf calls format_exc (p, ok r) h = h
  caught-IsScoreOf calls format_exc (p, err e) h = (h.0, tt)

  -- The calls of the permuters, which no evaluation changes
  unfoldable pub calls_of : List (Own Candidate) → List (Calls Candidate)
  calls_of [] = []
  calls_of ((calls, options, p) ∷ owns) = calls ∷ calls_of owns

  calls_of-set :
      (owns : List (Own Candidate)) (i : ℕ) (calls : Calls Candidate) (o o' : Options)
      (p p' : Permuter Candidate)
      → get_elem? owns i ≡ some (calls, o, p)
      → (calls_of (set_elem owns i (calls, o', p')) ≡ calls_of owns)
        × (get_elem? (calls_of owns) i ≡ some calls)
  unfolding calls_of
  calls_of-set [] i calls o o' p p' e = cc
  calls_of-set ((c, o1, p1) ∷ owns) zero calls o o' p p' e =
      let same : c ≡ calls = ap (λ (x : Own Candidate). x.0) (some-injective _ _ e) in
      (ap (λ x. x ∷ calls_of owns) (sym same), ap some same)
  calls_of-set ((c, o1, p1) ∷ owns) (suc i) calls o o' p p' e =
      let (all, there) = calls_of-set owns i calls o o' p p' e in (ap (λ xs. c ∷ xs) all, there)

  IsSound-set :
      (owns : List (Own Candidate)) (i : ℕ) (own own' : Own Candidate)
      → All IsSound owns
      → get_elem? owns i ≡ some own
      → IsSound own × (IsSound own' → All IsSound (set_elem owns i own'))
  IsSound-set [] i own own' h e = cc
  IsSound-set (x ∷ owns) zero own own' h e =
      (subst IsSound (some-injective _ _ e) h.0, λ h'. (h', h.1))
  IsSound-set (x ∷ owns) (suc i) own own' h e =
      let (here, new) = IsSound-set owns i own own' h.1 e in (here, λ h'. (h.0, new h'))

  get_own :
      (owns : List (Own Candidate)) (i : ℕ) (calls : Calls Candidate)
      → get_elem? (calls_of owns) i ≡ some calls
      → (options : Options) × (p : Permuter Candidate) × (get_elem? owns i
          ≡ some (calls, options, p))
  unfolding calls_of
  get_own [] i calls e = cc
  get_own ((c, o, p) ∷ owns) zero calls e = (o, p, ap (λ c. some (c, o, p)) (some-injective _ _ e))
  get_own ((c, o, p) ∷ owns) (suc i) calls e = get_own owns i calls e

  get_elem?-set_elem :
      (owns : List (Own Candidate)) (i : ℕ) (own own' : Own Candidate)
      → get_elem? owns i ≡ some own
      → get_elem? (set_elem owns i own') i ≡ some own'
  get_elem?-set_elem [] i own own' e = cc
  get_elem?-set_elem (x ∷ owns) zero own own' e = refl
  get_elem?-set_elem (x ∷ owns) (suc i) own own' e = get_elem?-set_elem owns i own own' e

  -- A worker's permuters have these calls and are sound.
  pub record IsReporting (all : List (Calls Candidate)) (w : Worker Candidate) : Type 0 where
    pub same_calls : calls_of w.permuters ≡ all
    pub sound : All IsSound w.permuters

  -- The worker has evaluated a task of the permuter, which has these calls: it has put the result,
  -- whose score is that of the candidate that the permuter has then.
  abbrev pub Reports : Calls Candidate → ℕ → Worker Candidate → Worker Candidate → Type 0
  Reports calls i w w' =
      (options : Options) × (p : Permuter Candidate) × (result : EvalResult) × (get_elem?
          w'.permuters i
        ≡ some (calls, options, p))
      × (w'.outbox ≡ w.outbox ++ work_done i result ∷ need_more_work ∷ [])
      × IsScoreOf calls p result

  evaluate_task-IsReporting :
      (all : List (Calls Candidate)) (format_exc : Error → Text) (draws : Draws) (i seed : ℕ)
      (w : Worker Candidate) (calls : Calls Candidate) (options : Options) (p : Permuter Candidate)
      → get_elem? w.permuters i ≡ some (calls, options, p)
      → IsReporting all w
      → IsReporting all (evaluate_task format_exc draws (i, seed) w (some (calls, options, p)))
        × Reports calls i w (evaluate_task format_exc draws (i, seed) w (some (calls, options, p)))
  unfolding evaluate_task try_eval_candidate
  evaluate_task-IsReporting all format_exc draws i seed w calls options p at r =
      let done = try_eval_candidate calls format_exc options draws seed p in
      let own' : Own Candidate = (calls, options, note_result options done) in
      let ((injective, cache), new) =
        IsSound-set w.permuters i (calls, options, p) own' r.sound at in
      let (cache', scored) =
        caught-IsScoreOf calls format_exc (eval_candidate calls options draws seed p)
          (eval_candidate_scores calls injective options draws seed p cache) in
      let (kept, there) =
        calls_of-set w.permuters i calls options options p (note_result options done) at in
      (
        record {
          same_calls = kept ∙ r.same_calls;
          sound = new (injective, note_result-IsCache calls options done.0 done.1 cache');
        },
        (
          options,
          note_result options done,
          done.1,
          get_elem?-set_elem w.permuters i (calls, options, p) own' at,
          refl,
          note_result-IsScoreOf calls options done.0 done.1 scored,
        ),
      )

  evaluate_any-IsReporting :
      (all : List (Calls Candidate)) (format_exc : Error → Text) (draws : Draws) (i seed : ℕ)
      (w : Worker Candidate) (o : Option (Own Candidate))
      → get_elem? w.permuters i ≡ o
      → IsReporting all w
      → IsReporting all (evaluate_task format_exc draws (i, seed) w o)
  unfolding evaluate_task
  evaluate_any-IsReporting all format_exc draws i seed w none at r = record {
    same_calls = r.same_calls;
    sound = r.sound;
  }
  evaluate_any-IsReporting all format_exc draws i seed w (some (calls, options, p)) at r =
      (evaluate_task-IsReporting all format_exc draws i seed w calls options p at r).0

  take_item-IsReporting :
      (all : List (Calls Candidate)) (format_exc : Error → Text) (draws : Draws) (item : QueueItem)
      (w : Worker Candidate)
      → IsReporting all w
      → IsReporting all (take_item format_exc draws item w)
  unfolding take_item
  take_item-IsReporting all format_exc draws stop w r = record {
    same_calls = r.same_calls;
    sound = r.sound;
  }
  take_item-IsReporting all format_exc draws (task (i, seed)) w r =
      evaluate_any-IsReporting all format_exc draws i seed w (get_elem? w.permuters i) refl r

  take_items-IsReporting :
      (all : List (Calls Candidate)) (format_exc : Error → Text) (items : List (Draws × QueueItem))
      (w : Worker Candidate)
      → IsReporting all w
      → IsReporting all (take_items format_exc items w)
  unfolding take_items
  take_items-IsReporting all format_exc [] w r = r
  take_items-IsReporting all format_exc ((draws, item) ∷ items) w r =
      take_items-IsReporting all format_exc items (take_item format_exc draws item w)
        (take_item-IsReporting all format_exc draws item w r)

  take_item-Reports :
      (format_exc : Error → Text) (draws : Draws) (i seed : ℕ) (all : List (Calls Candidate))
      (w : Worker Candidate) (calls : Calls Candidate)
      → IsReporting all w
      → get_elem? all i ≡ some calls
      → Reports calls i w (take_item format_exc draws (task (i, seed)) w)
  unfolding take_item
  take_item-Reports format_exc draws i seed all w calls r at =
      let (options, p, there) =
        get_own w.permuters i calls (ap (λ xs. get_elem? xs i) r.same_calls ∙ at) in
      rw there (evaluate_task-IsReporting all format_exc draws i seed w calls options p there r).1

-- The permuters were created by the constructor, and no two sources have one digest.
abbrev pub IsCreated : {Candidate : Type 0} → Own Candidate → Type 0
IsCreated (calls, options, p) =
    ((s t : Text) → calls.digest s ≡ calls.digest t → s ≡ t)
    × ((settings : PermuterArguments) × (source : Text) × (create_permuter calls settings source
          ≡ ok (options, p)))

-- A worker that has just been started
unfoldable pub start_worker : {Candidate : Type 0} → List (Own Candidate) → Worker Candidate
start_worker owns = record { permuters = owns; ended = false; waiting = false; outbox = [] }

created-IsSound :
    {Candidate : Type 0} (owns : List (Own Candidate)) → All IsCreated owns → All IsSound owns
created-IsSound [] h = tt
created-IsSound ((calls, options, p) ∷ owns) ((injective, (settings, source, e)), h) =
    ((injective, create_permuter-IsCache calls settings source options p e), created-IsSound owns h)

-- If the permuters of a worker were created by the constructor, and no two sources have one digest,
-- then whatever items the worker has taken before, a task for the permuter at a place makes it put
-- one result for this permuter and a request for more work; and where the evaluation has raised
-- nothing, the score of this result is what the permuter's scorer gives the compilation, by the
-- permuter's compiler, of the source of the candidate that the permuter has then.
pub worker_scores :
    {Candidate : Type 0} (format_exc : Error → Text) (items : List (Draws × QueueItem))
    (owns : List (Own Candidate)) (draws : Draws) (i seed : ℕ) (calls : Calls Candidate)
    → All IsCreated owns
    → get_elem? (calls_of owns) i ≡ some calls
    → Reports calls i (take_items format_exc items (start_worker owns)) (
        take_item format_exc draws
          (task (i, seed))
          (take_items format_exc items (start_worker owns)))
unfolding start_worker
worker_scores format_exc items owns draws i seed calls h at =
    take_item-Reports format_exc draws i seed (calls_of owns)
      (take_items format_exc items (start_worker owns)) calls
      (take_items-IsReporting (calls_of owns) format_exc items (start_worker owns)
        (record { same_calls = refl; sound = created-IsSound owns h }))
      at
