-- ===== src/Net/Evaluator.antt =====
-- tools/decomp-permuter/src/net/evaluator.py: the process that builds permuters and gives their work
-- to worker processes.
pub mod Log
pub mod Available
pub mod Rounds
pub mod Reading
use ee_kernel.Base.{
  ℕ, ◌+◌, ◌-◌, Bool, true, false, ◌&&◌, ◌||◌, Option, none, some, is_some, List, [], ◌∷◌, ◌++◌,
  Text, lit, text_eq, Dict, lookup, insert, Result, ok, err, ltb, if◌then◌else◌, assertion_error,
  delete,
}
use ee_kernel.Base.Int.{ℤ, pos, negsuc, minus, add_ℕ, int_str}
use ee_kernel.Helpers.Json.{Json, bool, int, str, obj, props}
use ee_kernel.Net.Data.{PermuterData}
use ee_kernel.Net.Server.{handle_eq}
use ee_kernel.Net.Server.Messages.{Sent, json, bytes}

-- A permuter as far as the main process reads it.
pub record Built : Type 0 where
  pub base_score : ℤ
  pub base_hash : Text
  pub compile_cmd : Text

-- What _create_permuter does: it builds a permuter, or raises an exception with this text.
pub data Creation : Type 0 where
  built : Built → Creation
  failed : (exc_str : Text) → Creation

-- EvalResult, with the compressed source and the profiler as JSON
pub data EvalResult : Type 0 where
  eval_error : (exc_str : Text) → EvalResult
  candidate_result :
      (score : ℤ) (hash : Option Text) (profiler : Option (Dict Json))
      (compressed_source : Option Text)
      → EvalResult

pub record Work : Type 0 where
  pub perm_id : Text
  pub id : ℤ
  pub seed : ℤ

pub data Task : Type 0 where
  add : (perm_id : Text) → PermuterData → Task
  remove : (perm_id : Text) → Task
  start_work : Work → Task
  work_done : (perm_id : Text) (id time_us : ℤ) → EvalResult → Task

-- LocalWork: what every worker is told.
pub data LocalTask : Type 0 where
  add_local : (perm_id : Text) → Built → LocalTask
  remove_local : (perm_id : Text) → LocalTask

-- The variables of main, with what it has put into the queues and the port and the files that it has
-- removed. All local queues are given the same.
pub record Evaluator : Type 0 where
  pub remaining_work : Dict ℤ
  pub should_remove : List Text
  pub permuters : Dict Built
  pub timestamp : ℕ
  pub local_queue : List (LocalTask × ℕ)
  pub worker_queue : List (Work × ℕ)
  pub sent : List Sent
  pub unlinked : List Text

-- main, before its loop
abbrev pub evaluator : Evaluator
evaluator = record {
  remaining_work = [];
  should_remove = [];
  permuters = [];
  timestamp = 0;
  local_queue = [];
  worker_queue = [];
  sent = [];
  unlinked = [];
}

-- perm_id in should_remove
unfoldable pub text_in : Text → List Text → Bool
text_in t [] = false
text_in t (u ∷ us) = text_eq t u || text_in t us

-- should_remove.remove(perm_id)
unfoldable pub text_remove : Text → List Text → List Text
text_remove t [] = []
text_remove t (u ∷ us) = let rest = text_remove t us in if text_eq t u then rest else u ∷ rest

-- remaining_work[perm_id]: a Counter gives 0 for a missing key.
unfoldable pub remaining : Text → Dict ℤ → ℤ
remaining perm_id counts = elim (lookup perm_id counts) [ none ↦ pos 0 | some n ↦ n ]

unfoldable pub tell_workers : LocalTask → Evaluator → Evaluator
tell_workers task s = record s {
  timestamp = s.timestamp + 1;
  local_queue = s.local_queue ++ (task, s.timestamp + 1) ∷ [];
}

-- _remove_permuter
unfoldable pub remove_permuter : Built → Evaluator → Evaluator
remove_permuter perm s = record s { unlinked = s.unlinked ++ perm.compile_cmd ∷ [] }

-- What try_remove does for the permuter that it has found.
unfoldable pub remove_now : Text → Built → Evaluator → Evaluator
unfolding text_remove tell_workers remove_permuter
remove_now perm_id perm s =
    let s1 = tell_workers (remove_local perm_id) (record s {
      remaining_work = delete perm_id s.remaining_work;
      should_remove = text_remove perm_id s.should_remove;
    }) in
    let s2 = remove_permuter perm s1 in record s2 { permuters = delete perm_id s2.permuters }

-- try_remove
unfoldable pub try_remove : Text → Evaluator → Evaluator × Result (Unit {0})
unfolding text_in remaining remove_now
try_remove perm_id s = elim (lookup perm_id s.permuters) [
  | none ↦ (s, err assertion_error)
  | some perm ↦ (
    if text_in perm_id s.should_remove && handle_eq (remaining perm_id s.remaining_work) (pos 0)
        then remove_now perm_id perm s
        else s,
    ok tt,
  )
]

abbrev optional : Text → Option Json → Dict Json → Dict Json
optional key none o = o
optional key (some v) o = insert key v o

-- _send_result
unfoldable pub send_result : Text → ℤ → ℤ → EvalResult → List Sent
send_result perm_id id time_us (eval_error exc_str) =
    json (
      (lit "type", str (lit "result"))
      ∷ (lit "permuter", str perm_id)
      ∷ (lit "id", int id)
      ∷ (lit "time_us", int time_us)
      ∷ (lit "error", str exc_str)
      ∷ [])
    ∷ []
send_result perm_id id time_us (candidate_result score hash profiler compressed_source) =
    json (
      optional (lit "profiler") (elim profiler [ none ↦ none | some p ↦ some (obj (props p)) ])
        (optional (lit "hash") (elim hash [ none ↦ none | some h ↦ some (str h) ])
          ((lit "type", str (lit "result"))
            ∷ (lit "permuter", str perm_id)
            ∷ (lit "id", int id)
            ∷ (lit "time_us", int time_us)
            ∷ (lit "score", int score)
            ∷ (lit "has_source", bool (is_some compressed_source))
            ∷ [])))
    ∷ elim compressed_source [ none ↦ [] | some source ↦ bytes source ∷ [] ]

-- The message that a permuter's base score is not the client's.
unfoldable pub mismatch : Built → PermuterData → Text
mismatch perm p =
    lit "mismatching score: "
    ++ (int_str perm.base_score
        ++ (lit " vs "
            ++ (int_str p.base_score
                ++ (lit " ("
                    ++ ((if text_eq perm.base_hash p.base_hash
                          then lit "same hash; different Python or permuter versions?"
                          else lit "different hash; different objdump versions?")
                        ++ lit ")")))))

abbrev init_message : Text → List (Text × Json) → ℤ → Sent
init_message perm_id more time_us = json (
    (lit "type", str (lit "init")) ∷ (lit "permuter", str perm_id) ∷ more
    ++ (lit "time_us", int time_us) ∷ [])

abbrev failure : Text → List (Text × Json)
failure exc_str = (lit "success", bool false) ∷ (lit "error", str exc_str) ∷ []

abbrev send : Sent → Evaluator → Evaluator
send msg s = record s { sent = s.sent ++ msg ∷ [] }

-- main for an AddPermuter, behind the assertion
unfoldable pub add_permuter : Text → PermuterData → Creation → ℤ → Evaluator → Evaluator
unfolding remove_permuter tell_workers mismatch
add_permuter perm_id p (failed exc_str) time_us s =
    send (init_message perm_id (failure exc_str) time_us) s
add_permuter perm_id p (built perm) time_us s =
    if handle_eq perm.base_score p.base_score
    then send
        (init_message perm_id
          ((lit "success", bool true)
            ∷ (lit "base_score", int perm.base_score)
            ∷ (lit "base_hash", str perm.base_hash)
            ∷ [])
          time_us)
        (tell_workers (add_local perm_id perm)
          (record s { permuters = insert perm_id perm s.permuters }))
    else send (init_message perm_id (failure (mismatch perm p)) time_us) (remove_permuter perm s)

-- One round of the loop of main; `create` stands for _create_permuter, and `spent_us` is the time
-- that it takes.
unfoldable pub handle_task :
    (PermuterData → Creation) → ℤ → Task → Evaluator → Evaluator × Result (Unit {0})
unfolding add_permuter try_remove send_result remaining
handle_task create spent_us (add perm_id p) s =
    if is_some (lookup perm_id s.permuters)
    then (s, err assertion_error)
    else (add_permuter perm_id p (create p) spent_us s, ok tt)
handle_task create spent_us (remove perm_id) s =
    if is_some (lookup perm_id s.permuters)
    then try_remove perm_id (record s { should_remove = perm_id ∷ s.should_remove })
    else (s, ok tt)
handle_task create spent_us (work_done perm_id id time_us result) s =
    let (s', r) = try_remove perm_id (record s {
      remaining_work =
          insert perm_id (minus (remaining perm_id s.remaining_work) (pos 1)) s.remaining_work;
    }) in
    elim r [
      | err e ↦ (s', err e)
      | ok u ↦ (record s' { sent = s'.sent ++ send_result perm_id id time_us result }, ok tt)
    ]
handle_task create spent_us (start_work work) s = (
  record s {
    remaining_work =
        insert work.perm_id (add_ℕ (remaining work.perm_id s.remaining_work) 1) s.remaining_work;
    worker_queue = s.worker_queue ++ (work, s.timestamp) ∷ [];
  },
  ok tt,
)

-- multiprocess_worker: its dict of permuters behind a local task
unfoldable pub obey : LocalTask → Dict Built → Dict Built
obey (add_local perm_id perm) permuters = insert perm_id perm permuters
obey (remove_local perm_id) permuters = delete perm_id permuters

-- Its inner loop, with what has been put into its local queue: `visible` is how many of these tasks
-- it finds there without blocking. It blocks while its timestamp is behind the required one. Nothing
-- is returned if it blocks forever.
unfoldable pub catch_up :
    (required visible timestamp : ℕ)
    → List (LocalTask × ℕ)
    → Dict Built
    → Option (Dict Built × ℕ × List (LocalTask × ℕ))
unfolding obey
catch_up required visible timestamp [] permuters =
    if ltb timestamp required then none else some (permuters, timestamp, [])
catch_up required visible timestamp ((task, at) ∷ queue) permuters =
    let on = catch_up required (visible - 1) at queue (obey task permuters) in
    if ltb timestamp required || ltb 0 visible
    then on
    else some (permuters, timestamp, (task, at) ∷ queue)
