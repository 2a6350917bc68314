-- ===== src/Run/Tests.antt =====
-- Small runs, and the theorems at inputs that meet their hypotheses.
use ee_kernel.Base.{
  ℕ, ◌≡◌, refl, ◌⊎◌, arith, true, false, Option, none, some, List, [], ◌∷◌, ◌++◌, get_elem?, Text,
  lit, join, starts_with, Error, ok, err, exception, compile_failure,
}
use ee_kernel.Base.Count.{pair_has_eq, SameItems}
use ee_kernel.Base.Int.{minus}
use ee_kernel.Base.Iterators.{Drains, ends, gives, Along, done, both}
use ee_kernel.Perm.Tree.{text_perm, randomizer_perm, is_random, perm_count, make_text}
use ee_kernel.Perm.Root.{RootPerm, evaluate_root, choose, make_root, count_options, preprocess}
use ee_kernel.Perm.Parse.{perm_parse, rec_perm_parse, parse_loop, combine, find_macro}
use ee_kernel.Perm.Split.{macro_search, match_here, match_name, lazy_name, with_prefix, leftmost}
use ee_kernel.Permuter.Seeds.{perm_evaluate_one}
use ee_kernel.Permuter.Create.{
  PermuterArguments, score_base, create_and_score_base, fresh_permuter, create_permuter,
}
use ee_kernel.Run.Workers.Scores.{calls_of, take_items, Reports, start_worker, worker_scores}
use ee_kernel.Perm.Evaluate.{evaluate, randomized}
use ee_kernel.Permuter.State.{EvalResult, eval_error, Options, Permuter}
use ee_kernel.Permuter.Evaluation.{
  Calls, Draws, eval_candidate, next, obtain, set_seed, set_candidate, keep_or, keeps, chosen_seed,
}
use ee_kernel.Permuter.Evaluation.Try.{caught, exc_str_of, try_eval_candidate}
use ee_kernel.Run.Cycle.{cycle_next, cycle_seeds, next_within, turn, then_on, index_mod, enumerate}
use ee_kernel.Run.Cycle.Turns.{all_pairs, cycle_seeds-Drains}
use ee_kernel.Run.Tasks.{
  feeding, advance, then_turn, take_seed, get_task_of, get_task_any, get_task,
}
use ee_kernel.Run.Tasks.Handed.{logged, IsFed}
use ee_kernel.Run.Tasks.Turns.{IsOver, get_task-IsFed}
use ee_kernel.Run.Tasks.Ends.{IsFed-feeding}
use ee_kernel.Run.Results.{RunOptions, EvalContext, post_error, post_score, process_result}
use ee_kernel.Run.Loop.{
  FeedbackItem, finished, need_more_work, work_done, QueueItem, stop, task, Run, feed_round,
  feed_task, put_task, note_zero, await_round, copies, put_all, signal_stop, feed_loop, awaits,
}
use ee_kernel.Run.Loop.Queues.{tasks_in, tasks_to, all_sent, AreQueued, AreOwn}
use ee_kernel.Run.Loop.Fed.{IsFeeding, Fed, feed_loop-Fed}
use ee_kernel.Run.Workers.{
  Worker, ask, evaluate_task, take_item, System, asks, gets, feeds, signals,
}
use ee_kernel.Run.Workers.Finish.{Reach, begins, goes_on, IsFresh, workers_can_go}

-- An iterator over a list
next_item : List ℕ → Option (ℕ × List ℕ)
next_item [] = none
next_item (x ∷ xs) = some (x, xs)

abbrev lists : List (List ℕ)
lists = (3 ∷ 1 ∷ []) ∷ (2 ∷ []) ∷ []

next_item-Drains : (xs : List ℕ) → Drains next_item xs xs
unfolding next_item
next_item-Drains [] = ends refl
next_item-Drains (x ∷ xs) = gives refl (next_item-Drains xs)

lists-Drains : Along (Drains next_item) lists lists
lists-Drains = both (next_item-Drains (3 ∷ 1 ∷ [])) (both (next_item-Drains (2 ∷ [])) done)

cycle_seeds-Drains_example :
    (items : List (ℕ × ℕ)) × Drains (cycle_next next_item) (cycle_seeds next_item lists) items
    × SameItems items (all_pairs (enumerate 0 lists))
cycle_seeds-Drains_example = cycle_seeds-Drains next_item lists lists lists-Drains

-- The items come in turn.
cycle_in_turn :
    Drains (cycle_next next_item) (cycle_seeds next_item lists) ((0, 3) ∷ (1, 2) ∷ (0, 1) ∷ [])
unfolding cycle_next cycle_seeds next_within turn then_on index_mod enumerate next_item minus
cycle_in_turn = gives refl (gives refl (gives refl (ends refl)))

-- When an iterator has ended, the turn goes back to the permuter before it, not on to the next one.
cycle_goes_back :
    Drains
      (cycle_next next_item)
      (cycle_seeds next_item ((1 ∷ 2 ∷ []) ∷ [] ∷ (3 ∷ []) ∷ []))
      ((0, 1) ∷ (0, 2) ∷ (2, 3) ∷ [])
unfolding cycle_next cycle_seeds next_within turn then_on index_mod enumerate next_item minus
cycle_goes_back = gives refl (gives refl (gives refl (ends refl)))

get_task-IsFed_example :
    (o : Option (ℕ × ℕ)) × ((get_task next_item none (feeding lists)).1 ≡ ok o)
    × IsFed next_item lists (get_task next_item none (feeding lists)).0 (logged [] o)
    × (o ≡ none → IsOver none (get_task next_item none (feeding lists)).0)
    × ((p : ℕ) (t : ℕ × ℕ) → none ≡ some p → o ≡ some t → t.0 ≡ p)
get_task-IsFed_example =
    get_task-IsFed next_item lists (feeding lists) [] none (IsFed-feeding next_item lists)
      (omega arith)

abbrev options : RunOptions
options = record { abort_exceptions = false; print_diffs = false; stop_on_zero = false }

abbrev context : EvalContext ℕ
context = record {
  iteration = 0;
  errors = 0;
  internal_errors = 0;
  internal_error_stack_traces = [];
  permuters = [];
  candidates = [];
}

-- Two permuters, each with a connection
abbrev connected : Run (List ℕ) ℕ
connected = record {
  context = context;
  feed = feeding lists;
  active_workers = 1;
  found_zero = false;
  worker_tasks = [];
  net_tasks = [] ∷ [] ∷ [];
}

connected-IsFeeding : IsFeeding next_item lists connected []
unfolding tasks_in tasks_to all_sent AreQueued AreOwn
connected-IsFeeding = record {
  fed = IsFed-feeding next_item lists;
  put = ([], refl, tt, refl, (refl, (refl, tt)));
  own = (tt, (tt, tt));
}

feed_loop-Fed_example :
    Fed next_item lists options (
      feed_loop next_item options
        ((need_more_work, none) ∷ (need_more_work, some 1) ∷ [])
        connected)
feed_loop-Fed_example =
    feed_loop-Fed next_item lists options ((need_more_work, none) ∷ (need_more_work, some 1) ∷ [])
      connected [] (omega arith, ((omega arith, omega arith), tt)) connected-IsFeeding

-- A permuter whose candidates do not parse
abbrev calls : Calls ℕ
calls = record {
  from_source = λ source state rng_seed. err compile_failure;
  randomize_ast = λ candidate. ok candidate;
  get_source = λ candidate. [];
  compile = λ source. none;
  score = λ o_file. err exception;
  digest = λ source. source;
}

abbrev own : Options
own = record {
  permutations = record { inner = text_perm []; once_options = []; root_count = 1 };
  force_rng_seed = none;
  need_all_sources = false;
  show_errors = true;
  best_only = false;
  better_only = false;
  score_threshold = none;
  base_score = 100;
}

abbrev permuter : Permuter ℕ
permuter = record {
  best_score = 100;
  hashes = [];
  cur_seed = none;
  cur_cand = none;
  last_score = none;
  score_for_source = [];
}

abbrev draws : Draws
draws = record { below_keep_prob = false; rng_seed = 7 }

abbrev seeds : List (List ℕ)
seeds = (5 ∷ []) ∷ []

abbrev worker : Worker ℕ
worker = record {
  permuters = (calls, own, permuter) ∷ [];
  ended = false;
  waiting = false;
  outbox = [];
}

abbrev system : System (List ℕ) ℕ
system = record {
  run = record {
    context = record context { permuters = (own, permuter) ∷ [] };
    feed = feeding seeds;
    active_workers = 1;
    found_zero = false;
    worker_tasks = [];
    net_tasks = [];
  };
  awaiting = false;
  taken = 0;
  workers = worker ∷ [];
}

abbrev format_exc : Error → Text
format_exc e = []

system-IsFresh : IsFresh seeds system
system-IsFresh = record {
  feed = refl;
  tasks = refl;
  alone = refl;
  taken = refl;
  feeds_first = refl;
  active = refl;
  idle = ((refl, refl, refl), tt);
}

-- The worker asks, and has put its result of a task.
abbrev asked : Worker ℕ
asked = ask worker

abbrev round1 : Run (List ℕ) ℕ
round1 = (feed_round next_item options (need_more_work, none) system.run).0

abbrev worked : Worker ℕ
worked = take_item format_exc draws (task (0, 5)) (record asked { outbox = [] })

reached1 :
    Reach next_item options format_exc system
      (record { run = round1; awaiting = false; taken = 1; workers = worked ∷ [] })
      (need_more_work ∷ [])
unfolding ask feed_round feed_task put_task get_task get_task_any get_task_of take_seed then_turn
    advance feeding next_item
reached1 =
    goes_on
      (goes_on (goes_on begins (asks system.run false 0 [] [] worker [] refl refl))
        (feeds system.run round1 0 need_more_work [] [] [] asked [] refl refl refl))
      (gets round1 false 0 draws (task (0, 5)) [] [] (record asked { outbox = [] })
        (need_more_work ∷ []) refl refl)

abbrev failure : EvalResult
failure = eval_error none (some (5, 7))

worked_fails : worked.outbox ≡ work_done 0 failure ∷ need_more_work ∷ []
unfolding ask take_item evaluate_task try_eval_candidate caught eval_candidate next obtain set_seed
    set_candidate keep_or keeps chosen_seed evaluate_root choose evaluate exc_str_of
worked_fails = refl

abbrev round2 : Run (List ℕ) ℕ
round2 = (feed_round next_item options (work_done 0 failure, none) round1).0

abbrev round3 : Run (List ℕ) ℕ
round3 = (feed_round next_item options (need_more_work, none) round2).0

-- The results of the task are read, and the iterator has ended.
reached2 :
    Reach next_item options format_exc system
      (record {
        run = round3;
        awaiting = false;
        taken = 1;
        workers = record worked { outbox = [] } ∷ [];
      })
      (need_more_work ∷ work_done 0 failure ∷ need_more_work ∷ [])
unfolding feed_round feed_task put_task get_task get_task_any get_task_of take_seed then_turn
    advance feeding next_item note_zero process_result post_score post_error
reached2 =
    goes_on
      (goes_on reached1 (
        feeds round1 round2 1 (work_done 0 failure) (need_more_work ∷ []) [] [] worked
          (need_more_work ∷ []) worked_fails refl refl))
      (feeds round2 round3 1 need_more_work [] [] []
        (record worked { outbox = need_more_work ∷ [] }) (work_done 0 failure ∷ need_more_work ∷ [])
        refl refl refl)

abbrev stopped : Worker ℕ
stopped = take_item format_exc draws stop (record worked { outbox = [] })

abbrev waiting : System (List ℕ) ℕ
waiting = record { run = signal_stop round3; awaiting = true; taken = 2; workers = stopped ∷ [] }

-- Finished is put, and the worker has got it.
reached3 :
    Reach next_item options format_exc system waiting
      (need_more_work ∷ work_done 0 failure ∷ need_more_work ∷ [])
unfolding feed_round feed_task put_task get_task get_task_any get_task_of take_seed then_turn
    advance feeding next_item note_zero process_result post_score post_error signal_stop copies
    take_item evaluate_task ask
reached3 =
    goes_on (goes_on reached2 (signals round3 1 (record worked { outbox = [] } ∷ []) _ refl)) (
      gets (signal_stop round3) true 1 draws stop [] [] (record worked { outbox = [] }) _ refl refl)

abbrev last_run : Run (List ℕ) ℕ
last_run = (await_round options (finished none, none) (signal_stop round3)).0

abbrev over : System (List ℕ) ℕ
over = record {
  run = last_run;
  awaiting = true;
  taken = 2;
  workers = record stopped { outbox = [] } ∷ [];
}

waiting-some : awaits waiting.run.active_workers waiting.run.net_tasks ≡ true
unfolding feed_round feed_task put_task get_task get_task_any get_task_of take_seed then_turn
    advance feeding next_item note_zero process_result post_score post_error signal_stop copies
    put_all
waiting-some = refl

workers_can_go_example :
    (before after : List (Worker ℕ)) × (w : Worker ℕ) × (waiting.workers ≡ before ++ w ∷ after)
    × (((w.ended ≡ false)
          × ((item : QueueItem) × (get_elem? waiting.run.worker_tasks waiting.taken ≡ some item)))
        ⊎ ((item : FeedbackItem) × (items : List FeedbackItem) × (w.outbox ≡ item ∷ items)))
workers_can_go_example =
    workers_can_go next_item seeds options format_exc system waiting
      (need_more_work ∷ work_done 0 failure ∷ need_more_work ∷ []) (omega arith) system-IsFresh
      reached3 refl waiting-some

-- A candidate is its source, and every source has the same score.
abbrev scored : Calls Text
scored = record {
  from_source = λ source state rng_seed. ok source;
  randomize_ast = λ candidate. ok candidate;
  get_source = λ candidate. candidate;
  compile = λ source. some source;
  score = λ o_file. ok (60, lit "a");
  digest = λ source. source;
}

abbrev settings : PermuterArguments
settings = record {
  forced_rng_seed = none;
  all_sources = false;
  errors_shown = false;
  only_best = false;
  only_better = false;
  threshold = none;
}

abbrev plain_root : RootPerm
plain_root = record {
  inner = randomizer_perm (text_perm (lit "f"));
  once_options = [];
  root_count = 1;
}

parse_plain : perm_parse (lit "f") ≡ ok plain_root
unfolding perm_parse rec_perm_parse parse_loop combine find_macro macro_search match_here match_name
    lazy_name with_prefix leftmost starts_with make_root count_options preprocess is_random
    perm_count make_text
parse_plain = refl

abbrev created : Options × Permuter Text
created = fresh_permuter scored settings plain_root (60, lit "a", lit "f")

create_plain : create_permuter scored settings (lit "f") ≡ ok created
unfolding create_permuter create_and_score_base perm_evaluate_one evaluate_root choose evaluate
    score_base randomized join
create_plain = rw parse_plain refl

abbrev items : List (Draws × QueueItem)
items = (draws, task (0, 0)) ∷ (draws, stop) ∷ []

first_own : get_elem? (calls_of ((scored, created.0, created.1) ∷ [])) 0 ≡ some scored
unfolding calls_of
first_own = refl

-- A worker that has evaluated a task takes another one.
abbrev one_task : List (Draws × QueueItem)
one_task = (draws, task (0, 0)) ∷ []

worker_scores_example :
    Reports scored 0
      (take_items format_exc one_task (start_worker ((scored, created.0, created.1) ∷ [])))
      (take_item format_exc draws
        (task (0, 1))
        (take_items format_exc one_task (start_worker ((scored, created.0, created.1) ∷ []))))
worker_scores_example =
    worker_scores format_exc one_task ((scored, created.0, created.1) ∷ []) draws 0 1 scored
      (((λ s t e. e), (settings, lit "f", create_plain)), tt) first_own
