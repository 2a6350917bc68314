-- ===== src/Net/Tests.antt =====
-- The theorems about net at concrete inputs.
use ee_kernel.Base.{
  newline, All, split_char, starts_with, ◌++◌, take, ◌⊎◌, if◌then◌else◌, map, ℕ, zero, suc, ◌≡◌,
  refl, sym, subst, arith, true, false, none, some, List, [], ◌∷◌, length, Text, lit, text_eq, Dict,
  lookup, insert, Result, ok, err, value_error, eof_error,
}
use ee_kernel.Base.Int.{pos}
use ee_kernel.Base.Outcome.{Outcome}
use ee_kernel.Helpers.Json.{Float, of_int, of_text, Json, null, int, str, obj, props}
use ee_kernel.Helpers.Typed.{IsParseError}
use ee_kernel.Net.Data.{PermuterData, permuter_data_from_json, permuter_data_to_json}
use ee_kernel.Net.Data.RoundTrip.{
  permuter_data_from_json-permuter_data_to_json, permuter_data_from_json-Outcome,
}
use ee_kernel.Net.Wire.{Stream, read_max, Port, send}
use ee_kernel.Net.Wire.Reading.{bytes_of, Took, read_max-Took}
use ee_kernel.Net.Wire.Delivery.{send_all, receive_all, receive_all-send_all}
use ee_kernel.Net.Frames.{Library}
use ee_kernel.Net.Server.Messages.{Client, Activity, add_permuter, work, heartbeat, disconnect}
use ee_kernel.Helpers.{merge_randomization_weights}
use ee_kernel.Net.Server.{handle_eq, is_active, handle_message, main_loop, server_inner}
use ee_kernel.Net.Server.Balance.{IsBalanced, main_loop-IsBalanced}
use ee_kernel.Net.Server.Answers.{settled, due_all}
use ee_kernel.Net.Server.Threads.{read_loop, closing}
use ee_kernel.Net.Server.Queue.{Merged, cut, left, right, server_answers}
use ee_kernel.Net.Evaluator.{
  Creation, built, eval_error, Work, Evaluator, evaluator, add, start_work, work_done, LocalTask,
  handle_task, catch_up,
}
use ee_kernel.Base.Base64.{utf8_encode}
use ee_kernel.Net.Server.{update}
use ee_kernel.Net.Evaluator.Reading.{read_loop as read_evaluator}
use ee_kernel.Net.Protocol.{work_message, remove_message, add_message}
use ee_kernel.Net.Protocol.Run.{frame, given_all, read_loop-main_loop}
use ee_kernel.Net.Client.{seed, work_of, permuter_messages, Run, run}
use ee_kernel.Net.Client.Sending.{requests, seeds, run-sent}
use ee_kernel.Net.Client.Ending.{TellsEnd, Waits, run-TellsEnd}
use ee_kernel.Net.Client.Script.{enters_root, is_absolute, IsPortable}
use ee_kernel.Net.Evaluator.Log.{Finds, replay}
use ee_kernel.Net.Evaluator.Available.{Pending}
use ee_kernel.Net.Evaluator.Rounds.{Reach, adds, starts, here, next, worker-Finds, work_done_lem}

abbrev half : Float
half = of_text (lit "0.5")

abbrev client_permuter : PermuterData
client_permuter = record {
  base_score = pos 120;
  base_hash = lit "ab";
  fn_name = lit "f";
  filename = lit "f.c";
  keep_prob = half;
  need_profiler = false;
  stack_differences = true;
  algorithm = lit "levenshtein";
  randomization_weights =
      (lit "perm_temp_for_expr", of_int (pos 100)) ∷ (lit "perm_add_mask", half) ∷ [];
  compile_script = lit "cc";
  source = lit "int f;";
  target_o_bin = 127 ∷ 69 ∷ [];
  ign_branch_targets = true;
  objdump_command = [];
}

permuter_data_from_json-permuter_data_to_json_example :
    permuter_data_from_json (permuter_data_to_json client_permuter) (lit "int f;") (127 ∷ 69 ∷ [])
    ≡ ok client_permuter
permuter_data_from_json-permuter_data_to_json_example =
    permuter_data_from_json-permuter_data_to_json client_permuter

abbrev broken : Dict Json
broken = (lit "base_score", int (pos 3)) ∷ (lit "base_hash", null) ∷ []

permuter_data_from_json-Outcome_example :
    Outcome
      (λ (p : PermuterData). (p.source ≡ []) × (p.target_o_bin ≡ 1 ∷ []))
      IsParseError
      (permuter_data_from_json broken [] (1 ∷ []))
permuter_data_from_json-Outcome_example = permuter_data_from_json-Outcome broken [] (1 ∷ [])

abbrev chunks : Stream
chunks = (1 ∷ 2 ∷ []) ∷ (3 ∷ []) ∷ (4 ∷ 5 ∷ []) ∷ []

read_max-Took_example : Took 4 chunks (read_max (some 4096) 4 chunks)
read_max-Took_example = read_max-Took (some 4096) 4 chunks (omega arith) (omega arith)

-- A cipher that leaves the message as it is, and a wire that cuts in odd places.
abbrev plain : Text → Text → Text
plain msg nonce = msg

abbrev plain_back : Text → Text → Result Text
plain_back block nonce = ok block

abbrev wire : Stream
wire =
    (0 ∷ 0 ∷ 0 ∷ [])
    ∷ (0 ∷ 0 ∷ 0 ∷ 0 ∷ 2 ∷ 104 ∷ [])
    ∷ (105 ∷ 0 ∷ 0 ∷ [])
    ∷ (0 ∷ 0 ∷ 0 ∷ 0 ∷ 0 ∷ 1 ∷ 33 ∷ 9 ∷ [])
    ∷ []

abbrev client_end : Port
client_end = record { send_nonce = 0; receive_nonce = 1 }

abbrev server_end : Port
server_end = record { send_nonce = 1; receive_nonce = 0 }

sent_bytes :
    send_all plain (lit "hi" ∷ lit "!" ∷ []) client_end
    ≡ ok (
      0 ∷ 0 ∷ 0 ∷ 0 ∷ 0 ∷ 0 ∷ 0 ∷ 2 ∷ 104 ∷ 105 ∷ 0 ∷ 0 ∷ 0 ∷ 0 ∷ 0 ∷ 0 ∷ 0 ∷ 1 ∷ 33 ∷ [],
      record { send_nonce = 4; receive_nonce = 1 },
    )
unfolding send_all send
sent_bytes = refl

receive_all-send_all_example :
    (s' : Port) × (stream' : Stream) × (receive_all plain_back none 2 server_end wire
      ≡ ok (lit "hi" ∷ lit "!" ∷ [], s', stream'))
    × (bytes_of stream' ≡ 9 ∷ [])
    × (◌≡◌ {A = ℕ} 4 s'.receive_nonce)
unfolding bytes_of
receive_all-send_all_example =
    receive_all-send_all plain plain_back (λ msg nonce. refl) none tt (lit "hi" ∷ lit "!" ∷ [])
      (0 ∷ 0 ∷ 0 ∷ 0 ∷ 0 ∷ 0 ∷ 0 ∷ 2 ∷ 104 ∷ 105 ∷ 0 ∷ 0 ∷ 0 ∷ 0 ∷ 0 ∷ 0 ∷ 0 ∷ 1 ∷ 33 ∷ []) (9 ∷ [])
      client_end (record { send_nonce = 4; receive_nonce = 1 }) server_end wire sent_bytes refl
      ((λ nonce. omega arith), ((λ nonce. omega arith), tt)) (omega arith) refl

-- What some frames stand for as JSON.
abbrev loads : Text → Result Json
loads [] = err value_error
loads (zero ∷ s) = ok (obj (props ((lit "type", str (lit "heartbeat")) ∷ [])))
loads (suc zero ∷ s) = ok (
    obj (
      props (
        (lit "type", str (lit "add"))
        ∷ (lit "permuter", int (pos 7))
        ∷ (lit "client_id", str (lit "c"))
        ∷ (lit "client_name", str (lit "n"))
        ∷ (lit "data", obj (props (permuter_data_to_json client_permuter)))
        ∷ [])))
loads (suc (suc zero) ∷ s) = ok (
    obj (
      props (
        (lit "type", str (lit "work"))
        ∷ (lit "permuter", int (pos 7))
        ∷ (lit "seed", int (pos 5))
        ∷ [])))
loads (suc (suc (suc n)) ∷ s) = ok (
    obj (
      props (
        (lit "type", str (lit "result"))
        ∷ (lit "permuter", str (lit "7"))
        ∷ (lit "id", int (pos 0))
        ∷ (lit "time_us", int (pos 9))
        ∷ (lit "score", int (pos 100))
        ∷ [])))

abbrev library : Library
library = record {
  loads = loads;
  decompress = λ s. ok s;
  decode = λ s. ok s;
  exception_to_string = λ e. [];
  base_weights = ok [];
}

abbrev from_controller : List Text
from_controller = (1 ∷ []) ∷ [] ∷ [] ∷ (2 ∷ []) ∷ (0 ∷ []) ∷ (2 ∷ []) ∷ []

abbrev from_evaluator : List Text
from_evaluator = (3 ∷ []) ∷ []

abbrev clock : ℕ → ℕ
clock k = k

abbrev kept_permuter : PermuterData
kept_permuter = record client_permuter {
  randomization_weights = [];
  source = [];
  target_o_bin = [];
}

abbrev some_client : Client
some_client = record { id = lit "c"; nickname = lit "n" }

abbrev first_work : Activity
first_work = work (pos 7) 0 5 (pos 5)

abbrev other_messages : List (ℕ × Activity)
other_messages = (30, disconnect (pos 7)) ∷ []

-- The permuter is added, gets work, and is kicked before it gets more work.
abbrev main_queue : List (ℕ × Activity)
main_queue =
    (10, add_permuter (pos 7) 6 some_client kept_permuter)
    ∷ (20, first_work)
    ∷ (30, disconnect (pos 7))
    ∷ (40, heartbeat)
    ∷ (50, work (pos 7) 1 3 (pos 5))
    ∷ []

read_messages :
    read_loop library clock 7 0 from_controller
    ≡ add_permuter (pos 7) 6 some_client kept_permuter
      ∷ first_work
      ∷ heartbeat
      ∷ work (pos 7) 1 3 (pos 5)
      ∷ closing eof_error
      ∷ []
unfolding read_loop lookup text_eq closing permuter_data_to_json merge_randomization_weights
read_messages = refl

handled_all : (main_loop main_queue (server_inner 0)).1 ≡ ok tt
unfolding main_loop handle_message is_active
handled_all = refl

server_answers_example : settled (main_loop main_queue (server_inner 0)).0 ≡ due_all main_queue
server_answers_example =
    server_answers library clock from_controller [] (disconnect (pos 7) ∷ [])
      (disconnect (pos 7) ∷ []) other_messages main_queue 0
      (right 30 (disconnect (pos 7)) (cut _ _)) refl (tt, tt)
      (subst (λ msgs. Merged msgs (disconnect (pos 7) ∷ []) main_queue) (sym read_messages)
        (left 10 (add_permuter (pos 7) 6 some_client kept_permuter) (
          left 20 first_work (
            right 30 (disconnect (pos 7))
              (left 40 heartbeat (left 50 (work (pos 7) 1 3 (pos 5)) (cut _ _)))))))
      handled_all

main_loop-IsBalanced_example : IsBalanced (pos 7) (main_loop main_queue (server_inner 0)).0
main_loop-IsBalanced_example = main_loop-IsBalanced 0 main_queue (pos 7) handled_all

-- A permuter that is built as the client expects.
abbrev create : PermuterData → Creation
create p =
    built (record { base_score = p.base_score; base_hash = p.base_hash; compile_cmd = lit "t.sh" })

abbrev with_permuter : Evaluator
with_permuter = (handle_task create (pos 3) (add (lit "7") client_permuter) evaluator).0

abbrev asked_work : Work
asked_work = record { perm_id = lit "7"; id = pos 0; seed = pos 5 }

abbrev with_work : Evaluator
with_work = (handle_task create (pos 3) (start_work asked_work) with_permuter).0

abbrev pending : Pending
pending = (lit "7", 1) ∷ []

worked : Reach create with_work pending
unfolding handle_task lookup text_eq handle_eq insert
worked =
    next (next here (adds (pos 3) (lit "7") client_permuter evaluator []))
      (starts (pos 3) asked_work with_permuter [] refl)

-- The worker has not read its local queue yet.
worker-Finds_example :
    Finds
      (lit "7")
      1
      (catch_up 1 0 (length {A = LocalTask × ℕ} []) with_work.local_queue (replay [] []))
worker-Finds_example =
    worker-Finds create with_work pending [] [] (lit "7") 1 0 [] with_work.local_queue worked refl
      refl

work_done_lem_example :
    (handle_task create
      (pos 3)
      (work_done (lit "7") (pos 0) (pos 9) (eval_error (lit "no")))
      with_work).1
    ≡ ok tt
work_done_lem_example =
    work_done_lem create with_work pending [] [] (lit "7") 1 (pos 3) (pos 0) (pos 9)
      (eval_error (lit "no")) worked refl

-- A code for the three messages that main_queue makes the server send.
abbrev dumps : Dict Json → Text
dumps o = elim (lookup (lit "type") o) [
  | some (str kind) ↦
      if text_eq kind (lit "add")
      then 0 ∷ []
      else if text_eq kind (lit "work")
      then 1 ∷ []
      else 2 ∷ []
  | _ ↦ []
]

abbrev loads_back : Text → Result Json
loads_back [] = err value_error
loads_back (zero ∷ s) = ok (obj (props (add_message (pos 7) kept_permuter)))
loads_back (suc zero ∷ s) = ok (obj (props (work_message (pos 7) 0 (pos 5))))
loads_back (suc (suc n) ∷ s) = ok (obj (props (remove_message (pos 7))))

abbrev evaluator_library : Library
evaluator_library = record library { loads = loads_back }

abbrev given_queue : List (ℕ × Activity)
given_queue =
    (10, add_permuter (pos 7) 6 some_client kept_permuter)
    ∷ (20, first_work)
    ∷ (30, disconnect (pos 7))
    ∷ []

read_loop-main_loop_example :
    read_evaluator evaluator_library
      (length (given_all evaluator_library dumps given_queue (server_inner 0)))
      (map (frame evaluator_library dumps) (main_loop given_queue (server_inner 0)).0.evaluator)
    ≡ given_all evaluator_library dumps given_queue (server_inner 0)
unfolding lookup text_eq utf8_encode permuter_data_to_json update insert
read_loop-main_loop_example =
    read_loop-main_loop evaluator_library dumps 0 given_queue ((refl, refl), (refl, (refl, tt)))

-- The first message lets the client begin, and the second asks for work.
abbrev client_frames : List Text
client_frames = (0 ∷ []) ∷ (1 ∷ []) ∷ []

abbrev client_library : Library
client_library = record library {
  loads = λ s. ok (obj (props ((lit "type", str (lit "need_work")) ∷ [])));
}

-- Three writes send the permuter, the fourth a piece of work, and the fifth would fail.
abbrev client_run : Run
client_run =
    run eof_error client_library (λ s. s) client_permuter 4 (seed (pos 4) ∷ seed (pos 5) ∷ [])
      client_frames

run-sent_example :
    client_run.sent
    ≡ take 4 (
        permuter_messages (λ s. s) client_permuter
        ++ map work_of
            (take (requests client_run.feedback) (seeds (seed (pos 4) ∷ seed (pos 5) ∷ []))))
run-sent_example =
    run-sent eof_error client_library (λ s. s) client_permuter 4 (seed (pos 4) ∷ seed (pos 5) ∷ [])
      client_frames

run-TellsEnd_example :
    TellsEnd eof_error client_library client_permuter.base_hash client_frames 4 client_run
    ⊎ Waits 2 client_run
run-TellsEnd_example =
    run-TellsEnd eof_error client_library (λ s. s) client_permuter 4
      (seed (pos 4) ∷ seed (pos 5) ∷ []) client_frames

abbrev script : Text
script = lit "#!/bin/sh" ++ (newline ++ lit "cc -c $1")

script-IsPortable : All IsPortable (split_char 10 [] script)
unfolding split_char enters_root is_absolute starts_with
script-IsPortable = ((refl, refl), ((refl, refl), tt))
