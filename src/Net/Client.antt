-- ===== src/Net/Client.antt =====
-- Connection of tools/decomp-permuter/src/net/client.py: a client that gives work to servers.
pub mod Sending
pub mod Ending
pub mod Script
use ee_kernel.Base.{
  ℕ, zero, suc, Bool, true, false, ◌||◌, Option, none, some, is_some, List, [], ◌∷◌, ◌++◌, length,
  Text, lit, text_eq, Dict, lookup, Error, Result, ok, err, ◌>>=◌, if◌then◌else◌, key_error,
  value_error, eof_error,
}
use ee_kernel.Base.Int.{ℤ}
use ee_kernel.Base.Base64.{utf8_encode}
use ee_kernel.Helpers.Json.{Float, Json, int, str, obj, props}
use ee_kernel.Helpers.Typed.{int_prop, str_prop, dict_prop, float_prop}
use ee_kernel.Net.Data.{PermuterData, permuter_data_to_json}
use ee_kernel.Net.Frames.{Library, receive_frame, receive_json}
use ee_kernel.Net.Server.Messages.{Sent, json, bytes}
use ee_kernel.Net.Server.Threads.{has_source}

-- EvalResult
pub data ClientResult : Type 0 where
  eval_error : (exc_str : Text) → ClientResult
  candidate_result :
      (score : ℤ) (hash source : Option Text) (profiler : Option (Dict Float)) → ClientResult

-- What a message of a server is told on as: Message or WorkDone
pub data Report : Type 0 where
  message : (text : Text) → Report
  work_done : ClientResult → Report

-- What the client puts into its feedback queue, with the server where it is known
pub data Feedback : Type 0 where
  of_server : Report → (server_nick : Text) → Feedback
  need_more_work : Feedback
  finished : (reason : Option Text) → Feedback

-- Task: Finished, or a seed
pub data ClientTask : Type 0 where
  no_more : ClientTask
  seed : ℤ → ClientTask

-- Profiler.StatType[key]
unfoldable pub is_stat : Text → Bool
is_stat key =
    text_eq key (lit "perm")
    || text_eq key (lit "stringify")
    || text_eq key (lit "compile")
    || text_eq key (lit "score")

-- _profiler_from_json, over the keys of the object
unfoldable pub profiler_from_json : Dict Json → Dict Json → Result (Dict Float)
unfolding is_stat float_prop
profiler_from_json o [] = ok []
profiler_from_json o ((key, value) ∷ entries) =
    let rest = profiler_from_json o entries in
    if is_stat key
    then (float_prop o key >>= λ time. rest >>= λ times. ok ((key, time) ∷ times))
    else err key_error

-- A member of an object, if it is there
unfoldable pub if_member {ℓ} : {A : Type ℓ} → Dict Json → Text → Result A → Result (Option A)
if_member o key value = if is_some (lookup key o) then (value >>= λ a. ok (some a)) else ok none

-- _result_from_json
unfoldable pub result_from_json : Dict Json → Option Text → Result ClientResult
unfolding if_member profiler_from_json str_prop int_prop dict_prop
result_from_json o source =
    if is_some (lookup (lit "error") o)
    then (str_prop o (lit "error") none >>= λ error. ok (eval_error error))
    else if_member o (lit "profiler")
        (dict_prop o (lit "profiler") none >>= λ p. profiler_from_json p p)
      >>= λ profiler. int_prop o (lit "score") >>= λ score.
          if_member o (lit "hash") (str_prop o (lit "hash") none) >>= λ hash.
          ok (candidate_result score hash source profiler)

-- Whether more work is requested, what is told on, and what is still to be received
abbrev pub Received : Type 0
Received = Bool × Option (Report × Text) × List Text

unfoldable pub parsed : Library → Result ClientResult → Report
parsed lib (ok result) = work_done result
parsed lib (err e) = message (lit "failed to parse result message: " ++ lib.exception_to_string e)

unfoldable pub unpacked : Library → Dict Json → Result Text → Report
unfolding parsed result_from_json
unpacked lib msg (ok source) = parsed lib (result_from_json msg (some source))
unpacked lib msg (err e) = message (lit "failed to decompress: " ++ lib.exception_to_string e)

-- _receive_one for a message of type "result"
unfoldable pub receive_result : Library → Dict Json → Text → List Text → Result Received
unfolding has_source receive_frame unpacked parsed result_from_json
receive_result lib msg nick frames =
    if has_source msg
    then (receive_frame frames >>= λ (compressed_source, frames'). ok (
      true,
      some (unpacked lib msg (lib.decompress compressed_source >>= lib.decode), nick),
      frames',
    ))
    else ok (true, some (parsed lib (result_from_json msg none), nick), frames)

unfoldable pub receive_typed :
    Library → Text → Text → Dict Json → Text → List Text → Result Received
unfolding receive_result str_prop
receive_typed lib my_base_hash msg_type msg nick frames =
    if text_eq msg_type (lit "init_done")
    then (str_prop msg (lit "hash") none >>= λ base_hash.
        let text =
          if text_eq base_hash my_base_hash
          then lit "connected"
          else lit "connected (note: mismatching hash)" in
        ok (true, some (message text, nick), frames))
    else if text_eq msg_type (lit "init_failed")
    then (str_prop msg (lit "reason") none >>= λ reason.
        ok (false, some (message (lit "failed to initialize: " ++ reason), nick), frames))
    else if text_eq msg_type (lit "disconnect")
    then ok (false, some (message (lit "disconnected"), nick), frames)
    else if text_eq msg_type (lit "result")
    then receive_result lib msg nick frames
    else err value_error

-- _receive_one
unfoldable pub receive_one : Library → Text → List Text → Result Received
unfolding receive_json str_prop receive_typed
receive_one lib my_base_hash frames = receive_json lib frames >>= λ (msg, frames').
    str_prop msg (lit "type") none >>= λ msg_type.
    if text_eq msg_type (lit "need_work")
    then ok (true, none, frames')
    else str_prop msg (lit "server") none >>= λ nick.
        receive_typed lib my_base_hash msg_type msg nick frames'

-- What a run has put into the queue and the port, and the exception that has ended it, if any has
pub record Run : Type 0 where
  pub feedback : List Feedback
  pub sent : List Sent
  pub ended : Option Error

abbrev pub ended_by : Option Error → Run
ended_by e = record { feedback = []; sent = []; ended = e }

abbrev pub tell : Feedback → Run → Run
tell f r = record r { feedback = f ∷ r.feedback }

abbrev pub tell_some : Option (Report × Text) → Run → Run
tell_some none r = r
tell_some (some (report, nick)) r = tell (of_server report nick) r

abbrev pub work_of : ℤ → Sent
work_of s =
    json
      ((lit "type", str (lit "work")) ∷ (lit "work", obj (props ((lit "seed", int s) ∷ []))) ∷ [])

-- The reason that is told in the end
unfoldable pub reason_of : Library → Error → Text
reason_of lib eof_error = lit "disconnected from permuter@home"
reason_of lib e = lit "permuter@home error: " ++ lib.exception_to_string e

unfoldable pub close : Library → Run → Run
unfolding reason_of
close lib r = elim r.ended [
  | none ↦ r
  | some e ↦ record r { feedback = r.feedback ++ finished (some (reason_of lib e)) ∷ [] }
]

-- _send_permuter, with zlib.compress
unfoldable pub permuter_messages : (Text → Text) → PermuterData → List Sent
unfolding permuter_data_to_json utf8_encode
permuter_messages compress p =
    json (permuter_data_to_json p)
    ∷ bytes (compress (utf8_encode p.source))
    ∷ bytes (compress p.target_o_bin)
    ∷ []

module _ (fault : Error) where
  -- Messages that are sent, and what follows. So many writes succeed before the server is gone, and
  -- the next one raises the exception (EOFError for a broken pipe, Port.send).
  unfoldable pub sends : ℕ → List Sent → (ℕ → Run) → Run
  sends writes [] more = more writes
  sends zero (m ∷ ms) more = ended_by (some fault)
  sends (suc writes) (m ∷ ms) more =
      let later = sends writes ms more in record later { sent = m ∷ later.sent }

  -- The loop of run. It waits forever for a task where there is none; every round receives a message,
  -- so as many rounds as there are messages, and one more, are enough.
  unfoldable pub client_loop : Library → Text → ℕ → Bool → ℕ → List Text → List ClientTask → Run
  unfolding receive_one sends
  client_loop lib my_base_hash zero over writes frames tasks = ended_by none
  client_loop lib my_base_hash (suc rounds) over writes frames tasks =
      elim (receive_one lib my_base_hash frames) [
        | err e ↦ ended_by (some e)
        | ok (false, told, frames') ↦
            tell_some told (client_loop lib my_base_hash rounds over writes frames' tasks)
        | ok (true, told, frames') ↦ tell_some told (
            tell need_more_work (elim over [
              | true ↦ client_loop lib my_base_hash rounds true writes frames' tasks
              | false ↦ elim tasks [
                | [] ↦ ended_by none
                | no_more ∷ rest ↦ client_loop lib my_base_hash rounds true writes frames' rest
                | seed s ∷ rest ↦
                    sends writes (work_of s ∷ [])
                      λ writes'. client_loop lib my_base_hash rounds false writes' frames' rest
              ]
            ]))
      ]

  -- The answer to the permuter, and the loop
  unfoldable pub receive_loop : Library → PermuterData → List ClientTask → List Text → ℕ → Run
  unfolding receive_json client_loop
  receive_loop lib p tasks frames writes = elim (receive_json lib frames) [
    | err e ↦ ended_by (some e)
    | ok (o, frames') ↦
        client_loop lib p.base_hash (suc (length frames')) false writes frames' tasks
  ]

  -- run, with so many writes to the port that succeed
  unfoldable pub run :
      Library → (Text → Text) → PermuterData → ℕ → List ClientTask → List Text → Run
  unfolding permuter_messages sends receive_loop close
  run lib compress p writes tasks frames = close lib (
      sends writes (permuter_messages compress p)
        λ writes'. receive_loop lib p tasks frames writes')
