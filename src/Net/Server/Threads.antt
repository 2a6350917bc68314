-- ===== src/Net/Server/Threads.antt =====
-- The threads of net/server.py that read from the controller and the evaluator, and the one that
-- writes to the controller.
use ee_kernel.Base.{
  delete, ℕ, zero, suc, Bool, true, false, Option, none, some, List, [], ◌∷◌, ◌++◌, Text, lit,
  text_eq, Dict, lookup, Error, Result, ok, err, ◌>>=◌, if◌then◌else◌, exception, eof_error,
  server_error,
}
use ee_kernel.Base.Int.{ℤ, pos, minus}
use ee_kernel.Helpers.{merge_randomization_weights}
use ee_kernel.Helpers.Json.{Json, bool, int, str, obj, props}
use ee_kernel.Helpers.Typed.{int_prop, str_prop, bool_prop, dict_prop}
use ee_kernel.Net.Frames.{Library, receive_frame, receive_json}
use ee_kernel.Net.Data.{PermuterData, permuter_data_from_json}
use ee_kernel.Net.Server.Messages.{
  Client, Activity, add_permuter, remove_permuter, work, immediate_disconnect, perm_init_fail,
  perm_init_success, work_done, heartbeat, net_thread_disconnected, Output, output_disconnect,
  output_init_fail, output_init_success, output_need_more_work, output_work, output_shutdown, Sent,
  json, bytes,
}
use ee_kernel.Net.Server.{update}

-- A message, the next work id, and what is still to be received.
abbrev pub Read : Type 0
Read = Activity × ℕ × List Text

-- _read_one for a message of type "work"
unfoldable pub read_work : ℕ → ℕ → ℤ → Dict Json → List Text → Result Read
unfolding int_prop
read_work now id handle msg frames = do
  seed ← int_prop msg (lit "seed")
  ok (work handle id now seed, suc id, frames)

-- What the client has sent of its permuter, under `try`.
unfoldable pub parse_permuter : Library → Dict Json → Text → Text → Result PermuterData
unfolding permuter_data_from_json
parse_permuter lib o compressed_source compressed_target_o_bin = do
  unpacked ← lib.decompress compressed_source
  source ← lib.decode unpacked
  target_o_bin ← lib.decompress compressed_target_o_bin
  permuter_data_from_json o source target_o_bin

unfoldable pub added : Library → ℕ → ℤ → Client → Result PermuterData → Result Activity
added lib now handle client (err e) = ok (
    immediate_disconnect handle client
      (lit "Failed to parse permuter: " ++ lib.exception_to_string e))
added lib now handle client (ok p) = lib.base_weights >>= λ base. ok (
    add_permuter handle now client (record p {
      randomization_weights = merge_randomization_weights base p.randomization_weights;
    }))

-- _read_one for a message of type "add"
unfoldable pub read_add : Library → ℕ → ℕ → ℤ → Dict Json → List Text → Result Read
unfolding str_prop dict_prop receive_frame parse_permuter added
read_add lib now id handle msg frames = do
  client_id ← str_prop msg (lit "client_id") none
  client_name ← str_prop msg (lit "client_name") none
  o ← dict_prop msg (lit "data") none
  (compressed_source, frames') ← receive_frame frames
  (compressed_target_o_bin, frames'') ← receive_frame frames'
  activity ←
      added lib now handle (record { id = client_id; nickname = client_name })
        (parse_permuter lib o compressed_source compressed_target_o_bin)
  ok (activity, id, frames'')

unfoldable pub read_typed : Library → ℕ → ℕ → Text → Dict Json → List Text → Result Read
unfolding read_work read_add int_prop
read_typed lib now id msg_type msg frames = int_prop msg (lit "permuter") >>= λ handle.
    if text_eq msg_type (lit "work")
    then read_work now id handle msg frames
    else if text_eq msg_type (lit "add")
    then read_add lib now id handle msg frames
    else if text_eq msg_type (lit "remove")
    then ok (remove_permuter handle, id, frames)
    else err exception

-- _read_one
unfoldable pub read_one : Library → ℕ → ℕ → List Text → Result Read
unfolding receive_json str_prop read_typed
read_one lib now id frames = receive_json lib frames >>= λ (msg, frames').
    str_prop msg (lit "type") none >>= λ msg_type.
    if text_eq msg_type (lit "heartbeat")
    then ok (heartbeat, id, frames')
    else read_typed lib now id msg_type msg frames'

-- What the read loop puts into the queue when it is stopped by an exception.
unfoldable pub closing : Error → Activity
closing eof_error = net_thread_disconnected true none
closing (server_error message) = net_thread_disconnected false (some message)
closing e = net_thread_disconnected false none

-- NetThread.read_loop: the messages that it puts into the main queue. The time is that of the
-- round, and as many rounds as there are messages left, and one more, are enough.
unfoldable pub read_loop : Library → (ℕ → ℕ) → ℕ → ℕ → List Text → List Activity
unfolding read_one closing
read_loop lib clock zero id frames = []
read_loop lib clock (suc rounds) id frames = elim (read_one lib (clock rounds) id frames) [
  | err e ↦ closing e ∷ []
  | ok (activity, id', frames') ↦ activity ∷ read_loop lib clock rounds id' frames'
]

-- msg.get("has_source") is True
unfoldable pub has_source : Dict Json → Bool
has_source msg = elim (lookup (lit "has_source") msg) [ some (bool b) ↦ b | _ ↦ false ]

-- What follows the test of "success".
unfoldable pub init_activity : Dict Json → Text → ℤ → Bool → Result Activity
unfolding int_prop str_prop
init_activity msg perm_id time_us true = do
  base_score ← int_prop msg (lit "base_score")
  base_hash ← str_prop msg (lit "base_hash") none
  ok (perm_init_success perm_id base_score base_hash time_us)
init_activity msg perm_id time_us false = do
  error ← str_prop msg (lit "error") none
  ok (perm_init_fail perm_id error)

unfoldable pub read_init : Dict Json → Result Activity
unfolding int_prop str_prop bool_prop init_activity
read_init msg = do
  perm_id ← str_prop msg (lit "permuter") none
  time_us ← int_prop msg (lit "time_us")
  success ← bool_prop msg (lit "success") none
  init_activity msg perm_id time_us success

unfoldable pub read_source : Dict Json → List Text → Result (Option Text × List Text)
unfolding receive_frame has_source
read_source msg frames =
    if has_source msg
    then (receive_frame frames >>= λ (frame, frames'). ok (some frame, frames'))
    else ok (none, frames)

unfoldable pub read_result : Dict Json → List Text → Result (Activity × List Text)
unfolding int_prop str_prop read_source delete
read_result msg frames = do
  (compressed_source, frames') ← read_source msg frames
  perm_id ← str_prop msg (lit "permuter") none
  id ← int_prop msg (lit "id")
  time_us ← int_prop msg (lit "time_us")
  let result = delete (lit "time_us") (delete (lit "id") (delete (lit "permuter") msg))
  ok (work_done perm_id id result time_us compressed_source, frames')

-- One round of _do_read_eval_loop
unfoldable pub read_eval : Library → List Text → Result (Activity × List Text)
unfolding receive_json str_prop read_init read_result
read_eval lib frames = receive_json lib frames >>= λ (msg, frames').
    str_prop msg (lit "type") none >>= λ msg_type.
    if text_eq msg_type (lit "init")
    then (read_init msg >>= λ activity. ok (activity, frames'))
    else if text_eq msg_type (lit "result")
    then read_result msg frames'
    else err exception

-- _read_eval_loop: what it puts into the main queue, until an exception ends it
unfoldable pub read_eval_loop : Library → ℕ → List Text → List Activity
unfolding read_eval
read_eval_loop lib zero frames = []
read_eval_loop lib (suc rounds) frames = elim (read_eval lib frames) [
  | err e ↦ []
  | ok (activity, frames') ↦ activity ∷ read_eval_loop lib rounds frames'
]

-- The message that _write_one sends for an update of a permuter.
unfoldable pub update_of : ℤ → ℤ → Dict Json → Dict Json
update_of handle time_us o =
    (lit "type", str (lit "update"))
    ∷ (lit "permuter", int handle)
    ∷ (lit "time_us", int time_us)
    ∷ (lit "update", obj (props o))
    ∷ []

-- _write_one at a time: what it sends
unfoldable pub write_one : ℕ → Output → List Sent
unfolding update_of update minus
write_one now output_shutdown = []
write_one now (output_init_fail handle error) =
    json (
      update_of handle (pos 0)
        ((lit "type", str (lit "init_failed")) ∷ (lit "reason", str error) ∷ []))
    ∷ []
write_one now (output_init_success handle time_us base_score base_hash) =
    json (
      update_of handle time_us
        ((lit "type", str (lit "init_done")) ∷ (lit "hash", str base_hash) ∷ []))
    ∷ []
write_one now (output_disconnect handle) =
    json (update_of handle (pos 0) ((lit "type", str (lit "disconnect")) ∷ [])) ∷ []
write_one now output_need_more_work = json ((lit "type", str (lit "need_work")) ∷ []) ∷ []
write_one now (output_work handle time_start time_us result compressed_source) =
    json (
      update_of handle time_us (
        update
          ((lit "type", str (lit "work"))
            ∷ (lit "overhead_us", int (minus (minus (pos now) (pos time_start)) time_us))
            ∷ [])
          result))
    ∷ elim compressed_source [ none ↦ [] | some source ↦ bytes source ∷ [] ]
