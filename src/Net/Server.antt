-- ===== src/Net/Server.antt =====
-- ServerInner of net/server.py: the main thread, from a message to the next state.
pub mod Messages
pub mod Balance
pub mod Answers
pub mod Threads
pub mod Reads
pub mod Queue
use ee_kernel.Base.{
  ℕ, Bool, true, false, ◌||◌, Option, none, some, is_some, List, [], ◌∷◌, ◌++◌, Text, lit, Dict,
  lookup, insert, Result, ok, err, ◌>>=◌, ◌==◌, if◌then◌else◌, exception, key_error,
}
use ee_kernel.Base.Int.{ℤ, pos, negsuc, int_str}
use ee_kernel.Base.Base64.{utf8_encode}
use ee_kernel.Perm.Split.{parse_int}
use ee_kernel.Helpers.Json.{Json, int, str}
use ee_kernel.Helpers.Typed.{int_prop}
use ee_kernel.Net.Data.{PermuterData, permuter_data_to_json}
use ee_kernel.Net.Server.Messages.{
  Client, Activity, add_permuter, remove_permuter, work, immediate_disconnect, disconnect,
  perm_init_fail, perm_init_success, work_done, need_more_work, heartbeat, shutdown,
  net_thread_disconnected, Output, output_disconnect, output_init_fail, output_init_success,
  output_need_more_work, output_work, IoMessage, io_connect, io_disconnect, io_immediate_disconnect,
  io_work_done, IoGlobalMessage, io_server_failed, IoActivity, of_permuter, global, Sent, json,
  bytes,
}

-- The fields that the main thread uses, with what it has put into the queues and the port.
pub record ServerInner : Type 0 where
  pub active : List ℤ
  pub time_starts : List (ℕ × ℕ)
  pub last_heartbeat : ℕ
  pub evaluator : List Sent
  pub io_queue : List IoActivity
  pub controller_queue : List Output

-- i == j for handles
unfoldable pub handle_eq : ℤ → ℤ → Bool
handle_eq (pos m) (pos n) = m == n
handle_eq (negsuc m) (negsuc n) = m == n
handle_eq i j = false

-- handle in self._active
unfoldable pub is_active : ℤ → List ℤ → Bool
unfolding handle_eq
is_active handle [] = false
is_active handle (h ∷ active) = handle_eq handle h || is_active handle active

-- self._active.remove(handle), for a handle that is there
unfoldable pub discard : ℤ → List ℤ → List ℤ
unfolding handle_eq
discard handle [] = []
discard handle (h ∷ active) =
    let rest = discard handle active in if handle_eq handle h then rest else h ∷ rest

-- self._time_starts[id] = time_start
unfoldable pub set_start : ℕ → ℕ → List (ℕ × ℕ) → List (ℕ × ℕ)
set_start id time_start [] = (id, time_start) ∷ []
set_start id time_start ((j, t) ∷ starts) =
    let rest = set_start id time_start starts in
    if id == j then (j, time_start) ∷ starts else (j, t) ∷ rest

-- self._time_starts.pop(id); ids that come back from the evaluator are JSON integers
unfoldable pub pop_start : ℤ → List (ℕ × ℕ) → Option (ℕ × List (ℕ × ℕ))
pop_start id [] = none
pop_start id ((j, t) ∷ starts) =
    let later : Option (ℕ × List (ℕ × ℕ)) = elim (pop_start id starts) [
      | none ↦ none
      | some (u, rest) ↦ some (u, (j, t) ∷ rest)
    ] in
    if handle_eq id (pos j) then some (t, starts) else later

unfoldable pub send_controller : Output → ServerInner → ServerInner
send_controller msg s = record s { controller_queue = s.controller_queue ++ msg ∷ [] }

unfoldable pub send_io : ℤ → IoMessage → ServerInner → ServerInner
send_io handle io_msg s = record s { io_queue = s.io_queue ++ of_permuter handle io_msg ∷ [] }

unfoldable pub send_io_global : IoGlobalMessage → ServerInner → ServerInner
send_io_global io_msg s = record s { io_queue = s.io_queue ++ global io_msg ∷ [] }

-- A send that raises EOFError (Port.send), after which the main loop ends, is not modelled.
unfoldable pub send_evaluator : List Sent → ServerInner → ServerInner
send_evaluator sent s = record s { evaluator = s.evaluator ++ sent }

unfoldable pub need_work : ServerInner → ServerInner
unfolding send_controller
need_work s = send_controller output_need_more_work s

-- _remove
unfoldable pub remove : ℤ → ServerInner → ServerInner
unfolding send_evaluator discard
remove handle s =
    let s' =
      send_evaluator
        (json ((lit "type", str (lit "remove")) ∷ (lit "permuter", str (int_str handle)) ∷ []) ∷ [])
        s in
    record s' { active = discard handle s'.active }

-- {**a, **b}
unfoldable pub update {ℓ} : {A : Type ℓ} → Dict A → Dict A → Dict A
update a [] = a
update a ((k, v) ∷ b) = update (insert k v a) b

-- _send_permuter
unfoldable pub send_permuter : Text → PermuterData → ServerInner → ServerInner
unfolding send_evaluator update permuter_data_to_json
send_permuter perm_id perm s =
    send_evaluator
      (json (
          update ((lit "type", str (lit "add")) ∷ (lit "permuter", str perm_id) ∷ [])
            (permuter_data_to_json perm))
        ∷ bytes (utf8_encode perm.source)
        ∷ bytes perm.target_o_bin
        ∷ [])
      s

-- json_prop(obj, "score", int) if "score" in obj else None
unfoldable pub score_of : Dict Json → Result (Option ℤ)
unfolding int_prop
score_of o = elim (lookup (lit "score") o) [
  | none ↦ ok none
  | some v ↦ int_prop o (lit "score") >>= λ score. ok (some score)
]

-- The branches of _handle_message, each with what it raises.
unfoldable pub handle_work : ℤ → ℕ → ℕ → ℤ → ServerInner → ServerInner
unfolding need_work send_evaluator set_start
handle_work handle id time_start seed s =
    let s' = record s { time_starts = set_start id time_start s.time_starts } in
    let sent =
      (lit "type", str (lit "work"))
      ∷ (lit "permuter", str (int_str handle))
      ∷ (lit "id", int (pos id))
      ∷ (lit "seed", int seed)
      ∷ [] in
    if is_active handle s.active then send_evaluator (json sent ∷ []) s' else need_work s

unfoldable pub handle_add :
    ℤ → Client → PermuterData → ServerInner → ServerInner × Result (Unit {0})
unfolding send_permuter send_io
handle_add handle client data' s = if is_active handle s.active then (s, err exception) else (
  send_io handle (io_connect data'.fn_name client)
      (send_permuter (int_str handle) data' (record s { active = handle ∷ s.active })),
  ok tt,
)

unfoldable pub handle_init_fail : Text → ℤ → ServerInner → ServerInner
unfolding need_work send_io send_controller discard
handle_init_fail error handle s =
    if is_active handle s.active
    then send_controller (output_init_fail handle error) (
        send_io handle (io_disconnect (lit "failed to compile"))
          (record s { active = discard handle s.active }))
    else need_work s

-- What follows the parse of the score.
unfoldable pub report_work :
    ℤ
    → ℕ
    → ℤ
    → Dict Json
    → Option Text
    → ServerInner
    → Result (Option ℤ)
    → ServerInner × Result (Unit {0})
unfolding send_io send_controller
report_work handle time_start time_us o compressed_source s (err e) = (s, err e)
report_work handle time_start time_us o compressed_source s (ok score) = (
  send_controller (output_work handle time_start time_us o compressed_source)
      (send_io handle (io_work_done score (is_some compressed_source)) s),
  ok tt,
)

-- What follows the lookup of the start time.
unfoldable pub handle_work_done :
    ℤ
    → ℤ
    → Dict Json
    → Option Text
    → ServerInner
    → Option (ℕ × List (ℕ × ℕ))
    → ServerInner × Result (Unit {0})
unfolding need_work report_work score_of
handle_work_done handle time_us result compressed_source s none = (s, err key_error)
handle_work_done handle time_us result compressed_source s (some (time_start, starts)) =
    let s' = record s { time_starts = starts } in
    let o = insert (lit "permuter") (int handle) result in
    if is_active handle s.active
    then report_work handle time_start time_us o compressed_source s' (score_of o)
    else (need_work s', ok tt)

-- int(msg.perm_id)
unfoldable pub with_handle :
    Text → ServerInner → (ℤ → ServerInner × Result (Unit {0})) → ServerInner × Result (Unit {0})
unfolding parse_int
with_handle perm_id s f = elim (parse_int perm_id) [ err e ↦ (s, err e) | ok handle ↦ f handle ]

-- _handle_message; `now` is time.time()
unfoldable pub handle_message : ℕ → Activity → ServerInner → ServerInner × Result (Unit {0})
unfolding handle_work handle_add remove send_io send_controller handle_init_fail handle_work_done
    pop_start need_work send_io_global with_handle
handle_message now shutdown s = (s, ok tt)
handle_message now heartbeat s = (record s { last_heartbeat = now }, ok tt)
handle_message now (work handle id time_start seed) s =
    (handle_work handle id time_start seed s, ok tt)
handle_message now (add_permuter handle time_start client data') s =
    handle_add handle client data' s
handle_message now (remove_permuter handle) s = (
  if is_active handle s.active
      then send_io handle (io_disconnect (lit "disconnected")) (remove handle s)
      else s,
  ok tt,
)
handle_message now (disconnect handle) s = (
  if is_active handle s.active
      then send_controller (output_disconnect handle)
          (send_io handle (io_disconnect (lit "kicked")) (remove handle s))
      else s,
  ok tt,
)
handle_message now (immediate_disconnect handle client reason) s =
    if is_active handle s.active then (s, err exception) else (
      send_controller (output_init_fail handle reason)
          (send_io handle (io_immediate_disconnect reason client) s),
      ok tt,
    )
handle_message now (perm_init_fail perm_id error) s =
    with_handle perm_id s λ handle. (handle_init_fail error handle s, ok tt)
handle_message now (perm_init_success perm_id base_score base_hash time_us) s =
    with_handle perm_id s λ handle. (
      if is_active handle s.active
          then send_controller (output_init_success handle time_us base_score base_hash) s
          else need_work s,
      ok tt,
    )
handle_message now (work_done perm_id id result time_us compressed_source) s =
    with_handle perm_id s λ handle.
      handle_work_done handle time_us result compressed_source s (pop_start id s.time_starts)
handle_message now need_more_work s = (need_work s, ok tt)
handle_message now (net_thread_disconnected graceful message) s =
    (send_io_global (io_server_failed graceful message) s, ok tt)

-- __init__, before the threads are started
abbrev pub server_inner : ℕ → ServerInner
server_inner now = record {
  active = [];
  time_starts = [];
  last_heartbeat = now;
  evaluator = [];
  io_queue = [];
  controller_queue = [];
}

abbrev pub is_shutdown : Activity → Bool
is_shutdown shutdown = true
is_shutdown msg = false

-- _main_loop, over the messages that the queue gives, each with the time at which it is handled
unfoldable pub main_loop : List (ℕ × Activity) → ServerInner → ServerInner × Result (Unit {0})
main_loop [] s = (s, ok tt)
main_loop ((now, msg) ∷ msgs) s =
    let handled = handle_message now msg s in
    let later : ServerInner × Result (Unit {0}) = elim handled.1 [
      | err e ↦ handled
      | ok u ↦ main_loop msgs handled.0
    ] in
    if is_shutdown msg then (s, ok tt) else later
