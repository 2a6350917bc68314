-- ===== src/Net/Evaluator/Reading.antt =====
-- The thread of net/evaluator.py that reads from the server.
use ee_kernel.Base.{
  ℕ, zero, suc, none, List, [], ◌∷◌, Text, lit, text_eq, Dict, Result, ok, err, ◌>>=◌,
  if◌then◌else◌, exception,
}
use ee_kernel.Helpers.Json.{Json}
use ee_kernel.Helpers.Typed.{int_prop, str_prop}
use ee_kernel.Net.Data.{permuter_data_from_json}
use ee_kernel.Net.Frames.{Library, receive_frame, receive_json}
use ee_kernel.Net.Evaluator.{Task, add, remove, start_work}

unfoldable pub read_add : Library → Dict Json → List Text → Result (Task × List Text)
unfolding receive_frame permuter_data_from_json str_prop
read_add lib item frames = do
  perm_id ← str_prop item (lit "permuter") none
  (encoded, frames') ← receive_frame frames
  source ← lib.decode encoded
  (target_o_bin, frames'') ← receive_frame frames'
  p ← permuter_data_from_json item source target_o_bin
  ok (add perm_id p, frames'')

unfoldable pub read_work : Dict Json → List Text → Result (Task × List Text)
unfolding int_prop str_prop
read_work item frames = do
  perm_id ← str_prop item (lit "permuter") none
  id ← int_prop item (lit "id")
  seed ← int_prop item (lit "seed")
  ok (start_work (record { perm_id = perm_id; id = id; seed = seed }), frames)

unfoldable pub read_typed : Library → Text → Dict Json → List Text → Result (Task × List Text)
unfolding read_add read_work str_prop
read_typed lib msg_type item frames =
    if text_eq msg_type (lit "add")
    then read_add lib item frames
    else if text_eq msg_type (lit "remove")
    then (str_prop item (lit "permuter") none >>= λ perm_id. ok (remove perm_id, frames))
    else if text_eq msg_type (lit "work")
    then read_work item frames
    else err exception

-- One round of read_loop
unfoldable pub read_task : Library → List Text → Result (Task × List Text)
unfolding receive_json str_prop read_typed
read_task lib frames = receive_json lib frames >>= λ (item, frames').
    str_prop item (lit "type") none >>= λ msg_type. read_typed lib msg_type item frames'

-- read_loop: the tasks that it puts into the queue, in so many rounds, before an exception ends it
unfoldable pub read_loop : Library → ℕ → List Text → List Task
unfolding read_task
read_loop lib zero frames = []
read_loop lib (suc rounds) frames = elim (read_task lib frames) [
  | err e ↦ []
  | ok (task, frames') ↦ task ∷ read_loop lib rounds frames'
]
