-- ===== src/Net/Protocol.antt =====
-- The messages of net/server.py to the evaluator, as net/evaluator.py reads them.
pub mod Run
use ee_kernel.Base.{
  ℕ, ◌≡◌, refl, ap, ◌∙◌, none, List, [], ◌∷◌, Text, lit, text_eq, Dict, lookup, insert, Result, ok,
  ◌>>=◌,
}
use ee_kernel.Base.Int.{ℤ, pos, int_str}
use ee_kernel.Base.Base64.{utf8_encode}
use ee_kernel.Helpers.Json.{Json, int, str, obj, end, entry, entries, props, json_prop, is_instance}
use ee_kernel.Helpers.Typed.{
  int_prop, str_prop, bool_prop, float_prop, dict_prop, to_int, to_str, to_bool, from_float,
  to_dict, of_floats, floats-of_floats, entries-props,
}
use ee_kernel.Net.Data.{PermuterData, permuter_data_from_json, permuter_data_to_json}
use ee_kernel.Net.Frames.{Library, receive_frame, receive_json, top_level}
use ee_kernel.Net.Server.Messages.{
  Activity, add_permuter, remove_permuter, work, immediate_disconnect, disconnect, perm_init_fail,
  perm_init_success, work_done, need_more_work, heartbeat, shutdown, net_thread_disconnected, Sent,
  json, bytes,
}
use ee_kernel.Perm.Split.{parse_int}
use ee_kernel.Net.Server.{
  handle_work, handle_add, handle_init_fail, handle_work_done, report_work, score_of, with_handle,
  pop_start, ServerInner, is_active, update, handle_message, main_loop, server_inner, is_shutdown,
}
use ee_kernel.Net.Evaluator.{Task, add, remove, start_work}
use ee_kernel.Net.Evaluator.Reading.{read_add, read_work, read_typed, read_task, read_loop}

abbrev pub work_message : ℤ → ℕ → ℤ → Dict Json
work_message handle id seed =
    (lit "type", str (lit "work"))
    ∷ (lit "permuter", str (int_str handle))
    ∷ (lit "id", int (pos id))
    ∷ (lit "seed", int seed)
    ∷ []

abbrev pub remove_message : ℤ → Dict Json
remove_message handle =
    (lit "type", str (lit "remove")) ∷ (lit "permuter", str (int_str handle)) ∷ []

abbrev pub add_message : ℤ → PermuterData → Dict Json
add_message handle p =
    update ((lit "type", str (lit "add")) ∷ (lit "permuter", str (int_str handle)) ∷ [])
      (permuter_data_to_json p)

from_add_message :
    (handle : ℤ) (p : PermuterData)
    → permuter_data_from_json (add_message handle p) p.source p.target_o_bin ≡ ok p
unfolding update insert permuter_data_from_json permuter_data_to_json int_prop str_prop bool_prop
    float_prop dict_prop json_prop is_instance to_int to_str to_bool from_float to_dict lookup
    text_eq
from_add_message handle p =
    simp
      (entries-props (of_floats p.randomization_weights), floats-of_floats p.randomization_weights)

add_message_head :
    (handle : ℤ) (p : PermuterData)
    → (str_prop (add_message handle p) (lit "type") none ≡ ok (lit "add"))
      × (str_prop (add_message handle p) (lit "permuter") none ≡ ok (int_str handle))
unfolding update insert permuter_data_to_json str_prop json_prop is_instance to_str lookup text_eq
add_message_head handle p = (refl, refl)

module _ (lib : Library) (dumps : Dict Json → Text) where
  -- json.loads undoes json.dumps for a message.
  abbrev pub IsLoadable : Dict Json → Type 0
  IsLoadable o = lib.loads (dumps o) ≡ ok (obj (props o))

  receive_json-dumps :
      (o : Dict Json) (frames : List Text)
      → IsLoadable o
      → receive_json lib (dumps o ∷ frames) ≡ ok (o, frames)
  unfolding receive_json
  receive_json-dumps o frames l = rw l (ap (λ (d : Dict Json). ok (d, frames)) (entries-props o))

  pub read_task-work :
      (handle : ℤ) (id : ℕ) (seed : ℤ) (frames : List Text)
      → IsLoadable (work_message handle id seed)
      → read_task lib (dumps (work_message handle id seed) ∷ frames)
        ≡ ok (start_work (record { perm_id = int_str handle; id = pos id; seed = seed }), frames)
  unfolding read_task json_prop is_instance to_int to_str lookup text_eq
  read_task-work handle id seed frames l =
      rw (receive_json-dumps (work_message handle id seed) frames l) refl

  pub read_task-remove :
      (handle : ℤ) (frames : List Text)
      → IsLoadable (remove_message handle)
      → read_task lib (dumps (remove_message handle) ∷ frames)
        ≡ ok (remove (int_str handle), frames)
  unfolding read_task json_prop is_instance to_int to_str lookup text_eq
  read_task-remove handle frames l = rw (receive_json-dumps (remove_message handle) frames l) refl

  read_typed-add :
      (o : Dict Json) (perm_id : Text) (p : PermuterData) (frames : List Text)
      → str_prop o (lit "permuter") none ≡ ok perm_id
      → lib.decode (utf8_encode p.source) ≡ ok p.source
      → permuter_data_from_json o p.source p.target_o_bin ≡ ok p
      → read_typed lib (lit "add") o (utf8_encode p.source ∷ p.target_o_bin ∷ frames)
        ≡ ok (add perm_id p, frames)
  unfolding read_typed text_eq
  read_typed-add o perm_id p frames named d parsed =
      let finish : Text → Result PermuterData → Result (Task × List Text) =
        λ q r. r >>= λ data'. ok (add q data', frames) in
      let with_source : Text → Result Text → Result (Task × List Text) =
        λ q r. r >>= λ source. finish q (permuter_data_from_json o source p.target_o_bin) in
      ap (λ (r : Result Text). r >>= λ q. with_source q (lib.decode (utf8_encode p.source))) named
      ∙ ap (with_source perm_id) d
      ∙ ap (finish perm_id) parsed

  pub read_task-add :
      (handle : ℤ) (p : PermuterData) (frames : List Text)
      → IsLoadable (add_message handle p)
      → lib.decode (utf8_encode p.source) ≡ ok p.source
      → read_task lib
          (dumps (add_message handle p) ∷ utf8_encode p.source ∷ p.target_o_bin ∷ frames)
        ≡ ok (add (int_str handle) p, frames)
  unfolding read_task
  read_task-add handle p frames l d =
      let (typed, named) = add_message_head handle p in
      let o = add_message handle p in
      let more : List Text = utf8_encode p.source ∷ p.target_o_bin ∷ frames in
      ap
        (λ (r : Result (Dict Json × List Text)). r >>= λ (item, frames').
          str_prop item (lit "type") none >>= λ msg_type. read_typed lib msg_type item frames')
        (receive_json-dumps o more l)
      ∙ ap (λ (r : Result Text). r >>= λ msg_type. read_typed lib msg_type o more) typed
      ∙ read_typed-add o (int_str handle) p frames named d (from_add_message handle p)
