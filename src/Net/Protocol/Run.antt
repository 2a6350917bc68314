-- ===== src/Net/Protocol/Run.antt =====
-- From the main thread of net/server.py to the tasks of net/evaluator.py.
use mathlib.Core.List.{map-append}
use ee_kernel.Base.{
  ℕ, suc, ◌+◌, ◌≡◌, refl, sym, ap, subst, ◌∙◌, inl, inr, arith, Bool-cases, Option, none, some,
  List, [], ◌∷◌, ◌++◌, map, append_assoc, append-nil, length, length-append, All, Text, lit, Dict,
  insert, Result, ok, err, if◌then◌else◌,
}
use ee_kernel.Base.Int.{ℤ, pos, int_str}
use ee_kernel.Base.Base64.{utf8_encode}
use ee_kernel.Helpers.Json.{Json, int}
use ee_kernel.Net.Frames.{Library}
use ee_kernel.Net.Server.Messages.{
  Activity, add_permuter, remove_permuter, work, immediate_disconnect, disconnect, perm_init_fail,
  perm_init_success, work_done, need_more_work, heartbeat, shutdown, net_thread_disconnected, Sent,
  json, bytes,
}
use ee_kernel.Perm.Split.{parse_int}
use ee_kernel.Net.Server.{
  handle_work, handle_add, handle_init_fail, handle_work_done, report_work, score_of, with_handle,
  pop_start, ServerInner, is_active, handle_message, main_loop, server_inner, is_shutdown,
}
use ee_kernel.Net.Evaluator.{Task, add, remove, start_work}
use ee_kernel.Net.Evaluator.Reading.{read_task, read_loop}
use ee_kernel.Net.Protocol.{
  IsLoadable, work_message, remove_message, add_message, read_task-work, read_task-remove,
  read_task-add,
}

plus_zero : (n : ℕ) → n ≡ n + 0
plus_zero n = omega arith

more_rounds : (ts ts' : List Task) (n : ℕ) → length (ts ++ ts') + n ≡ length ts + (length ts' + n)
more_rounds ts ts' n = omega (arith, length-append ts ts')

suc_rounds : (n : ℕ) → suc n ≡ 1 + n
suc_rounds n = omega arith

module _ (lib : Library) (dumps : Dict Json → Text) where
  -- What is received of a message.
  abbrev pub frame : Sent → Text
  frame (json o) = dumps o
  frame (bytes s) = s

  -- The tasks that the main thread gives to the evaluator when it handles a message.
  abbrev pub given : Activity → ServerInner → List Task
  given (work handle id time_start seed) s =
      if is_active handle s.active
      then start_work (record { perm_id = int_str handle; id = pos id; seed = seed }) ∷ []
      else []
  given (add_permuter handle time_start client p) s =
      if is_active handle s.active then [] else add (int_str handle) p ∷ []
  given (remove_permuter handle) s =
      if is_active handle s.active then remove (int_str handle) ∷ [] else []
  given (disconnect handle) s =
      if is_active handle s.active then remove (int_str handle) ∷ [] else []
  given (immediate_disconnect handle client reason) s = []
  given (perm_init_fail perm_id error) s = []
  given (perm_init_success perm_id base_score base_hash time_us) s = []
  given (work_done perm_id id result time_us compressed_source) s = []
  given need_more_work s = []
  given heartbeat s = []
  given shutdown s = []
  given (net_thread_disconnected graceful message) s = []

  -- The evaluator can decode what it is sent for a message.
  abbrev pub IsDecodable : Activity → Type 0
  IsDecodable (add_permuter handle time_start client p) =
      IsLoadable lib dumps (add_message handle p)
      × (lib.decode (utf8_encode p.source) ≡ ok p.source)
  IsDecodable (work handle id time_start seed) = IsLoadable lib dumps (work_message handle id seed)
  IsDecodable (remove_permuter handle) = IsLoadable lib dumps (remove_message handle)
  IsDecodable (disconnect handle) = IsLoadable lib dumps (remove_message handle)
  IsDecodable msg = Unit

  -- Sent messages that are read as these tasks, whatever follows.
  abbrev IsReadAs : List Sent → List Task → Type 0
  IsReadAs sent tasks =
      (frames : List Text) (rounds : ℕ)
      → read_loop lib (length tasks + rounds) (map frame sent ++ frames)
        ≡ tasks ++ read_loop lib rounds frames

  read_loop-next :
      (task : Task) (frames frames' : List Text) (rounds : ℕ)
      → read_task lib frames ≡ ok (task, frames')
      → read_loop lib (1 + rounds) frames ≡ task ∷ read_loop lib rounds frames'
  unfolding read_loop
  read_loop-next task frames frames' rounds e =
      let go : Result (Task × List Text) → List Task =
        λ r. elim r [ err x ↦ [] | ok (t, more) ↦ t ∷ read_loop lib rounds more ] in
      subst (λ n. read_loop lib n frames ≡ task ∷ read_loop lib rounds frames') (suc_rounds rounds)
        (ap go e)

  IsReadAs-nil : IsReadAs [] []
  IsReadAs-nil frames rounds = ap (λ n. read_loop lib n frames) (omega arith)

  -- What the evaluator is sent while a message is handled.
  abbrev Sends : List Sent → List Sent → List Task → Type 0
  Sends before after tasks = (new : List Sent) × (after ≡ before ++ new) × IsReadAs new tasks

  Sends-nothing : (before after : List Sent) → after ≡ before → Sends before after []
  Sends-nothing before after e = ([], e ∙ sym (append-nil before), IsReadAs-nil)

  with_handle-keeps :
      (perm_id : Text) (s : ServerInner) (f : ℤ → ServerInner × Result (Unit {0}))
      → ((handle : ℤ) → (f handle).0.evaluator ≡ s.evaluator)
      → (with_handle perm_id s f).0.evaluator ≡ s.evaluator
  unfolding with_handle
  with_handle-keeps perm_id s f k = by_id (parse_int perm_id)
    where
      by_id :
          (r : Result ℤ)
          → (let t : ServerInner × Result (Unit {0}) = elim r [
            | err e ↦ (s, err e)
            | ok handle ↦ f handle
          ] in
              t.0.evaluator ≡ s.evaluator)
      by_id (err e) = refl
      by_id (ok handle) = k handle

  handle_work_done-keeps :
      (handle time_us : ℤ) (result : Dict Json) (source : Option Text) (s : ServerInner)
      (found : Option (ℕ × List (ℕ × ℕ)))
      → (handle_work_done handle time_us result source s found).0.evaluator ≡ s.evaluator
  unfolding handle_work_done
  handle_work_done-keeps handle time_us result source s none = refl
  handle_work_done-keeps handle time_us result source s (some (time_start, starts)) =
      elim (Bool-cases (is_active handle s.active)) [
        | inl there ↦ rw there (report (score_of (insert (lit "permuter") (int handle) result)))
        | inr gone ↦ rw gone refl
      ]
    where
      report :
          (r : Result (Option ℤ))
          → (report_work handle time_start time_us
              (insert (lit "permuter") (int handle) result)
              source
              (record s { time_starts = starts })
              r).0.evaluator
            ≡ s.evaluator
      report (err e) = refl
      report (ok score) = refl

  handle_message-Sends :
      (now : ℕ) (msg : Activity) (s : ServerInner)
      → IsDecodable msg
      → Sends s.evaluator (handle_message now msg s).0.evaluator (given msg s)
  unfolding handle_message handle_work handle_add
  handle_message-Sends now shutdown s d = Sends-nothing _ _ refl
  handle_message-Sends now heartbeat s d = Sends-nothing _ _ refl
  handle_message-Sends now (work handle id time_start seed) s d =
      elim (Bool-cases (is_active handle s.active)) [
        | inl there ↦ rw there (
          json (work_message handle id seed) ∷ [],
          refl,
          λ frames rounds.
              read_loop-next _ _ frames rounds (read_task-work lib dumps handle id seed frames d),
        )
        | inr gone ↦ rw gone (Sends-nothing _ _ refl)
      ]
  handle_message-Sends now (add_permuter handle time_start client p) s d =
      elim (Bool-cases (is_active handle s.active)) [
        | inl there ↦ rw there (Sends-nothing _ _ refl)
        | inr gone ↦ rw gone (
          json (add_message handle p) ∷ bytes (utf8_encode p.source) ∷ bytes p.target_o_bin ∷ [],
          refl,
          λ frames rounds.
              read_loop-next _ _ frames rounds (read_task-add lib dumps handle p frames d.0 d.1),
        )
      ]
  handle_message-Sends now (remove_permuter handle) s d =
      elim (Bool-cases (is_active handle s.active)) [
        | inl there ↦ rw there (
          json (remove_message handle) ∷ [],
          refl,
          λ frames rounds.
              read_loop-next _ _ frames rounds (read_task-remove lib dumps handle frames d),
        )
        | inr gone ↦ rw gone (Sends-nothing _ _ refl)
      ]
  handle_message-Sends now (disconnect handle) s d = elim (Bool-cases (is_active handle s.active)) [
    | inl there ↦ rw there (
      json (remove_message handle) ∷ [],
      refl,
      λ frames rounds.
          read_loop-next _ _ frames rounds (read_task-remove lib dumps handle frames d),
    )
    | inr gone ↦ rw gone (Sends-nothing _ _ refl)
  ]
  handle_message-Sends now (immediate_disconnect handle client reason) s d =
      Sends-nothing _ _ (ground arith)
  handle_message-Sends now (perm_init_fail perm_id error) s d =
      Sends-nothing _ _
        (with_handle-keeps perm_id s _ (λ handle. unfold handle_init_fail in ground arith))
  handle_message-Sends now (perm_init_success perm_id base_score base_hash time_us) s d =
      Sends-nothing _ _ (with_handle-keeps perm_id s _ (λ handle. ground arith))
  handle_message-Sends now (work_done perm_id id result time_us source) s d = Sends-nothing _ _ (
      with_handle-keeps perm_id s _ (λ handle.
        handle_work_done-keeps handle time_us result source s (pop_start id s.time_starts)))
  handle_message-Sends now need_more_work s d = Sends-nothing _ _ refl
  handle_message-Sends now (net_thread_disconnected graceful message) s d = Sends-nothing _ _ refl

  -- The tasks that the main loop gives to the evaluator, one message after the other.
  unfoldable pub given_all : List (ℕ × Activity) → ServerInner → List Task
  given_all [] s = []
  given_all ((now, msg) ∷ msgs) s =
      let handled = handle_message now msg s in
      let later : List Task = elim handled.1 [ err e ↦ [] | ok u ↦ given_all msgs handled.0 ] in
      if is_shutdown msg then [] else given msg s ++ later

  IsReadAs-append :
      (sent sent' : List Sent) (tasks tasks' : List Task)
      → IsReadAs sent tasks
      → IsReadAs sent' tasks'
      → IsReadAs (sent ++ sent') (tasks ++ tasks')
  IsReadAs-append sent sent' tasks tasks' h h' frames rounds =
      ap (λ n. read_loop lib n (map frame (sent ++ sent') ++ frames))
        (more_rounds tasks tasks' rounds)
      ∙ ap (λ t. read_loop lib (length tasks + (length tasks' + rounds)) (t ++ frames))
          (map-append frame sent sent')
      ∙ ap (read_loop lib (length tasks + (length tasks' + rounds)))
          (append_assoc (map frame sent) (map frame sent') frames)
      ∙ h (map frame sent' ++ frames) (length tasks' + rounds)
      ∙ ap (λ t. tasks ++ t) (h' frames rounds)
      ∙ sym (append_assoc tasks tasks' (read_loop lib rounds frames))

  Sends-append :
      (a b c : List Sent) (tasks tasks' : List Task)
      → Sends a b tasks
      → Sends b c tasks'
      → Sends a c (tasks ++ tasks')
  Sends-append a b c tasks tasks' (new, e, h) (new', e', h') = (
    new ++ new',
    e' ∙ ap (λ t. t ++ new') e ∙ append_assoc a new new',
    IsReadAs-append new new' tasks tasks' h h',
  )

  main_loop-Sends :
      (msgs : List (ℕ × Activity)) (s : ServerInner)
      → All (λ (m : ℕ × Activity). IsDecodable m.1) msgs
      → Sends s.evaluator (main_loop msgs s).0.evaluator (given_all msgs s)
  unfolding main_loop given_all
  main_loop-Sends [] s d = Sends-nothing _ _ refl
  main_loop-Sends ((now, msg) ∷ msgs) s d = elim (Bool-cases (is_shutdown msg)) [
    | inl stop ↦ rw stop (Sends-nothing _ _ refl)
    | inr more ↦ rw more (
        after (handle_message now msg s) (handle_message-Sends now msg s d.0)
          (main_loop-Sends msgs (handle_message now msg s).0 d.1))
  ]
    where
      after :
          (handled : ServerInner × Result (Unit {0}))
          → Sends s.evaluator handled.0.evaluator (given msg s)
          → Sends handled.0.evaluator
              (main_loop msgs handled.0).0.evaluator
              (given_all msgs handled.0)
          → (let t : ServerInner × Result (Unit {0}) = elim handled.1 [
            | err x ↦ handled
            | ok u ↦ main_loop msgs handled.0
          ] in
              let l : List Task = elim handled.1 [ err x ↦ [] | ok u ↦ given_all msgs handled.0 ] in
              Sends s.evaluator t.0.evaluator (given msg s ++ l))
      after (s', err x) first later =
          subst (Sends s.evaluator s'.evaluator) (sym (append-nil (given msg s))) first
      after (s', ok u) first later =
          Sends-append s.evaluator s'.evaluator _ (given msg s) (given_all msgs s') first later

  -- If the evaluator can decode what it is sent, it reads exactly the tasks that the main loop gives
  -- to it, in order, whether or not the main loop stops by an exception: work for active permuters,
  -- permuters that are new, and removals.
  pub read_loop-main_loop :
      (now : ℕ) (msgs : List (ℕ × Activity))
      → All (λ (m : ℕ × Activity). IsDecodable m.1) msgs
      → read_loop lib
          (length (given_all msgs (server_inner now)))
          (map frame (main_loop msgs (server_inner now)).0.evaluator)
        ≡ given_all msgs (server_inner now)
  unfolding read_loop
  read_loop-main_loop now msgs d =
      let l = given_all msgs (server_inner now) in
      let (new, e, h) = main_loop-Sends msgs (server_inner now) d in
      ap (λ t. read_loop lib (length l) (map frame t)) e
      ∙ ap (λ n. read_loop lib n (map frame new)) (plus_zero (length l))
      ∙ ap (read_loop lib (length l + 0)) (sym (append-nil (map frame new)))
      ∙ h [] 0
      ∙ append-nil l
