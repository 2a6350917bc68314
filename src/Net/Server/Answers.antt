-- ===== src/Net/Server/Answers.antt =====
-- What the controller is sent, against what it has asked for.
use ee_kernel.Base.{
  ℕ, suc, ◌+◌, ◌<◌, ◌≡◌, refl, inl, inr, arith, Bool-cases, Option, none, some, List, [], ◌∷◌, ◌++◌,
  length, All, Text, lit, Dict, insert, Result, ok, err, if◌then◌else◌,
}
use ee_kernel.Base.Int.{ℤ, pos}
use ee_kernel.Helpers.Json.{Json, int}
use ee_kernel.Perm.Split.{parse_int}
use ee_kernel.Net.Server.Messages.{
  Activity, add_permuter, remove_permuter, work, immediate_disconnect, disconnect, perm_init_fail,
  perm_init_success, work_done, need_more_work, heartbeat, shutdown, net_thread_disconnected,
  Output, output_disconnect, output_init_fail, output_init_success, output_need_more_work,
  output_work, output_shutdown,
}
use ee_kernel.Net.Server.{
  ServerInner, handle_eq, is_active, set_start, pop_start, need_work, score_of, handle_work,
  handle_add, handle_init_fail, report_work, handle_work_done, with_handle, handle_message,
  server_inner, main_loop, is_shutdown,
}

-- The messages that tell the controller that a worker is free again.
abbrev answer : Output → ℕ
answer (output_disconnect handle) = 0
answer output_shutdown = 0
answer (output_init_fail handle error) = 1
answer (output_init_success handle time_us base_score base_hash) = 1
answer output_need_more_work = 1
answer (output_work handle time_start time_us result compressed_source) = 1

unfoldable pub answers : List Output → ℕ
answers [] = 0
answers (o ∷ q) = answer o + answers q

answers_snoc : (q : List Output) (o : Output) → answers (q ++ o ∷ []) ≡ answers q + answer o
unfolding answers
answers_snoc [] o = omega arith
answers_snoc (p ∷ q) o = omega (arith, answers_snoc q o)

-- The messages that are due such an answer. A result that comes back is the answer to work that
-- has been counted before.
abbrev due : Activity → ℕ
due (work handle id time_start seed) = 1
due (immediate_disconnect handle client reason) = 1
due (perm_init_fail perm_id error) = 1
due (perm_init_success perm_id base_score base_hash time_us) = 1
due need_more_work = 1
due (add_permuter handle time_start client p) = 0
due (remove_permuter handle) = 0
due (disconnect handle) = 0
due (work_done perm_id id result time_us compressed_source) = 0
due heartbeat = 0
due shutdown = 0
due (net_thread_disconnected graceful message) = 0

-- The next work id behind a message, and whether the message has the right one.
abbrev pub next_id : Activity → ℕ → ℕ
next_id (work handle id time_start seed) n = suc n
next_id msg n = n

abbrev pub IsNext : Activity → ℕ → Type 0
IsNext (work handle id time_start seed) n = id ≡ n
IsNext msg n = Unit

-- Work is numbered from n on.
abbrev pub IsNumbered : ℕ → List (ℕ × Activity) → Type 0
IsNumbered n [] = Unit
IsNumbered n ((now, msg) ∷ msgs) = IsNext msg n × IsNumbered (next_id msg n) msgs

-- What is due for the messages before the first shutdown.
unfoldable pub due_all : List (ℕ × Activity) → ℕ
due_all [] = 0
due_all ((now, msg) ∷ msgs) = if is_shutdown msg then 0 else due msg + due_all msgs

abbrev IsBelow : ℕ → List (ℕ × ℕ) → Type 0
IsBelow n = All (λ (started : ℕ × ℕ). started.0 < n)

-- What has been answered, and what is still worked on.
abbrev pub settled : ServerInner → ℕ
settled s = answers s.controller_queue + length s.time_starts

set_start_new :
    (n time_start : ℕ) (starts : List (ℕ × ℕ))
    → IsBelow n starts
    → (length (set_start n time_start starts) ≡ suc (length starts))
      × IsBelow (suc n) (set_start n time_start starts)
unfolding set_start
set_start_new n time_start [] h = omega arith
set_start_new n time_start ((j, t) ∷ starts) h =
    let (l, below) = set_start_new n time_start starts h.1 in ground (arith, l, below, h.0)

IsBelow-suc : (n : ℕ) (starts : List (ℕ × ℕ)) → IsBelow n starts → IsBelow (suc n) starts
IsBelow-suc n [] h = tt
IsBelow-suc n (p ∷ starts) h = (omega (arith, h.0), IsBelow-suc n starts h.1)

-- One start time has been taken out.
abbrev Popped : ℕ → List (ℕ × ℕ) → Option (ℕ × List (ℕ × ℕ)) → Type 0
Popped n starts none = Unit
Popped n starts (some (t, rest)) = (suc (length rest) ≡ length starts) × IsBelow n rest

pop_start-Popped :
    (n : ℕ) (id : ℤ) (starts : List (ℕ × ℕ))
    → IsBelow n starts
    → Popped n starts (pop_start id starts)
unfolding pop_start
pop_start-Popped n id [] h = tt
pop_start-Popped n id ((j, t) ∷ starts) h = elim (Bool-cases (handle_eq id (pos j))) [
  | inl same ↦ rw same (refl, h.1)
  | inr other ↦ rw other (later (pop_start id starts) (pop_start-Popped n id starts h.1))
]
  where
    later :
        (found : Option (ℕ × List (ℕ × ℕ)))
        → Popped n starts found
        → Popped n
            ((j, t) ∷ starts)
            (elim found [ none ↦ none | some (u, rest) ↦ some (u, (j, t) ∷ rest) ])
    later none p = tt
    later (some (u, rest)) p = (omega (arith, p.0), (h.0, p.1))

-- What a message changes, if nothing is raised.
abbrev Settles : ℕ → ℕ → ServerInner → ServerInner × Result (Unit {0}) → Type 0
Settles n more s handled =
    handled.1 ≡ ok tt → (settled handled.0 ≡ settled s + more) × IsBelow n handled.0.time_starts

handle_work_lem :
    (handle : ℤ) (n time_start : ℕ) (seed : ℤ) (s : ServerInner)
    → IsBelow n s.time_starts
    → (settled (handle_work handle n time_start seed s) ≡ settled s + 1)
      × IsBelow (suc n) (handle_work handle n time_start seed s).time_starts
unfolding handle_work
handle_work_lem handle n time_start seed s h = elim (Bool-cases (is_active handle s.active)) [
  | inl there ↦ rw there (
    omega (arith, (set_start_new n time_start s.time_starts h).0),
    (set_start_new n time_start s.time_starts h).1,
  )
  | inr gone ↦ rw gone (
    omega (arith, answers_snoc s.controller_queue output_need_more_work),
    IsBelow-suc n s.time_starts h,
  )
]

handle_init_fail_lem :
    (error : Text) (handle : ℤ) (s : ServerInner)
    → settled (handle_init_fail error handle s) ≡ settled s + 1
unfolding handle_init_fail
handle_init_fail_lem error handle s = ground (
  arith,
  answers_snoc s.controller_queue output_need_more_work,
  answers_snoc s.controller_queue (output_init_fail handle error),
)

handle_work_done-Settles :
    (n : ℕ) (handle time_us : ℤ) (result : Dict Json) (compressed_source : Option Text)
    (s : ServerInner) (found : Option (ℕ × List (ℕ × ℕ)))
    → Popped n s.time_starts found
    → Settles n 0 s (handle_work_done handle time_us result compressed_source s found)
unfolding handle_work_done
handle_work_done-Settles n handle time_us result compressed_source s none p = λ e. cc
handle_work_done-Settles n handle time_us result compressed_source s (some (time_start, starts)) p =
    report (score_of o)
  where
    o : Dict Json
    o = insert (lit "permuter") (int handle) result

    report :
        (r : Result (Option ℤ))
        → Settles n 0 s (
            if is_active handle s.active
            then report_work handle time_start time_us o compressed_source
                (record s { time_starts = starts })
                r
            else (need_work (record s { time_starts = starts }), ok tt))
    report (err e) h = ground (arith, answers_snoc s.controller_queue output_need_more_work)
    report (ok score) h = ground (
      arith,
      answers_snoc s.controller_queue output_need_more_work,
      answers_snoc s.controller_queue (output_work handle time_start time_us o compressed_source),
    )

with_handle-Settles :
    (n more : ℕ) (perm_id : Text) (s : ServerInner) (f : ℤ → ServerInner × Result (Unit {0}))
    → ((handle : ℤ) → Settles n more s (f handle))
    → Settles n more s (with_handle perm_id s f)
unfolding with_handle
with_handle-Settles n more perm_id s f k = by_id (parse_int perm_id)
  where
    by_id :
        (r : Result ℤ)
        → (let t : ServerInner × Result (Unit {0}) = elim r [
          | err e ↦ (s, err e)
          | ok handle ↦ f handle
        ] in
            Settles n more s t)
    by_id (err e) = λ h. cc
    by_id (ok handle) = k handle

handle_message-Settles :
    (now n : ℕ) (msg : Activity) (s : ServerInner)
    → IsNext msg n
    → IsBelow n s.time_starts
    → Settles (next_id msg n) (due msg) s (handle_message now msg s)
unfolding handle_message
handle_message-Settles now n shutdown s i b e = (omega arith, b)
handle_message-Settles now n heartbeat s i b e = (omega arith, b)
handle_message-Settles now n (work handle id time_start seed) s i b e =
    rw i (handle_work_lem handle n time_start seed s b)
handle_message-Settles now n (add_permuter handle time_start client p) s i b e =
    unfold handle_add in ground arith
handle_message-Settles now n (remove_permuter handle) s i b e = ground arith
handle_message-Settles now n (disconnect handle) s i b e =
    ground (arith, answers_snoc s.controller_queue (output_disconnect handle))
handle_message-Settles now n (immediate_disconnect handle client reason) s i b e =
    ground (arith, answers_snoc s.controller_queue (output_init_fail handle reason))
handle_message-Settles now n (perm_init_fail perm_id error) s i b e =
    with_handle-Settles n 1 perm_id s _
      (λ handle h. (handle_init_fail_lem error handle s, unfold handle_init_fail in ground arith)) e
handle_message-Settles now n (perm_init_success perm_id base_score base_hash time_us) s i b e =
    with_handle-Settles n 1 perm_id s _
      (λ handle h. ground (
        arith,
        answers_snoc s.controller_queue output_need_more_work,
        answers_snoc s.controller_queue (output_init_success handle time_us base_score base_hash),
      ))
      e
handle_message-Settles now n (work_done perm_id id result time_us compressed_source) s i b e =
    with_handle-Settles n 0 perm_id s _
      (λ handle.
        handle_work_done-Settles n handle time_us result compressed_source s
          (pop_start id s.time_starts) (pop_start-Popped n id s.time_starts b))
      e
handle_message-Settles now n need_more_work s i b e =
    (omega (arith, answers_snoc s.controller_queue output_need_more_work), b)
handle_message-Settles now n (net_thread_disconnected graceful message) s i b e = (omega arith, b)

main_loop-settled :
    (n : ℕ) (msgs : List (ℕ × Activity)) (s : ServerInner)
    → IsNumbered n msgs
    → IsBelow n s.time_starts
    → (main_loop msgs s).1 ≡ ok tt
    → settled (main_loop msgs s).0 ≡ settled s + due_all msgs
unfolding main_loop due_all
main_loop-settled n [] s i b e = omega arith
main_loop-settled n ((now, msg) ∷ msgs) s i b e = elim (Bool-cases (is_shutdown msg)) [
  | inl stop ↦ rw stop (omega arith)
  | inr more ↦ rw more (
      go_on (handle_message now msg s) (handle_message-Settles now n msg s i.0 b)
        (λ below. main_loop-settled (next_id msg n) msgs (handle_message now msg s).0 i.1 below)
        (rw more at e))
]
  where
    go_on :
        (handled : ServerInner × Result (Unit {0}))
        → Settles (next_id msg n) (due msg) s handled
        → (IsBelow (next_id msg n) handled.0.time_starts
            → (main_loop msgs handled.0).1 ≡ ok tt
            → settled (main_loop msgs handled.0).0 ≡ settled handled.0 + due_all msgs)
        → (let t : ServerInner × Result (Unit {0}) = elim handled.1 [
          | err x ↦ handled
          | ok u ↦ main_loop msgs handled.0
        ] in
            t.1 ≡ ok tt → settled t.0 ≡ settled s + (due msg + due_all msgs))
    go_on (s', err x) settles later h = cc
    go_on (s', ok u) settles later h =
        let (now', below) = settles refl in omega (arith, now', later below h)

-- When the main loop stops and nothing has been raised, the work being numbered as it came in, every
-- message that is due an answer (work, a permuter that failed or started, a request for more work)
-- has been given exactly one, or is work whose result has not come back.
pub main_loop_answers :
    (now : ℕ) (msgs : List (ℕ × Activity))
    → IsNumbered 0 msgs
    → (main_loop msgs (server_inner now)).1 ≡ ok tt
    → settled (main_loop msgs (server_inner now)).0 ≡ due_all msgs
unfolding answers
main_loop_answers now msgs i e = omega (arith, main_loop-settled 0 msgs (server_inner now) i tt e)
