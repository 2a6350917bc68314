-- ===== src/Net/Server/Balance.antt =====
-- What the user interface is told of a permuter, against the permuters that are active.
use ee_kernel.Base.{
  ℕ, ◌+◌, ◌≡◌, ap, ◌↔◌, inl, inr, arith, true, false, Bool-cases, Option, none, some, is_some, List,
  [], ◌∷◌, ◌++◌, Text, lit, Dict, insert, Result, ok, err, ==_iff, if◌then◌else◌,
}
use ee_kernel.Base.Int.{ℤ, pos, negsuc}
use ee_kernel.Helpers.Json.{Json, int}
use ee_kernel.Perm.Split.{parse_int}
use ee_kernel.Net.Data.{PermuterData}
use ee_kernel.Net.Server.Messages.{
  Client, io_server_failed, Activity, add_permuter, remove_permuter, work, immediate_disconnect,
  disconnect, perm_init_fail, perm_init_success, work_done, need_more_work, heartbeat, shutdown,
  net_thread_disconnected, io_connect, io_disconnect, io_immediate_disconnect, io_work_done,
  IoActivity, of_permuter, global,
}
use ee_kernel.Net.Server.{
  ServerInner, handle_eq, is_active, discard, need_work, score_of, handle_work, handle_add,
  handle_init_fail, report_work, handle_work_done, with_handle, handle_message, server_inner,
  main_loop, is_shutdown, pop_start,
}

pub handle_eq_iff : (i j : ℤ) → (handle_eq i j ≡ true) ↔ (i ≡ j)
unfolding handle_eq
handle_eq_iff (pos m) (pos n) = (λ h. ap pos ((==_iff m n).0 h), λ h. (==_iff m n).1 (cc h))
handle_eq_iff (negsuc m) (negsuc n) =
    (λ h. ap negsuc ((==_iff m n).0 h), λ h. (==_iff m n).1 (cc h))
handle_eq_iff (pos m) (negsuc n) = (λ h. cc, λ h. cc)
handle_eq_iff (negsuc m) (pos n) = (λ h. cc, λ h. cc)

-- 1 for the message that shows a permuter to the user, and for the one that takes it away.
abbrev shows : ℤ → IoActivity → ℕ
shows h (of_permuter i (io_connect fn_name client)) = if handle_eq h i then 1 else 0
shows h (of_permuter i msg) = 0
shows h (global msg) = 0

abbrev hides : ℤ → IoActivity → ℕ
hides h (of_permuter i (io_disconnect reason)) = if handle_eq h i then 1 else 0
hides h (of_permuter i msg) = 0
hides h (global msg) = 0

unfoldable pub total : (IoActivity → ℕ) → List IoActivity → ℕ
total f [] = 0
total f (a ∷ q) = f a + total f q

total_snoc :
    (f : IoActivity → ℕ) (q : List IoActivity) (a : IoActivity)
    → total f (q ++ a ∷ []) ≡ total f q + f a
unfolding total
total_snoc f [] a = omega arith
total_snoc f (b ∷ q) a = omega (arith, total_snoc f q a)

is_active-discard :
    (h g : ℤ) (active : List ℤ)
    → is_active h (discard g active) ≡ (if handle_eq h g then false else is_active h active)
unfolding is_active discard
is_active-discard h g [] = ground arith
is_active-discard h g (a ∷ active) =
    ground
      (arith, is_active-discard h g active, handle_eq_iff h g, handle_eq_iff g a, handle_eq_iff h a)

-- A permuter has been shown once more than hidden while it is active, and as often otherwise.
abbrev pub IsBalanced : ℤ → ServerInner → Type 0
IsBalanced h s =
    total (shows h) s.io_queue
    ≡ total (hides h) s.io_queue + (if is_active h s.active then 1 else 0)

module _ (h : ℤ) where
  handle_work-IsBalanced :
      (handle : ℤ) (id time_start : ℕ) (seed : ℤ) (s : ServerInner)
      → IsBalanced h s
      → IsBalanced h (handle_work handle id time_start seed s)
  unfolding handle_work
  handle_work-IsBalanced handle id time_start seed s b = ground arith

  handle_add-IsBalanced :
      (handle : ℤ) (client : Client) (p : PermuterData) (s : ServerInner)
      → IsBalanced h s
      → IsBalanced h (handle_add handle client p s).0
  unfolding handle_add is_active
  handle_add-IsBalanced handle client p s b = ground (
    arith,
    total_snoc (shows h) s.io_queue (of_permuter handle (io_connect p.fn_name client)),
    total_snoc (hides h) s.io_queue (of_permuter handle (io_connect p.fn_name client)),
    handle_eq_iff h handle,
  )

  drop-IsBalanced :
      (handle : ℤ) (reason : Text) (s : ServerInner)
      → IsBalanced h s
      → is_active handle s.active ≡ true
      → total (shows h) (s.io_queue ++ of_permuter handle (io_disconnect reason) ∷ [])
        ≡ total (hides h) (s.io_queue ++ of_permuter handle (io_disconnect reason) ∷ [])
          + (if is_active h (discard handle s.active) then 1 else 0)
  drop-IsBalanced handle reason s b there = ground (
    arith,
    total_snoc (shows h) s.io_queue (of_permuter handle (io_disconnect reason)),
    total_snoc (hides h) s.io_queue (of_permuter handle (io_disconnect reason)),
    is_active-discard h handle s.active,
    handle_eq_iff h handle,
  )

  handle_init_fail-IsBalanced :
      (error : Text) (handle : ℤ) (s : ServerInner)
      → IsBalanced h s
      → IsBalanced h (handle_init_fail error handle s)
  unfolding handle_init_fail
  handle_init_fail-IsBalanced error handle s b =
      ground (arith, drop-IsBalanced handle (lit "failed to compile") s b)

  handle_work_done-IsBalanced :
      (handle time_us : ℤ) (result : Dict Json) (compressed_source : Option Text) (s : ServerInner)
      (found : Option (ℕ × List (ℕ × ℕ)))
      → IsBalanced h s
      → IsBalanced h (handle_work_done handle time_us result compressed_source s found).0
  unfolding handle_work_done
  handle_work_done-IsBalanced handle time_us result compressed_source s none b = b
  handle_work_done-IsBalanced handle time_us result compressed_source s (some (time_start, starts))
        b =
      report (score_of (insert (lit "permuter") (int handle) result))
    where
      report :
          (r : Result (Option ℤ))
          → IsBalanced h
              (if is_active handle s.active
                then report_work handle time_start time_us
                    (insert (lit "permuter") (int handle) result)
                    compressed_source
                    (record s { time_starts = starts })
                    r
                else (need_work (record s { time_starts = starts }), ok tt)).0
      report (err e) = ground arith
      report (ok score) = ground (
        arith,
        total_snoc (shows h) s.io_queue
            (of_permuter handle (io_work_done score (is_some compressed_source))),
        total_snoc (hides h) s.io_queue
            (of_permuter handle (io_work_done score (is_some compressed_source))),
      )

  with_handle-IsBalanced :
      (perm_id : Text) (s : ServerInner) (f : ℤ → ServerInner × Result (Unit {0}))
      → IsBalanced h s
      → ((handle : ℤ) → IsBalanced h (f handle).0)
      → IsBalanced h (with_handle perm_id s f).0
  unfolding with_handle
  with_handle-IsBalanced perm_id s f b k = by_id (parse_int perm_id)
    where
      by_id :
          (r : Result ℤ)
          → (let t : ServerInner × Result (Unit {0}) = elim r [
            | err e ↦ (s, err e)
            | ok handle ↦ f handle
          ] in
              IsBalanced h t.0)
      by_id (err e) = b
      by_id (ok handle) = k handle

  -- Whatever message is handled, and whether or not that raises, a permuter stays balanced: the
  -- user interface has been told of its connections once more than of its disconnections while it is
  -- active, and as often otherwise.
  pub handle_message-IsBalanced :
      (now : ℕ) (msg : Activity) (s : ServerInner)
      → IsBalanced h s
      → IsBalanced h (handle_message now msg s).0
  unfolding handle_message
  handle_message-IsBalanced now shutdown s b = b
  handle_message-IsBalanced now heartbeat s b = b
  handle_message-IsBalanced now (work handle id time_start seed) s b =
      handle_work-IsBalanced handle id time_start seed s b
  handle_message-IsBalanced now (add_permuter handle time_start client p) s b =
      handle_add-IsBalanced handle client p s b
  handle_message-IsBalanced now (remove_permuter handle) s b =
      ground (arith, drop-IsBalanced handle (lit "disconnected") s b)
  handle_message-IsBalanced now (disconnect handle) s b =
      ground (arith, drop-IsBalanced handle (lit "kicked") s b)
  handle_message-IsBalanced now (immediate_disconnect handle client reason) s b = ground (
    arith,
    total_snoc (shows h) s.io_queue (of_permuter handle (io_immediate_disconnect reason client)),
    total_snoc (hides h) s.io_queue (of_permuter handle (io_immediate_disconnect reason client)),
  )
  handle_message-IsBalanced now (perm_init_fail perm_id error) s b =
      with_handle-IsBalanced perm_id s _ b (λ handle. handle_init_fail-IsBalanced error handle s b)
  handle_message-IsBalanced now (perm_init_success perm_id base_score base_hash time_us) s b =
      with_handle-IsBalanced perm_id s _ b (λ handle. ground arith)
  handle_message-IsBalanced now (work_done perm_id id result time_us compressed_source) s b =
      with_handle-IsBalanced perm_id s _ b (λ handle.
        handle_work_done-IsBalanced handle time_us result compressed_source s
          (pop_start id s.time_starts) b)
  handle_message-IsBalanced now need_more_work s b = b
  handle_message-IsBalanced now (net_thread_disconnected graceful message) s b = omega (
    arith,
    total_snoc (shows h) s.io_queue (global (io_server_failed graceful message)),
    total_snoc (hides h) s.io_queue (global (io_server_failed graceful message)),
  )

  main_loop_keeps :
      (msgs : List (ℕ × Activity)) (s : ServerInner)
      → IsBalanced h s
      → IsBalanced h (main_loop msgs s).0
  unfolding main_loop
  main_loop_keeps [] s b = b
  main_loop_keeps ((now, msg) ∷ msgs) s b = elim (Bool-cases (is_shutdown msg)) [
    | inl stop ↦ rw stop b
    | inr more ↦ rw more (
        after (handle_message now msg s) (handle_message-IsBalanced now msg s b) (
          main_loop_keeps msgs (handle_message now msg s).0
            (handle_message-IsBalanced now msg s b)))
  ]
    where
      after :
          (handled : ServerInner × Result (Unit {0}))
          → IsBalanced h handled.0
          → IsBalanced h (main_loop msgs handled.0).0
          → (let t : ServerInner × Result (Unit {0}) = elim handled.1 [
            | err e ↦ handled
            | ok u ↦ main_loop msgs handled.0
          ] in
              IsBalanced h t.0)
      after (s', err e) b' later = b'
      after (s', ok u) b' later = later

-- Whatever messages the main loop handles, if it raises nothing, then the user interface has been told
-- of the connections of a permuter once more than of its disconnections if the permuter is active
-- then, and as often otherwise.
pub main_loop-IsBalanced :
    (now : ℕ) (msgs : List (ℕ × Activity)) (h : ℤ)
    → (main_loop msgs (server_inner now)).1 ≡ ok tt
    → IsBalanced h (main_loop msgs (server_inner now)).0
unfolding total is_active
main_loop-IsBalanced now msgs h done = main_loop_keeps h msgs (server_inner now) (omega arith)
