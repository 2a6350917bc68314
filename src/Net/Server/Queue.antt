-- ===== src/Net/Server/Queue.antt =====
-- The main queue of the server, which the reading threads fill in turn.
use ee_kernel.Base.{
  ℕ, zero, suc, ◌≡◌, sym, subst, inl, inr, arith, Bool, true, false, Bool-cases, none, List, [],
  ◌∷◌, map, length, All, Text, lit, text_eq, Dict, Error, Result, ok, err,
}
use ee_kernel.Base.Int.{ℤ}
use ee_kernel.Base.Outcome.{returns, raises, Outcome-bind}
use ee_kernel.Helpers.Typed.{int_prop, str_prop, bool_prop}
use ee_kernel.Net.Frames.{Library, receive_json}
use ee_kernel.Helpers.Json.{Json}
use ee_kernel.Net.Server.Messages.{Activity, work}
use ee_kernel.Net.Server.{main_loop, server_inner}
use ee_kernel.Net.Server.Answers.{IsNext, next_id, IsNumbered, due_all, settled, main_loop_answers}
use ee_kernel.Net.Server.Threads.{
  closing, read_loop, read_eval, read_eval_loop, read_init, read_result, init_activity, read_source,
}
use ee_kernel.Net.Server.Reads.{Gives, any_result, IsClosed, read_loop-IsClosed}

-- A message that is not work.
abbrev pub IsOther : Activity → Type 0
IsOther (work handle id time_start seed) = ⊥
IsOther msg = Unit

-- Work is numbered from id on.
abbrev IsCounted : ℕ → List Activity → Type 0
IsCounted id [] = Unit
IsCounted id (msg ∷ msgs) = IsNext msg id × IsCounted (next_id msg id) msgs

closing-IsNext : (e : Error) (id : ℕ) → IsNext (closing e) id
unfolding closing
closing-IsNext e id = ground arith

IsClosed-IsCounted : (id : ℕ) (msgs : List Activity) → IsClosed id msgs → IsCounted id msgs
IsClosed-IsCounted id [] c = absurd c
IsClosed-IsCounted id (msg ∷ []) (e, same) =
    (subst (λ m. IsNext m id) (sym same) (closing-IsNext e id), tt)
IsClosed-IsCounted id (msg ∷ next ∷ msgs) (r, i, c) =
    (i, IsClosed-IsCounted (next_id msg id) (next ∷ msgs) c)

-- What the main thread has taken out of the queue, each message with the time: the messages of two
-- sources, each in its order, up to some point.
pub data Merged : List Activity → List Activity → List (ℕ × Activity) → Type 0 where
  cut : (xs ys : List Activity) → Merged xs ys []
  left :
      (now : ℕ) (msg : Activity) {xs ys : List Activity} {zs : List (ℕ × Activity)}
      → Merged xs ys zs
      → Merged (msg ∷ xs) ys ((now, msg) ∷ zs)
  right :
      (now : ℕ) (msg : Activity) {xs ys : List Activity} {zs : List (ℕ × Activity)}
      → Merged xs ys zs
      → Merged xs (msg ∷ ys) ((now, msg) ∷ zs)

other-IsNext : (msg : Activity) (id : ℕ) → IsOther msg → IsNext msg id × (next_id msg id ≡ id)
other-IsNext msg id o = ground arith

Merged-IsNumbered :
    {xs ys : List Activity} {zs : List (ℕ × Activity)} (id : ℕ)
    → Merged xs ys zs
    → IsCounted id xs
    → All IsOther ys
    → IsNumbered id zs
Merged-IsNumbered id (cut xs ys) c o = tt
Merged-IsNumbered id (left now msg m) c o = (c.0, Merged-IsNumbered (next_id msg id) m c.1 o)
Merged-IsNumbered id (right now msg {xs} {ys} {zs} m) c o =
    let (n, same) = other-IsNext msg id o.0 in
    (n, subst (λ k. IsNumbered k zs) (sym same) (Merged-IsNumbered id m c o.1))

init_activity-IsOther :
    (msg : Dict Json) (perm_id : Text) (time_us : ℤ) (success : Bool)
    → Gives IsOther (init_activity msg perm_id time_us success)
unfolding init_activity
init_activity-IsOther msg perm_id time_us true =
    Outcome-bind (any_result (int_prop msg (lit "base_score"))) λ base_score _.
      Outcome-bind (any_result (str_prop msg (lit "base_hash") none)) λ base_hash _. returns tt
init_activity-IsOther msg perm_id time_us false =
    Outcome-bind (any_result (str_prop msg (lit "error") none)) λ error _. returns tt

read_init-IsOther : (msg : Dict Json) → Gives IsOther (read_init msg)
unfolding read_init
read_init-IsOther msg = Outcome-bind (any_result (str_prop msg (lit "permuter") none)) λ perm_id _.
    Outcome-bind (any_result (int_prop msg (lit "time_us"))) λ time_us _.
      Outcome-bind (any_result (bool_prop msg (lit "success") none))
        λ success _. init_activity-IsOther msg perm_id time_us success

abbrev OtherFirst : Activity × List Text → Type 0
OtherFirst (msg, frames) = IsOther msg

read_result-IsOther :
    (msg : Dict Json) (frames : List Text) → Gives OtherFirst (read_result msg frames)
unfolding read_result
read_result-IsOther msg frames =
    Outcome-bind (any_result (read_source msg frames)) λ (source, frames') _.
      Outcome-bind (any_result (str_prop msg (lit "permuter") none)) λ perm_id _.
        Outcome-bind (any_result (int_prop msg (lit "id")))
          λ id _. Outcome-bind (any_result (int_prop msg (lit "time_us"))) λ time_us _. returns tt

read_eval-IsOther : (lib : Library) (frames : List Text) → Gives OtherFirst (read_eval lib frames)
unfolding read_eval
read_eval-IsOther lib frames =
    Outcome-bind (any_result (receive_json lib frames)) λ (msg, frames') _.
      Outcome-bind (any_result (str_prop msg (lit "type") none)) λ msg_type _.
        elim (Bool-cases (text_eq msg_type (lit "init"))) [
          | inl is_init ↦ rw is_init (Outcome-bind (read_init-IsOther msg) λ a o. returns o)
          | inr not_init ↦ elim (Bool-cases (text_eq msg_type (lit "result"))) [
            | inl is_result ↦ rw (not_init, is_result) (read_result-IsOther msg frames')
            | inr unknown ↦ rw (not_init, unknown) (raises tt)
          ]
        ]

read_eval_loop-IsOther :
    (lib : Library) (rounds : ℕ) (frames : List Text)
    → All IsOther (read_eval_loop lib rounds frames)
unfolding read_eval_loop
read_eval_loop-IsOther lib zero frames = tt
read_eval_loop-IsOther lib (suc rounds) frames =
    after (read_eval lib frames) (read_eval-IsOther lib frames) (read_eval_loop-IsOther lib rounds)
  where
    after :
        (r : Result (Activity × List Text))
        → Gives OtherFirst r
        → ((frames' : List Text) → All IsOther (read_eval_loop lib rounds frames'))
        → All IsOther (elim r [
          | err e ↦ []
          | ok (activity, frames') ↦ activity ∷ read_eval_loop lib rounds frames'
        ])
    after (err e) g later = tt
    after (ok (activity, frames')) (returns o) later = (o, later frames')

Merged-IsOther :
    {xs ys : List Activity} {zs : List (ℕ × Activity)}
    → Merged xs ys zs
    → All IsOther xs
    → All IsOther ys
    → All IsOther (map (λ (m : ℕ × Activity). m.1) zs)
Merged-IsOther (cut xs ys) a b = tt
Merged-IsOther (left now msg m) a b = (a.0, Merged-IsOther m a.1 b)
Merged-IsOther (right now msg m) a b = (b.0, Merged-IsOther m a b.1)

-- Whatever the controller and the evaluator send, and however their messages meet in the main
-- queue, with requests to stop or to remove a permuter, if the main loop raises nothing then what it
-- has answered and the work that is still under way are together what it owes the controller.
pub server_answers :
    (lib : Library) (clock : ℕ → ℕ) (from_controller from_evaluator : List Text)
    (asked others : List Activity) (timed : List (ℕ × Activity)) (queue : List (ℕ × Activity))
    (now : ℕ)
    → Merged (read_eval_loop lib (suc (length from_evaluator)) from_evaluator) asked timed
    → others ≡ map (λ (m : ℕ × Activity). m.1) timed
    → All IsOther asked
    → Merged (read_loop lib clock (suc (length from_controller)) 0 from_controller) others queue
    → (main_loop queue (server_inner now)).1 ≡ ok tt
    → settled (main_loop queue (server_inner now)).0 ≡ due_all queue
server_answers lib clock from_controller from_evaluator asked others timed queue now m e o m' done =
    main_loop_answers now queue
      (Merged-IsNumbered 0 m'
        (IsClosed-IsCounted 0 (read_loop lib clock (suc (length from_controller)) 0 from_controller)
          (read_loop-IsClosed lib clock (suc (length from_controller)) 0 from_controller
            (omega arith)))
        (subst (All IsOther) (sym e) (
          Merged-IsOther m (read_eval_loop-IsOther lib (suc (length from_evaluator)) from_evaluator)
            o)))
      done
