-- ===== src/Net/Client/Ending.antt =====
-- How the loop of a client ends.
use mathlib.Core.Option.{some-injective}
use ee_kernel.Net.Server.Messages.{Sent}
use ee_kernel.Base.{
  ℕ, zero, suc, ◌≤◌, ◌<◌, ◌≡◌, refl, sym, ap, ◌∙◌, subst, ◌⊎◌, inl, inr, arith, Bool, true, false,
  Bool-cases, Option, none, some, List, [], ◌∷◌, ◌++◌, length, Text, lit, text_eq, Dict, Error,
  Result, ok, err,
}
use ee_kernel.Base.Outcome.{returns, raises, Outcome-bind, Outcome-imp}
use ee_kernel.Helpers.Json.{Json}
use ee_kernel.Helpers.Typed.{str_prop}
use ee_kernel.Net.Data.{PermuterData}
use ee_kernel.Net.Frames.{Library, receive_json}
use ee_kernel.Net.Server.Reads.{Gives, any_result, receive_frame-shorter, receive_json-shorter}
use ee_kernel.Net.Server.Threads.{has_source}
use ee_kernel.Net.Client.{
  Report, Feedback, need_more_work, ClientTask, no_more, seed, Received, receive_result,
  receive_typed, receive_one, Run, ended_by, tell, tell_some, work_of, sends, client_loop,
  receive_loop, close, reason_of, finished, permuter_messages, run,
}
use ee_kernel.Net.Client.Sending.{requests}

abbrev AtMost : ℕ → Received → Type 0
AtMost n (more, told, frames) = length frames ≤ n

receive_result-AtMost :
    (lib : Library) (msg : Dict Json) (nick : Text) (frames : List Text)
    → Gives (AtMost (length frames)) (receive_result lib msg nick frames)
unfolding receive_result
receive_result-AtMost lib msg nick frames = elim (Bool-cases (has_source msg)) [
  | inl source ↦ rw source (
      Outcome-bind (receive_frame-shorter frames)
        λ (compressed, frames') lt. returns (omega (arith, lt)))
  | inr alone ↦ rw alone (returns (omega arith))
]

receive_typed-AtMost :
    (lib : Library) (hash msg_type : Text) (msg : Dict Json) (nick : Text) (frames : List Text)
    → Gives (AtMost (length frames)) (receive_typed lib hash msg_type msg nick frames)
unfolding receive_typed
receive_typed-AtMost lib hash msg_type msg nick frames =
    elim (Bool-cases (text_eq msg_type (lit "init_done"))) [
      | inl a ↦
          rw a (
            Outcome-bind (any_result (str_prop msg (lit "hash") none)) λ h _. returns (omega arith))
      | inr a ↦ elim (Bool-cases (text_eq msg_type (lit "init_failed"))) [
        | inl b ↦
            rw (a, b)
              (Outcome-bind (any_result (str_prop msg (lit "reason") none))
                λ h _. returns (omega arith))
        | inr b ↦ elim (Bool-cases (text_eq msg_type (lit "disconnect"))) [
          | inl c ↦ rw (a, b, c) (returns (omega arith))
          | inr c ↦ elim (Bool-cases (text_eq msg_type (lit "result"))) [
            | inl d ↦ rw (a, b, c, d) (receive_result-AtMost lib msg nick frames)
            | inr d ↦ rw (a, b, c, d) (raises tt)
          ]
        ]
      ]
    ]

abbrev Shorter : ℕ → Received → Type 0
Shorter n (more, told, frames) = length frames < n

receive_one-Shorter :
    (lib : Library) (hash : Text) (frames : List Text)
    → Gives (Shorter (length frames)) (receive_one lib hash frames)
unfolding receive_one
receive_one-Shorter lib hash frames =
    Outcome-bind (receive_json-shorter lib frames) λ (msg, frames') lt.
      Outcome-bind (any_result (str_prop msg (lit "type") none)) λ msg_type _.
        elim (Bool-cases (text_eq msg_type (lit "need_work"))) [
          | inl asks ↦ rw asks (returns lt)
          | inr other ↦ rw other (
              Outcome-bind (any_result (str_prop msg (lit "server") none)) λ nick _.
                Outcome-imp (λ r le. omega (arith, le, lt))
                  (receive_typed-AtMost lib hash msg_type msg nick frames'))
        ]

-- The exception that reading the messages of the loop raises, at some message
pub data Fails (lib : Library) (hash : Text) : List Text → Error → Type 0 where
  here :
      {frames : List Text} {e : Error}
      → receive_one lib hash frames ≡ err e
      → Fails lib hash frames e
  later :
      {frames frames' : List Text} {more : Bool} {told : Option (Report × Text)} {e : Error}
      → receive_one lib hash frames ≡ ok (more, told, frames')
      → Fails lib hash frames' e
      → Fails lib hash frames e

-- The same for a run, which reads the answer to the permuter first
abbrev pub FailsToRead : Library → Text → List Text → Error → Type 0
FailsToRead lib hash frames e =
    (receive_json lib frames ≡ err e)
    ⊎ (o : Dict Json) × (frames' : List Text) × (receive_json lib frames ≡ ok (o, frames'))
      × Fails lib hash frames' e

-- It waits for a task, and more were requested than there are.
abbrev pub Waits : ℕ → Run → Type 0
Waits n r = (r.ended ≡ none) × (n < requests r.feedback)

module _ (fault : Error) where
  -- An exception has ended the run: one of these, or the one of its writes where all that succeed are
  -- done.
  abbrev EndsBy : (Error → Type 0) → ℕ → Run → Type 0
  EndsBy F writes r =
      (e : Error) × (r.ended ≡ some e) × (F e ⊎ (e ≡ fault) × (length r.sent ≡ writes))

  abbrev EndsOrWaits : (Error → Type 0) → ℕ → ℕ → Run → Type 0
  EndsOrWaits F n writes r = EndsBy F writes r ⊎ Waits n r

  EndsOrWaits-later :
      (F G : Error → Type 0) (n writes : ℕ) (r : Run)
      → ((e : Error) → F e → G e)
      → EndsOrWaits F n writes r
      → EndsOrWaits G n writes r
  EndsOrWaits-later F G n writes r imp (inl (e, ended, inl f)) = inl (e, ended, inl (imp e f))
  EndsOrWaits-later F G n writes r imp (inl (e, ended, inr all_sent)) = inl (e, ended, inr all_sent)
  EndsOrWaits-later F G n writes r imp (inr lt) = inr lt

  EndsOrWaits-sends :
      (F : Error → Type 0) (n writes : ℕ) (ms : List Sent) (more : ℕ → Run)
      → ((writes' : ℕ) → EndsOrWaits F n writes' (more writes'))
      → EndsOrWaits F n writes (sends fault writes ms more)
  unfolding sends
  EndsOrWaits-sends F n writes [] more h = h writes
  EndsOrWaits-sends F n zero (m ∷ ms) more h = inl (fault, refl, inr (refl, refl))
  EndsOrWaits-sends F n (suc writes) (m ∷ ms) more h =
      elim (EndsOrWaits-sends F n writes ms more h) [
        | inl (e, ended, inl f) ↦ inl (e, ended, inl f)
        | inl (e, ended, inr (fault_is, all_sent)) ↦ inl (e, ended, inr (fault_is, ap suc all_sent))
        | inr lt ↦ inr lt
      ]

  EndsOrWaits-tell_some :
      (F : Error → Type 0) (n writes : ℕ) (told : Option (Report × Text)) (r : Run)
      → EndsOrWaits F n writes r
      → EndsOrWaits F n writes (tell_some told r)
  unfolding requests
  EndsOrWaits-tell_some F n writes none r h = h
  EndsOrWaits-tell_some F n writes (some (report, nick)) r h = h

  EndsOrWaits-request :
      (F : Error → Type 0) (n m writes : ℕ) (r : Run)
      → n ≤ suc m
      → EndsOrWaits F m writes r
      → EndsOrWaits F n writes (tell need_more_work r)
  unfolding requests
  EndsOrWaits-request F n m writes r le (inl h) = inl h
  EndsOrWaits-request F n m writes r le (inr (waits, h)) = inr (waits, omega arith)

  client_loop-EndsOrWaits :
      (lib : Library) (hash : Text) (rounds : ℕ) (over : Bool) (writes : ℕ) (frames : List Text)
      (tasks : List ClientTask)
      → length frames < rounds
      → EndsOrWaits
          (Fails lib hash frames)
          (length tasks)
          writes
          (client_loop fault lib hash rounds over writes frames tasks)
  unfolding client_loop
  client_loop-EndsOrWaits lib hash zero over writes frames tasks lt = absurd (omega arith)
  client_loop-EndsOrWaits lib hash (suc rounds) over writes frames tasks lt =
      by_message (receive_one lib hash frames) refl (receive_one-Shorter lib hash frames)
        (λ over' writes' frames' tasks' more told read shorter.
          EndsOrWaits-later (Fails lib hash frames') (Fails lib hash frames) (length tasks') writes'
            (client_loop fault lib hash rounds over' writes' frames' tasks') (λ e f. later read f)
            (client_loop-EndsOrWaits lib hash rounds over' writes' frames' tasks'
              (omega (arith, shorter, lt))))
        over tasks
    where
      by_message :
          (r : Result Received)
          → receive_one lib hash frames ≡ r
          → Gives (Shorter (length frames)) r
          → ((over' : Bool) (writes' : ℕ) (frames' : List Text) (tasks' : List ClientTask)
                (more : Bool) (told : Option (Report × Text))
              → receive_one lib hash frames ≡ ok (more, told, frames')
              → length frames' < length frames
              → EndsOrWaits
                  (Fails lib hash frames)
                  (length tasks')
                  writes'
                  (client_loop fault lib hash rounds over' writes' frames' tasks'))
          → (over : Bool) (tasks : List ClientTask)
          → (let x : Run = elim r [
            | err e ↦ ended_by (some e)
            | ok (false, told, frames') ↦
                tell_some told (client_loop fault lib hash rounds over writes frames' tasks)
            | ok (true, told, frames') ↦ tell_some told (
                tell need_more_work (elim over [
                  | true ↦ client_loop fault lib hash rounds true writes frames' tasks
                  | false ↦ elim tasks [
                    | [] ↦ ended_by none
                    | no_more ∷ rest ↦ client_loop fault lib hash rounds true writes frames' rest
                    | seed s ∷ rest ↦
                        sends fault writes
                          (work_of s ∷ [])
                          λ writes'. client_loop fault lib hash rounds false writes' frames' rest
                  ]
                ]))
          ] in
              EndsOrWaits (Fails lib hash frames) (length tasks) writes x)
      by_message (err e) read g more over tasks = inl (e, refl, inl (here read))
      by_message (ok (false, told, frames')) read (returns lt') more over tasks =
          EndsOrWaits-tell_some (Fails lib hash frames) (length tasks) writes told
            (client_loop fault lib hash rounds over writes frames' tasks)
            (more over writes frames' tasks false told read lt')
      by_message (ok (true, told, frames')) read (returns lt') more true tasks =
          EndsOrWaits-tell_some (Fails lib hash frames) (length tasks) writes told
            (tell need_more_work (client_loop fault lib hash rounds true writes frames' tasks))
            (EndsOrWaits-request (Fails lib hash frames) (length tasks) (length tasks) writes
              (client_loop fault lib hash rounds true writes frames' tasks) (omega arith)
              (more true writes frames' tasks true told read lt'))
      by_message (ok (true, told, frames')) read (returns lt') more false [] =
          EndsOrWaits-tell_some (Fails lib hash frames) 0 writes told
            (tell need_more_work (ended_by none)) (inr (refl, unfold requests in omega arith))
      by_message (ok (true, told, frames')) read (returns lt') more false (no_more ∷ rest) =
          EndsOrWaits-tell_some (Fails lib hash frames) (suc (length rest)) writes told
            (tell need_more_work (client_loop fault lib hash rounds true writes frames' rest))
            (EndsOrWaits-request (Fails lib hash frames) (suc (length rest)) (length rest) writes
              (client_loop fault lib hash rounds true writes frames' rest) (omega arith)
              (more true writes frames' rest true told read lt'))
      by_message (ok (true, told, frames')) read (returns lt') more false (seed s ∷ rest) =
          let next : ℕ → Run =
            λ writes'. client_loop fault lib hash rounds false writes' frames' rest in
          EndsOrWaits-tell_some (Fails lib hash frames) (suc (length rest)) writes told
            (tell need_more_work (sends fault writes (work_of s ∷ []) next))
            (EndsOrWaits-request (Fails lib hash frames) (suc (length rest)) (length rest) writes
              (sends fault writes (work_of s ∷ []) next) (omega arith)
              (EndsOrWaits-sends (Fails lib hash frames) (length rest) writes (work_of s ∷ []) next
                λ writes'. more false writes' frames' rest true told read lt'))

  -- The last that is told is that the client has finished, and why.
  abbrev pub TellsEnd : Library → Text → List Text → ℕ → Run → Type 0
  TellsEnd lib hash frames writes r =
      (e : Error) × (told : List Feedback) × (r.feedback
        ≡ told ++ finished (some (reason_of lib e)) ∷ [])
      × (FailsToRead lib hash frames e ⊎ (e ≡ fault) × (length r.sent ≡ writes))

  close-TellsEnd :
      (lib : Library) (hash : Text) (frames : List Text) (n writes : ℕ) (r : Run)
      → EndsOrWaits (FailsToRead lib hash frames) n writes r
      → TellsEnd lib hash frames writes (close lib r) ⊎ Waits n (close lib r)
  unfolding close
  close-TellsEnd lib hash frames n writes r h = by_end r.ended refl h
    where
      by_end :
          (e : Option Error)
          → r.ended ≡ e
          → ((x : Error) × (e ≡ some x)
              × (FailsToRead lib hash frames x ⊎ (x ≡ fault) × (length r.sent ≡ writes)))
            ⊎ (e ≡ none) × (n < requests r.feedback)
          → (let c : Run = elim e [
            | none ↦ r
            | some e ↦ record r { feedback = r.feedback ++ finished (some (reason_of lib e)) ∷ [] }
          ] in
              TellsEnd lib hash frames writes c ⊎ Waits n c)
      by_end none same (inl (x, bad, why)) = cc bad
      by_end none same (inr (waits, lt)) = inr (same, lt)
      by_end (some e) ended (inl (x, same, inl fails)) = inl (
        e,
        r.feedback,
        refl,
        inl (subst (FailsToRead lib hash frames) (sym (some-injective e x same)) fails),
      )
      by_end (some e) ended (inl (x, same, inr (fault_is, all_sent))) =
          inl (e, r.feedback, refl, inr (some-injective e x same ∙ fault_is, all_sent))
      by_end (some e) ended (inr (bad, lt)) = cc bad

  receive_loop-EndsOrWaits :
      (lib : Library) (p : PermuterData) (tasks : List ClientTask) (frames : List Text) (writes : ℕ)
      → EndsOrWaits
          (FailsToRead lib p.base_hash frames)
          (length tasks)
          writes
          (receive_loop fault lib p tasks frames writes)
  unfolding receive_loop
  receive_loop-EndsOrWaits lib p tasks frames writes = by_first (receive_json lib frames) refl
    where
      by_first :
          (r : Result (Dict Json × List Text))
          → receive_json lib frames ≡ r
          → (let x : Run = elim r [
            | err e ↦ ended_by (some e)
            | ok (o, frames') ↦
                client_loop fault lib p.base_hash (suc (length frames')) false writes frames' tasks
          ] in
              EndsOrWaits (FailsToRead lib p.base_hash frames) (length tasks) writes x)
      by_first (err e) read = inl (e, refl, inl (inl read))
      by_first (ok (o, frames')) read =
          EndsOrWaits-later (Fails lib p.base_hash frames') (FailsToRead lib p.base_hash frames)
            (length tasks) writes
            (client_loop fault lib p.base_hash (suc (length frames')) false writes frames' tasks)
            (λ e fails. inr (o, frames', read, fails))
            (client_loop-EndsOrWaits lib p.base_hash (suc (length frames')) false writes frames'
              tasks (omega arith))

  -- Whatever the server sends and whenever the writes to it begin to fail, a run ends and tells last
  -- that it has finished and the reason for the exception that ended it, which is the one that
  -- reading the messages raised, or the one of its writes, after all of them that succeed; or it has
  -- been asked for more pieces of work than there are tasks, and waits for one.
  pub run-TellsEnd :
      (lib : Library) (compress : Text → Text) (p : PermuterData) (writes : ℕ)
      (tasks : List ClientTask) (frames : List Text)
      → TellsEnd lib p.base_hash frames writes (run fault lib compress p writes tasks frames)
        ⊎ Waits (length tasks) (run fault lib compress p writes tasks frames)
  unfolding run
  run-TellsEnd lib compress p writes tasks frames =
      close-TellsEnd lib p.base_hash frames (length tasks) writes _ (
        EndsOrWaits-sends (FailsToRead lib p.base_hash frames) (length tasks) writes
          (permuter_messages compress p) _ (receive_loop-EndsOrWaits lib p tasks frames))
