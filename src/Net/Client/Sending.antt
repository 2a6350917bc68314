-- ===== src/Net/Client/Sending.antt =====
-- The work that a client sends, against the requests for it.
use ee_kernel.Base.{
  ℕ, zero, suc, ◌+◌, ◌≡◌, refl, sym, ap, ◌∙◌, arith, Bool, true, false, Option, none, some, List,
  [], ◌∷◌, ◌++◌, map, length, take, Text, Dict, Error, Result, ok, err,
}
use ee_kernel.Base.Int.{ℤ}
use ee_kernel.Helpers.Json.{Json}
use ee_kernel.Net.Data.{PermuterData}
use ee_kernel.Net.Frames.{Library, receive_json}
use ee_kernel.Net.Server.Messages.{Sent}
use ee_kernel.Net.Client.{
  Report, Feedback, of_server, need_more_work, finished, ClientTask, no_more, seed, Received,
  receive_one, Run, ended_by, tell, tell_some, work_of, sends, client_loop, receive_loop, reason_of,
  close, permuter_messages, run,
}

-- How often more work has been requested.
unfoldable pub requests : List Feedback → ℕ
requests [] = 0
requests (need_more_work ∷ told) = suc (requests told)
requests (of_server report nick ∷ told) = requests told
requests (finished reason ∷ told) = requests told

-- The seeds that stand before the end of the work.
unfoldable pub seeds : List ClientTask → List ℤ
seeds [] = []
seeds (no_more ∷ tasks) = []
seeds (seed s ∷ tasks) = s ∷ seeds tasks

-- What is sent, as far as the writes succeed, is what the feedback calls for.
abbrev SendsFor : ℕ → (List Feedback → List Sent) → Run → Type 0
SendsFor writes due r = r.sent ≡ take writes (due r.feedback)

-- A piece of work for each request, as long as there is any
abbrev asked : List ℤ → List Feedback → List Sent
asked work told = map work_of (take (requests told) work)

take_none : (n : ℕ) → take {A = Sent} n [] ≡ []
take_none zero = refl
take_none (suc n) = refl

left_work : Bool → List ClientTask → List ℤ
left_work true tasks = []
left_work false tasks = seeds tasks

module _ (fault : Error) where
  sends-SendsFor :
      (writes : ℕ) (ms : List Sent) (more : ℕ → Run) (due : List Feedback → List Sent)
      → ((writes' : ℕ) → SendsFor writes' due (more writes'))
      → SendsFor writes (λ told. ms ++ due told) (sends fault writes ms more)
  unfolding sends
  sends-SendsFor writes [] more due h = h writes
  sends-SendsFor zero (m ∷ ms) more due h = refl
  sends-SendsFor (suc writes) (m ∷ ms) more due h =
      ap (λ l. m ∷ l) (sends-SendsFor writes ms more due h)

  SendsFor-tell_some :
      (writes : ℕ) (work : List ℤ) (told : Option (Report × Text)) (r : Run)
      → SendsFor writes (asked work) r
      → SendsFor writes (asked work) (tell_some told r)
  unfolding requests
  SendsFor-tell_some writes work none r h = h
  SendsFor-tell_some writes work (some (report, nick)) r h = h

  asked_none : (n : ℕ) → map work_of (take n []) ≡ []
  asked_none zero = refl
  asked_none (suc n) = refl

  -- No work is left, however much is asked for.
  SendsFor-none :
      (writes : ℕ) (r : Run)
      → SendsFor writes (asked []) r
      → SendsFor writes (asked []) (tell need_more_work r)
  unfolding requests
  SendsFor-none writes r h = h ∙ ap (take writes) (asked_none (requests r.feedback))

  SendsFor-work :
      (writes : ℕ) (s : ℤ) (work : List ℤ) (more : ℕ → Run)
      → ((writes' : ℕ) → SendsFor writes' (asked work) (more writes'))
      → SendsFor writes
          (asked (s ∷ work))
          (tell need_more_work (sends fault writes (work_of s ∷ []) more))
  unfolding requests
  SendsFor-work writes s work more h = sends-SendsFor writes (work_of s ∷ []) more (asked work) h

  client_loop-SendsFor :
      (lib : Library) (my_base_hash : Text) (rounds : ℕ) (over : Bool) (writes : ℕ)
      (frames : List Text) (tasks : List ClientTask)
      → SendsFor writes
          (asked (left_work over tasks))
          (client_loop fault lib my_base_hash rounds over writes frames tasks)
  unfolding client_loop requests left_work seeds
  client_loop-SendsFor lib my_base_hash zero over writes frames tasks = sym (take_none writes)
  client_loop-SendsFor lib my_base_hash (suc rounds) over writes frames tasks =
      by_message (receive_one lib my_base_hash frames)
        (client_loop-SendsFor lib my_base_hash rounds) over tasks
    where
      by_message :
          (r : Result Received)
          → ((over' : Bool) (writes' : ℕ) (frames' : List Text) (tasks' : List ClientTask)
              → SendsFor writes'
                  (asked (left_work over' tasks'))
                  (client_loop fault lib my_base_hash rounds over' writes' frames' tasks'))
          → (over : Bool) (tasks : List ClientTask)
          → (let x : Run = elim r [
            | err e ↦ ended_by (some e)
            | ok (false, told, frames') ↦
                tell_some told (client_loop fault lib my_base_hash rounds over writes frames' tasks)
            | ok (true, told, frames') ↦ tell_some told (
                tell need_more_work (elim over [
                  | true ↦ client_loop fault lib my_base_hash rounds true writes frames' tasks
                  | false ↦ elim tasks [
                    | [] ↦ ended_by none
                    | no_more ∷ rest ↦
                        client_loop fault lib my_base_hash rounds true writes frames' rest
                    | seed s ∷ rest ↦ sends fault writes (work_of s ∷ []) λ writes'.
                        client_loop fault lib my_base_hash rounds false writes' frames' rest
                  ]
                ]))
          ] in
              SendsFor writes (asked (left_work over tasks)) x)
      by_message (err e) later over tasks = sym (take_none writes)
      by_message (ok (false, told, frames')) later over tasks =
          SendsFor-tell_some writes (left_work over tasks) told
            (client_loop fault lib my_base_hash rounds over writes frames' tasks)
            (later over writes frames' tasks)
      by_message (ok (true, told, frames')) later true tasks =
          SendsFor-tell_some writes [] told
            (tell need_more_work
              (client_loop fault lib my_base_hash rounds true writes frames' tasks))
            (SendsFor-none writes
              (client_loop fault lib my_base_hash rounds true writes frames' tasks)
              (later true writes frames' tasks))
      by_message (ok (true, told, frames')) later false [] =
          SendsFor-tell_some writes [] told (tell need_more_work (ended_by none))
            (sym (take_none writes))
      by_message (ok (true, told, frames')) later false (no_more ∷ rest) =
          SendsFor-tell_some writes [] told
            (tell need_more_work
              (client_loop fault lib my_base_hash rounds true writes frames' rest))
            (SendsFor-none writes
              (client_loop fault lib my_base_hash rounds true writes frames' rest)
              (later true writes frames' rest))
      by_message (ok (true, told, frames')) later false (seed s ∷ rest) =
          SendsFor-tell_some writes (s ∷ seeds rest) told
            (tell need_more_work (
              sends fault writes (work_of s ∷ [])
                λ writes'. client_loop fault lib my_base_hash rounds false writes' frames' rest))
            (SendsFor-work writes s (seeds rest)
              (λ writes'. client_loop fault lib my_base_hash rounds false writes' frames' rest)
              λ writes'. later false writes' frames' rest)

  requests-append :
      (told told' : List Feedback) → requests (told ++ told') ≡ requests told + requests told'
  unfolding requests
  requests-append [] told' = omega arith
  requests-append (need_more_work ∷ told) told' = omega (arith, requests-append told told')
  requests-append (of_server report nick ∷ told) told' = requests-append told told'
  requests-append (finished reason ∷ told) told' = requests-append told told'

  close-SendsFor :
      (lib : Library) (writes : ℕ) (first : List Sent) (work : List ℤ) (r : Run)
      → SendsFor writes (λ told. first ++ asked work told) r
      → SendsFor writes (λ told. first ++ asked work told) (close lib r)
  unfolding close
  close-SendsFor lib writes first work r h = by_end r.ended
    where
      same :
          (reason : Option Text)
          → requests r.feedback ≡ requests (r.feedback ++ finished reason ∷ [])
      same reason =
          unfold requests in omega (arith, requests-append r.feedback (finished reason ∷ []))

      by_end :
          (e : Option Error)
          → (let x : Run = elim e [
            | none ↦ r
            | some e ↦ record r { feedback = r.feedback ++ finished (some (reason_of lib e)) ∷ [] }
          ] in
              SendsFor writes (λ told. first ++ asked work told) x)
      by_end none = h
      by_end (some e) =
          h
          ∙ ap (λ n. take writes (first ++ map work_of (take n work)))
              (same (some (reason_of lib e)))

  receive_loop-SendsFor :
      (lib : Library) (p : PermuterData) (tasks : List ClientTask) (frames : List Text) (writes : ℕ)
      → SendsFor writes (asked (seeds tasks)) (receive_loop fault lib p tasks frames writes)
  unfolding receive_loop left_work requests
  receive_loop-SendsFor lib p tasks frames writes = by_first (receive_json lib frames)
    where
      by_first :
          (r : Result (Dict Json × List Text))
          → (let x : Run = elim r [
            | err e ↦ ended_by (some e)
            | ok (o, frames') ↦
                client_loop fault lib p.base_hash (suc (length frames')) false writes frames' tasks
          ] in
              SendsFor writes (asked (seeds tasks)) x)
      by_first (err e) = sym (take_none writes)
      by_first (ok (o, frames')) =
          client_loop-SendsFor lib p.base_hash (suc (length frames')) false writes frames' tasks

  -- In every run, however it ends and whatever the server sends, the client sends its permuter and
  -- then one piece of work for each request for more, in the order of its tasks, as long as these
  -- last; and where its writes begin to fail at some point, it has sent just what of this comes
  -- before that point.
  pub run-sent :
      (lib : Library) (compress : Text → Text) (p : PermuterData) (writes : ℕ)
      (tasks : List ClientTask) (frames : List Text)
      → (run fault lib compress p writes tasks frames).sent
        ≡ take writes (
            permuter_messages compress p
            ++ map work_of (
                take
                  (requests (run fault lib compress p writes tasks frames).feedback)
                  (seeds tasks)))
  unfolding run
  run-sent lib compress p writes tasks frames =
      close-SendsFor lib writes (permuter_messages compress p) (seeds tasks) _ (
        sends-SendsFor writes (permuter_messages compress p) _ (asked (seeds tasks))
          (receive_loop-SendsFor lib p tasks frames))
