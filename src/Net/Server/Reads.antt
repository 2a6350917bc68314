-- ===== src/Net/Server/Reads.antt =====
-- The thread of net/server.py that reads from the controller.
use ee_kernel.Base.{
  ℕ, zero, suc, ◌<◌, ◌≡◌, refl, subst, inl, inr, arith, Bool-cases, none, List, [], ◌∷◌, length,
  Text, lit, text_eq, Dict, Error, Result, ok, err,
}
use ee_kernel.Base.Int.{ℤ}
use ee_kernel.Base.Outcome.{Outcome, returns, raises, Outcome-bind}
use ee_kernel.Helpers.Typed.{int_prop, str_prop, dict_prop}
use ee_kernel.Net.Data.{PermuterData}
use ee_kernel.Net.Frames.{Library, receive_frame, receive_json, top_level}
use ee_kernel.Helpers.Json.{Json}
use ee_kernel.Net.Server.Messages.{
  Client, Activity, add_permuter, remove_permuter, work, immediate_disconnect, heartbeat,
}
use ee_kernel.Net.Server.Answers.{IsNext, next_id}
use ee_kernel.Net.Server.Threads.{
  Read, read_work, read_add, read_typed, read_one, closing, read_loop, added, parse_permuter,
}

-- A message that the controller has sent: nothing that the server itself makes.
abbrev pub IsRequest : Activity → Type 0
IsRequest (work handle id time_start seed) = Unit
IsRequest (immediate_disconnect handle client reason) = Unit
IsRequest (add_permuter handle time_start client p) = Unit
IsRequest (remove_permuter handle) = Unit
IsRequest heartbeat = Unit
IsRequest msg = ⊥

abbrev pub Gives {ℓ κ} : {A : Type ℓ} → (A → Type κ) → Result A → Type (ℓ ⊔ κ)
Gives P r = Outcome P (λ e. Unit {0}) r

pub any_result {ℓ} : {A : Type ℓ} (r : Result A) → Gives (λ a. Unit {0}) r
any_result (err e) = raises tt
any_result (ok a) = returns tt

pub receive_frame-shorter :
    (frames : List Text)
    → Gives
        (λ (received : Text × List Text). length received.1 < length frames)
        (receive_frame frames)
unfolding receive_frame
receive_frame-shorter [] = raises tt
receive_frame-shorter (frame ∷ frames) = returns (omega arith)

pub receive_json-shorter :
    (lib : Library) (frames : List Text)
    → Gives
        (λ (received : Dict Json × List Text). length received.1 < length frames)
        (receive_json lib frames)
unfolding receive_json
receive_json-shorter lib frames = Outcome-bind (receive_frame-shorter frames) λ (frame, frames') lt.
    Outcome-bind (any_result (lib.loads frame))
      λ v _. Outcome-bind (any_result (top_level v)) λ o _. returns lt

added-IsRequest :
    (lib : Library) (now id : ℕ) (handle : ℤ) (client : Client) (parsed : Result PermuterData)
    → Gives
        (λ (msg : Activity). IsRequest msg × IsNext msg id × (id ≡ next_id msg id))
        (added lib now handle client parsed)
unfolding added
added-IsRequest lib now id handle client (err e) = returns (tt, tt, refl)
added-IsRequest lib now id handle client (ok p) =
    Outcome-bind (any_result lib.base_weights) λ base _. returns (tt, tt, refl)

-- What one round has read, where so many messages were left.
abbrev FitsIn : ℕ → ℕ → Read → Type 0
FitsIn id left (msg, id', frames') =
    IsRequest msg × IsNext msg id × (id' ≡ next_id msg id) × (length frames' < left)

module _ (lib : Library) (now id left : ℕ) (handle : ℤ) (msg : Dict Json) (frames : List Text)
    (h : length frames < left) where
  read_add-Fits : Gives (FitsIn id left) (read_add lib now id handle msg frames)
  unfolding read_add
  read_add-Fits = Outcome-bind (any_result (str_prop msg (lit "client_id") none)) λ client_id _.
      Outcome-bind (any_result (str_prop msg (lit "client_name") none)) λ client_name _.
        Outcome-bind (any_result (dict_prop msg (lit "data") none)) λ o _.
          Outcome-bind (receive_frame-shorter frames) λ (first, frames') lt.
            Outcome-bind (receive_frame-shorter frames') λ (second, frames'') lt'.
              Outcome-bind
                (added-IsRequest lib now id handle
                  (record { id = client_id; nickname = client_name })
                  (parse_permuter lib o first second))
                λ a fits. returns (fits.0, fits.1, fits.2, omega (arith, lt, lt', h))

  read_work-Fits : Gives (FitsIn id left) (read_work now id handle msg frames)
  unfolding read_work
  read_work-Fits =
      Outcome-bind (any_result (int_prop msg (lit "seed"))) λ seed _. returns (tt, refl, refl, h)

read_typed-Fits :
    (lib : Library) (now id left : ℕ) (msg_type : Text) (msg : Dict Json) (frames : List Text)
    → length frames < left
    → Gives (FitsIn id left) (read_typed lib now id msg_type msg frames)
unfolding read_typed
read_typed-Fits lib now id left msg_type msg frames h =
    Outcome-bind (any_result (int_prop msg (lit "permuter"))) λ handle _.
      elim (Bool-cases (text_eq msg_type (lit "work"))) [
        | inl is_work ↦ rw is_work (read_work-Fits lib now id left handle msg frames h)
        | inr not_work ↦ elim (Bool-cases (text_eq msg_type (lit "add"))) [
          | inl is_add ↦ rw (not_work, is_add) (read_add-Fits lib now id left handle msg frames h)
          | inr not_add ↦ elim (Bool-cases (text_eq msg_type (lit "remove"))) [
            | inl is_remove ↦ rw (not_work, not_add, is_remove) (returns (tt, tt, refl, h))
            | inr not_remove ↦ rw (not_work, not_add, not_remove) (raises tt)
          ]
        ]
      ]

read_one-Fits :
    (lib : Library) (now id : ℕ) (frames : List Text)
    → Gives (FitsIn id (length frames)) (read_one lib now id frames)
unfolding read_one
read_one-Fits lib now id frames =
    Outcome-bind (receive_json-shorter lib frames) λ (msg, frames') lt.
      Outcome-bind (any_result (str_prop msg (lit "type") none)) λ msg_type _.
        elim (Bool-cases (text_eq msg_type (lit "heartbeat"))) [
          | inl beat ↦ rw beat (returns (tt, tt, refl, lt))
          | inr other ↦
              rw other (read_typed-Fits lib now id (length frames) msg_type msg frames' lt)
        ]

-- The messages of a read loop: requests, numbered from id on, and then that the connection has gone.
abbrev pub IsClosed : ℕ → List Activity → Type 0
IsClosed id [] = ⊥
IsClosed id (msg ∷ []) = (e : Error) × (msg ≡ closing e)
IsClosed id (msg ∷ next ∷ msgs) =
    IsRequest msg × IsNext msg id × IsClosed (next_id msg id) (next ∷ msgs)

IsClosed-step :
    (id : ℕ) (msg : Activity) (msgs : List Activity)
    → IsRequest msg
    → IsNext msg id
    → IsClosed (next_id msg id) msgs
    → IsClosed id (msg ∷ msgs)
IsClosed-step id msg [] r i c = absurd c
IsClosed-step id msg (next ∷ msgs) r i c = (r, i, c)

-- However the controller's messages are broken, the read loop ends, and it puts into the queue its
-- requests, the work among them numbered one after the other, and last, once, that the connection
-- has gone.
pub read_loop-IsClosed :
    (lib : Library) (clock : ℕ → ℕ) (rounds id : ℕ) (frames : List Text)
    → length frames < rounds
    → IsClosed id (read_loop lib clock rounds id frames)
unfolding read_loop
read_loop-IsClosed lib clock zero id frames h = absurd (omega arith)
read_loop-IsClosed lib clock (suc rounds) id frames h =
    after (read_one lib (clock rounds) id frames) (read_one-Fits lib (clock rounds) id frames)
      (λ id' frames' lt. read_loop-IsClosed lib clock rounds id' frames' (omega (arith, lt, h)))
  where
    after :
        (r : Result Read)
        → Gives (FitsIn id (length frames)) r
        → ((id' : ℕ) (frames' : List Text)
            → length frames' < length frames
            → IsClosed id' (read_loop lib clock rounds id' frames'))
        → IsClosed id (elim r [
          | err e ↦ closing e ∷ []
          | ok (activity, id', frames') ↦ activity ∷ read_loop lib clock rounds id' frames'
        ])
    after (err e) g later = (e, refl)
    after (ok (activity, id', frames')) (returns (request, numbered, same, lt)) later =
        IsClosed-step id activity (read_loop lib clock rounds id' frames') request numbered (
          subst (λ k. IsClosed k (read_loop lib clock rounds id' frames')) same
            (later id' frames' lt))
