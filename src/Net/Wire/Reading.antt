-- ===== src/Net/Wire/Reading.antt =====
-- `file_read_max` and `socket_read_max` of net/core.py.
use ee_kernel.Base.{
  ℕ, zero, suc, ◌-◌, ◌≤◌, ◌<◌, min, ◌≡◌, refl, sym, ap, ◌∙◌, arith, Option, none, some, [], ◌∷◌,
  ◌++◌, append_assoc, length, length-append, All, take, drop, Text,
}
use ee_kernel.Net.Wire.{Stream, push, read_some, request, read_loop, read_max}

-- All that a stream has to give.
unfoldable pub bytes_of : Stream → Text
bytes_of [] = []
bytes_of (chunk ∷ stream) = chunk ++ bytes_of stream

-- There is data in every chunk: the stream does not end before it is used up.
abbrev pub IsOpen : Stream → Type 0
IsOpen = All (λ (chunk : Text). 0 < length chunk)

-- A read asks for a byte at least.
abbrev pub IsRoomy : Option ℕ → Type 0
IsRoomy none = Unit
IsRoomy (some most) = 0 < most

request_pos :
    (most : Option ℕ) (n : ℕ) → IsRoomy most → (k : ℕ) × (request most (suc n) ≡ suc k) × (k ≤ n)
request_pos none n h = (n, refl, omega arith)
request_pos (some most) n h = (min n (most - 1), omega arith, omega arith)

-- What one read has taken, and what is left.
SomeOf : ℕ → Stream → Text × Stream → Type 0
SomeOf n stream (block, stream') =
    (bytes_of stream ≡ block ++ bytes_of stream')
    × (length block ≤ n)
    × (length block ≡ 0 → length (bytes_of stream) ≡ 0)
    × IsOpen stream'

take-drop : (n : ℕ) (s : Text) → s ≡ take n s ++ drop n s
take-drop zero s = refl
take-drop (suc n) [] = refl
take-drop (suc n) (c ∷ s) = ap (λ t. c ∷ t) (take-drop n s)

length-take : (n : ℕ) (s : Text) → length (take n s) ≤ n
length-take zero s = omega arith
length-take (suc n) [] = omega arith
length-take (suc n) (c ∷ s) = omega (arith, length-take n s)

bytes_of-push : (s : Text) (stream : Stream) → bytes_of (push s stream) ≡ s ++ bytes_of stream
unfolding bytes_of
bytes_of-push [] stream = refl
bytes_of-push (c ∷ s) stream = refl

IsOpen-push : (s : Text) (stream : Stream) → IsOpen stream → IsOpen (push s stream)
IsOpen-push [] stream h = h
IsOpen-push (c ∷ s) stream h = (omega arith, h)

read_some-SomeOf :
    (n : ℕ) (stream : Stream) → IsOpen stream → SomeOf (suc n) stream (read_some (suc n) stream)
unfolding read_some SomeOf bytes_of
read_some-SomeOf n [] h = (refl, omega arith, λ e. refl, tt)
read_some-SomeOf n ([] ∷ stream) h = absurd (omega (arith, h.0))
read_some-SomeOf n ((b ∷ s) ∷ stream) h = (
  ap (λ t. b ∷ t ++ bytes_of stream) (take-drop n s)
      ∙ ap (λ t. b ∷ t)
          (append_assoc (take n s) (drop n s) (bytes_of stream)
            ∙ ap (λ t. take n s ++ t) (sym (bytes_of-push (drop n s) stream))),
  omega (arith, length-take n s),
  λ e. absurd (omega arith),
  IsOpen-push (drop n s) stream h.1,
)

read_request :
    (most : Option ℕ) (n : ℕ) (stream : Stream)
    → IsRoomy most
    → IsOpen stream
    → SomeOf (suc n) stream (read_some (request most (suc n)) stream)
unfolding SomeOf
read_request most n stream roomy opened =
    let (k, e, le) = request_pos most n roomy in
    let (parts, few, empty, opened') = read_some-SomeOf k stream opened in
    rw e (parts, omega (arith, few), empty, opened')

-- What the reads have taken, and what is left.
abbrev pub Took : ℕ → Stream → Text × Stream → Type 0
Took n stream (ret, stream') =
    (bytes_of stream ≡ ret ++ bytes_of stream')
    × (length ret ≡ min n (length (bytes_of stream)))
    × IsOpen stream'

loop_case :
    (n : ℕ) (stream stream' stream'' : Stream) (block rest : Text)
    → SomeOf (suc n) stream (block, stream')
    → (0 < length block → Took (suc n - length block) stream' (rest, stream''))
    → Took (suc n) stream (elim block [ [] ↦ ([], stream') | b ∷ s ↦ ((b ∷ s) ++ rest, stream'') ])
unfolding SomeOf
loop_case n stream stream' stream'' [] rest (e, le, empty, opened) took =
    (e, omega (arith, empty refl), opened)
loop_case n stream stream' stream'' (b ∷ s) rest (e, le, empty, opened) later =
    let (e', l, opened') = later (omega arith) in
    (
      e ∙ ap (λ t. b ∷ s ++ t) e' ∙ ap (λ t. b ∷ t) (sym (append_assoc s rest (bytes_of stream''))),
      omega (
        arith,
        ap length e,
        length-append (b ∷ s) (bytes_of stream'),
        length-append (b ∷ s) rest,
        l,
      ),
      opened',
    )

read_loop-Took :
    (most : Option ℕ)
    → IsRoomy most
    → (rounds n : ℕ) (stream : Stream) → n ≤ rounds
    → IsOpen stream
    → Took n stream (read_loop most rounds n stream)
unfolding read_loop SomeOf
read_loop-Took most roomy zero n stream h opened = (refl, omega arith, opened)
read_loop-Took most roomy (suc rounds) zero stream h opened = (refl, omega arith, opened)
read_loop-Took most roomy (suc rounds) (suc n) stream h opened =
    let r = read_some (request most (suc n)) stream in
    let (e, le, empty, opened') = read_request most n stream roomy opened in
    loop_case n stream r.1 (read_loop most rounds (suc n - length r.0) r.1).1 r.0
      (read_loop most rounds (suc n - length r.0) r.1).0 (e, le, empty, opened')
      (λ more.
        read_loop-Took most roomy rounds (suc n - length r.0) r.1 (omega (arith, more, h)) opened')

-- However the data arrives, reading takes its first n bytes, or all of it if there is less, and
-- leaves the rest.
pub read_max-Took :
    (most : Option ℕ) (n : ℕ) (stream : Stream)
    → IsRoomy most
    → IsOpen stream
    → Took n stream (read_max most n stream)
unfolding read_max
read_max-Took most n stream roomy opened = read_loop-Took most roomy n n stream (omega arith) opened
