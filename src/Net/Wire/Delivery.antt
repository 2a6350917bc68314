-- ===== src/Net/Wire/Delivery.antt =====
-- Messages through two Ports of net/core.py, from one end of a stream to the other.
use ee_kernel.Base.{
  ℕ, zero, suc, ◌+◌, ◌^◌, ◌<◌, ◌≡◌, refl, sym, ap, ◌∙◌, inl, inr, arith, Bool-cases, Option, List,
  [], ◌∷◌, ◌++◌, append_assoc, length, length-append, All, Text, Result, ok, ◌>>=◌, >>=-eq-ok, ltb,
  ==_iff,
}
use ee_kernel.Net.Wire.{
  Stream, pack_be, unpack_be, pack_q, read_max, read_fixed, Port, pack_nonce, check_header, send,
  receive,
}
use ee_kernel.Net.Wire.Bytes.{length-pack_be, unpack_be-pack_be, pack_be-small}
use ee_kernel.Net.Wire.Reading.{bytes_of, IsOpen, IsRoomy, read_max-Took}

same_split :
    (xs ys zs ws : Text) → length xs ≡ length ys → xs ++ zs ≡ ys ++ ws → (xs ≡ ys) × (zs ≡ ws)
same_split [] [] zs ws h e = (refl, e)
same_split [] (y ∷ ys) zs ws h e = absurd (omega arith)
same_split (x ∷ xs) [] zs ws h e = absurd (omega arith)
same_split (x ∷ xs) (y ∷ ys) zs ws h e =
    let (same, rest) = same_split xs ys zs ws (omega arith) (cc e) in (cc (e, same), rest)

-- Reading as many bytes as a text has that the stream begins with.
read_fixed_back :
    (most : Option ℕ) (stream : Stream) (s rest : Text)
    → IsRoomy most
    → IsOpen stream
    → bytes_of stream ≡ s ++ rest
    → (stream' : Stream) × (read_fixed most (length s) stream ≡ ok (s, stream'))
      × (bytes_of stream' ≡ rest)
      × IsOpen stream'
unfolding read_fixed
read_fixed_back most stream s rest roomy opened e =
    let r = read_max most (length s) stream in
    let (parts, l, opened') = read_max-Took most (length s) stream roomy opened in
    let full : length r.0 ≡ length s = omega (arith, l, ap length e, length-append s rest) in
    let (same, left) = same_split r.0 s (bytes_of r.1) rest full (sym parts ∙ e) in
    (r.1, rw ((==_iff (length r.0) (length s)).1 full) (ap (λ t. ok (t, r.1)) same), left, opened')

check_header-pack_be : (n : ℕ) → n < 256 ^ 7 → check_header (pack_be 8 n) ≡ ok n
unfolding check_header
check_header-pack_be n h = rw (pack_be-small 7 n h) (
    ap ok (ap (unpack_be 0) (sym (pack_be-small 7 n h)) ∙ unpack_be-pack_be 8 n (omega (arith, h))))

pack_q-inv : (n : ℕ) (s : Text) → pack_q n ≡ ok s → s ≡ pack_be 8 n
unfolding pack_q
pack_q-inv n s h = elim (Bool-cases (ltb n (256 ^ 8))) [
  | inl small ↦ cc (rw small at h)
  | inr large ↦ cc (rw large at h)
]

-- Port.send for one message after the other.
unfoldable pub send_all : (Text → Text → Text) → List Text → Port → Result (Text × Port)
send_all encrypt [] port = ok ([], port)
send_all encrypt (msg ∷ msgs) port = send encrypt msg port >>= λ (bytes, port').
    send_all encrypt msgs port' >>= λ (more, port''). ok (bytes ++ more, port'')

-- Port.receive so many times.
unfoldable pub receive_all :
    (Text → Text → Result Text) → Option ℕ → ℕ → Port → Stream → Result (List Text × Port × Stream)
receive_all decrypt most zero port stream = ok ([], port, stream)
receive_all decrypt most (suc n) port stream =
    receive decrypt most port stream >>= λ (msg, port', stream').
    receive_all decrypt most n port' stream' >>= λ (msgs, port'', stream'').
    ok (msg ∷ msgs, port'', stream'')

module _ (encrypt : Text → Text → Text) (decrypt : Text → Text → Result Text)
    (decrypts : (msg nonce : Text) → decrypt (encrypt msg nonce) nonce ≡ ok msg) (most : Option ℕ)
    (roomy : IsRoomy most) where
  -- What a message that was sent looks like on the wire.
  send-parts :
      (msg bytes : Text) (port port' : Port)
      → send encrypt msg port ≡ ok (bytes, port')
      → (nonce : Text) × (pack_nonce port.send_nonce ≡ ok nonce)
        × (bytes ≡ pack_be 8 (length (encrypt msg nonce)) ++ encrypt msg nonce)
        × (port' ≡ record port { send_nonce = port.send_nonce + 2 })
  unfolding send
  send-parts msg bytes port port' e =
      let (nonce, packed, rest) = >>=-eq-ok (pack_nonce port.send_nonce) _ e in
      let (header, packed', last) = >>=-eq-ok (pack_q (length (encrypt msg nonce))) _ rest in
      let same : header ++ encrypt msg nonce ≡ bytes = cc last in
      (
        nonce,
        packed,
        sym same
            ∙ ap (λ h. h ++ encrypt msg nonce)
                (pack_q-inv (length (encrypt msg nonce)) header packed'),
        cc last,
      )

  -- The ends of a connection agree on the nonce of the next message.
  abbrev Agree : Port → Port → Type 0
  Agree c s = c.send_nonce ≡ s.receive_nonce

  -- Not too long for its header.
  abbrev pub IsSendable : Text → Type 0
  IsSendable msg = (nonce : Text) → length (encrypt msg nonce) < 256 ^ 7

  receive_sent :
      (msg bytes rest : Text) (c c' s : Port) (stream : Stream)
      → send encrypt msg c ≡ ok (bytes, c')
      → Agree c s
      → IsSendable msg
      → IsOpen stream
      → bytes_of stream ≡ bytes ++ rest
      → (stream' : Stream) × (receive decrypt most s stream
          ≡ ok (msg, record s { receive_nonce = s.receive_nonce + 2 }, stream'))
        × (bytes_of stream' ≡ rest)
        × IsOpen stream'
        × (c'.send_nonce ≡ s.receive_nonce + 2)
  unfolding receive
  receive_sent msg bytes rest c c' s stream sent agree sendable opened e =
      let (nonce, packed, parts, after) = send-parts msg bytes c c' sent in
      let block = encrypt msg nonce in
      let header = pack_be 8 (length block) in
      let (stream1, e1, left1, opened1) =
        read_fixed_back most stream header (block ++ rest) roomy opened
          (e ∙ ap (λ t. t ++ rest) parts ∙ append_assoc header block rest) in
      let (stream2, e2, left2, opened2) =
        read_fixed_back most stream1 block rest roomy opened1 left1 in
      let e1' = rw (length-pack_be 8 (length block)) at e1 in
      (
        stream2,
        simp (
          e1',
          check_header-pack_be (length block) (sendable nonce),
          e2,
          ← agree,
          packed,
          decrypts msg nonce,
        ),
        left2,
        opened2,
        ap (λ (p : Port). p.send_nonce) after ∙ ap (λ (k : ℕ). k + 2) agree,
      )

  -- If decryption undoes encryption under the same nonce, the receiver's next nonce is the sender's,
  -- and the messages fit their headers, then whatever is sent one message after the other is
  -- received, in order, however the stream cuts it up, and what follows stays in the stream.
  pub receive_all-send_all :
      (msgs : List Text) (bytes rest : Text) (c c' s : Port) (stream : Stream)
      → send_all encrypt msgs c ≡ ok (bytes, c')
      → c.send_nonce ≡ s.receive_nonce
      → All IsSendable msgs
      → IsOpen stream
      → bytes_of stream ≡ bytes ++ rest
      → (s' : Port) × (stream' : Stream) × (receive_all decrypt most (length msgs) s stream
          ≡ ok (msgs, s', stream'))
        × (bytes_of stream' ≡ rest)
        × (c'.send_nonce ≡ s'.receive_nonce)
  unfolding send_all receive_all
  receive_all-send_all [] bytes rest c c' s stream sent agree sendable opened e =
      let nothing : [] ≡ bytes = cc sent in
      let same : c ≡ c' = cc sent in
      (
        s,
        stream,
        refl,
        e ∙ ap (λ t. t ++ rest) (sym nothing),
        ap (λ (p : Port). p.send_nonce) (sym same) ∙ agree,
      )
  receive_all-send_all (msg ∷ msgs) bytes rest c c' s stream sent agree sendable opened e =
      let ((first, c1), sent1, others) = >>=-eq-ok (send encrypt msg c) _ sent in
      let ((more, c2), sent2, last) = >>=-eq-ok (send_all encrypt msgs c1) _ others in
      let whole : first ++ more ≡ bytes = cc last in
      let same : c2 ≡ c' = cc last in
      let (stream1, got1, left1, opened1, agree1) =
        receive_sent msg first (more ++ rest) c c1 s stream sent1 agree sendable.0 opened
          (e ∙ ap (λ t. t ++ rest) (sym whole) ∙ append_assoc first more rest) in
      let s1 = record s { receive_nonce = s.receive_nonce + 2 } in
      let (s2, stream2, got2, left2, agree2) =
        receive_all-send_all msgs more rest c1 c2 s1 stream1 sent2 agree1 sendable.1 opened1
          left1 in
      (s2, stream2, simp (got1, got2), left2, ap (λ (p : Port). p.send_nonce) (sym same) ∙ agree2)
