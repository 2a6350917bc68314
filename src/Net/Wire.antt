-- ===== src/Net/Wire.antt =====
-- The byte level of net/core.py: reading from streams, signatures, and the encrypted Port.
pub mod Bytes
pub mod Reading
pub mod Delivery
use ee_kernel.Base.{
  ℕ, zero, suc, ◌+◌, ◌-◌, ◌*◌, ◌/◌, ◌%◌, ◌^◌, min, Bool, Option, none, some, List, [], ◌∷◌, ◌++◌,
  length, take, drop, Text, lit, Result, ok, err, ◌>>=◌, ltb, ◌==◌, if◌then◌else◌, exception,
  index_error, value_error, eof_error, struct_error, crypto_error,
}

-- struct.pack of an unsigned number in so many bytes, the highest first
unfoldable pub pack_be : ℕ → ℕ → Text
pack_be zero n = []
pack_be (suc w) n = pack_be w (n / 256) ++ (n % 256) ∷ []

-- struct.unpack
unfoldable pub unpack_be : ℕ → Text → ℕ
unpack_be acc [] = acc
unpack_be acc (b ∷ s) = unpack_be (acc * 256 + b) s

-- struct.pack(">Q", n)
unfoldable pub pack_q : ℕ → Result Text
unfolding pack_be
pack_q n = if ltb n (256 ^ 8) then ok (pack_be 8 n) else err struct_error

-- What a file or a socket still has to give: each text is what one read finds there at most, and
-- an empty one is the end of the data.
abbrev pub Stream : Type 0
Stream = List Text

abbrev pub push : Text → Stream → Stream
push [] stream = stream
push (b ∷ s) stream = (b ∷ s) ∷ stream

-- inf.read(n) or sock.recv(n), for n > 0
unfoldable pub read_some : ℕ → Stream → Text × Stream
read_some n [] = ([], [])
read_some n (chunk ∷ stream) = (take n chunk, push (drop n chunk) stream)

-- min(n, 4096) for sockets, n for files
abbrev pub request : Option ℕ → ℕ → ℕ
request none n = n
request (some most) n = min n most

-- The loop of file_read_max and socket_read_max. Every round reads a byte at least, so `n` rounds
-- are enough.
unfoldable pub read_loop : Option ℕ → ℕ → ℕ → Stream → Text × Stream
unfolding read_some
read_loop most zero n stream = ([], stream)
read_loop most (suc rounds) zero stream = ([], stream)
read_loop most (suc rounds) (suc n) stream =
    let (block, stream') = read_some (request most (suc n)) stream in
    let (rest, stream'') = read_loop most rounds (suc n - length block) stream' in
    elim block [ [] ↦ ([], stream') | b ∷ s ↦ ((b ∷ s) ++ rest, stream'') ]

unfoldable pub read_max : Option ℕ → ℕ → Stream → Text × Stream
unfolding read_loop
read_max most n stream = read_loop most n n stream

abbrev exactly : ℕ → Text × Stream → Result (Text × Stream)
exactly n (ret, stream) = if length ret == n then ok (ret, stream) else err eof_error

-- file_read_fixed and socket_read_fixed
unfoldable pub read_fixed : Option ℕ → ℕ → Stream → Result (Text × Stream)
unfolding read_max
read_fixed most n stream = exactly n (read_max most n stream)

-- sign_with_magic, with the signature of a message by the signing key
unfoldable pub sign_with_magic : (Text → Text) → Text → Text → Text
sign_with_magic sign magic block = sign (magic ++ (lit ":" ++ block)) ++ block

-- verify_with_magic, with the test of a signature by the verify key
unfoldable pub verify_with_magic : (Text → Text → Bool) → Text → Text → Result Text
verify_with_magic verify magic signed =
    if ltb (length signed) 64
    then err value_error
    else if verify (magic ++ (lit ":" ++ drop 64 signed)) (take 64 signed)
    then ok (drop 64 signed)
    else err crypto_error

-- The nonces of a Port.
pub record Port : Type 0 where
  pub send_nonce : ℕ
  pub receive_nonce : ℕ

-- Port.__init__
unfoldable pub make_port : Bool → Port
make_port is_client = record {
  send_nonce = if is_client then 0 else 1;
  receive_nonce = if is_client then 1 else 0;
}

-- struct.pack(">16xQ", n)
unfoldable pub pack_nonce : ℕ → Result Text
unfolding pack_q
pack_nonce n = pack_q n >>= λ bytes. ok (pack_be 16 0 ++ bytes)

-- Port.send: the nonce is taken, and the length and the ciphertext are sent.
unfoldable pub send : (Text → Text → Text) → Text → Port → Result (Text × Port)
unfolding pack_nonce
send encrypt msg port = pack_nonce port.send_nonce >>= λ nonce.
    let block = encrypt msg nonce in
    pack_q (length block) >>= λ length_block.
    ok (length_block ++ block, record port { send_nonce = port.send_nonce + 2 })

-- The length behind a header; a length of 2 ^ 56 or more is refused.
unfoldable pub check_header : Text → Result ℕ
unfolding unpack_be
check_header [] = err index_error
check_header (zero ∷ header) = ok (unpack_be 0 (zero ∷ header))
check_header (suc b ∷ header) = err exception

-- Port.receive
unfoldable pub receive :
    (Text → Text → Result Text) → Option ℕ → Port → Stream → Result (Text × Port × Stream)
unfolding read_fixed check_header pack_nonce
receive decrypt most port stream = read_fixed most 8 stream >>= λ (header, stream').
    check_header header >>= λ length. read_fixed most length stream' >>= λ (block, stream'').
    pack_nonce port.receive_nonce >>= λ nonce. decrypt block nonce >>= λ msg.
    ok (msg, record port { receive_nonce = port.receive_nonce + 2 }, stream'')
