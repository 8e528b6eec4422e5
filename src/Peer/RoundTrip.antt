-- ===== src/Peer/RoundTrip.antt =====
-- src/bittorrent/peer.rs: what `write_message` writes is read back by `read_message`.
use rsurl.Base.{
  ℕ, suc, ◌+◌, ◌%◌, ◌≤◌, ◌<◌, [], ◌∷◌, ◌++◌, append_assoc, length, ok, ◌≡◌, ◌≢◌, ◌⊎◌, inl, inr,
  refl, ap, ◌∙◌, arith,
}
use rsurl.Base.Bytes.{Bytes, be32_bytes, be16_bytes, be16_of_bytes, be32_of_bytes, IsU32}
use rsurl.Base.Stream.{read_exact-append}
use rsurl.Peer.{
  Message, keep_alive, choke, unchoke, interested, not_interested, have, bitfield, request, piece,
  cancel, port, extended, max_msg_payload, be32_of, split_body, read_sized, read_message,
  write_message, IsWire,
}

-- What stands behind the length prefix.
abbrev pub body_of : Message → Bytes
body_of keep_alive = []
body_of choke = 0 ∷ []
body_of unchoke = 1 ∷ []
body_of interested = 2 ∷ []
body_of not_interested = 3 ∷ []
body_of (have i) = 4 ∷ be32_bytes i
body_of (bitfield b) = 5 ∷ b
body_of (request index begin len) = 6 ∷ (be32_bytes index ++ (be32_bytes begin ++ be32_bytes len))
body_of (piece index begin block) = 7 ∷ (be32_bytes index ++ (be32_bytes begin ++ block))
body_of (cancel index begin len) = 8 ∷ (be32_bytes index ++ (be32_bytes begin ++ be32_bytes len))
body_of (port p) = 9 ∷ be16_bytes p
body_of (extended e payload) = 20 ∷ e ∷ payload

abbrev pub prefixed : Bytes → Bytes
prefixed body = be32_bytes (length body % 4294967296) ++ body

one_add : (n : ℕ) → 1 + n ≡ suc n
one_add n = omega arith

two_add : (n : ℕ) → 1 + (1 + n) ≡ suc (suc n)
two_add n = omega arith

nine_add : (n : ℕ) → 1 + (8 + n) ≡ suc (suc (suc (suc (suc (suc (suc (suc (suc n))))))))
nine_add n = omega arith

pub write_message-prefixed : (m : Message) → write_message m ≡ prefixed (body_of m)
unfolding write_message
write_message-prefixed keep_alive = refl
write_message-prefixed choke = refl
write_message-prefixed unchoke = refl
write_message-prefixed interested = refl
write_message-prefixed not_interested = refl
write_message-prefixed (have i) = refl
write_message-prefixed (bitfield b) =
    ap (λ n. be32_bytes (n % 4294967296) ++ (5 ∷ b)) (one_add (length b))
write_message-prefixed (request index begin len) = refl
write_message-prefixed (piece index begin block) =
    ap (λ n. be32_bytes (n % 4294967296) ++ (7 ∷ (be32_bytes index ++ (be32_bytes begin ++ block))))
      (nine_add (length block))
write_message-prefixed (cancel index begin len) = refl
write_message-prefixed (port p) = refl
write_message-prefixed (extended e payload) =
    ap (λ n. be32_bytes (n % 4294967296) ++ (20 ∷ e ∷ payload)) (two_add (length payload))

-- The length prefix is read back.
pub read_message_length :
    (n : ℕ) (rest : Bytes)
    → IsU32 n
    → read_message (be32_bytes (n % 4294967296) ++ rest) ≡ read_sized n rest
unfolding read_message be32_of
read_message_length n rest h =
    let same : n % 4294967296 ≡ n = omega arith in
    rw (read_exact-append (be32_bytes (n % 4294967296)) rest)
      (ap (λ k. read_sized k rest) (be32_of_bytes (n % 4294967296) (omega arith) ∙ same))

-- A body within the limit is read back whole, and what follows it is left.
read_sized-append :
    (m : Message) (body rest : Bytes)
    → 0 < length body
    → length body ≤ max_msg_payload
    → split_body body ≡ ok m
    → read_sized (length body) (body ++ rest) ≡ ok (m, rest)
unfolding read_sized
read_sized-append m body rest some_body fits parsed = ground (arith, read_exact-append body rest)

-- The body of a message is parsed back to it.
split_body-body_of : (m : Message) → m ≢ keep_alive → IsWire m → split_body (body_of m) ≡ ok m
unfolding split_body
split_body-body_of keep_alive ne w = absurd (ne refl)
split_body-body_of (have i) ne w = ap (λ k. ok (have k)) (be32_of_bytes i w)
split_body-body_of (request index begin len) ne (a, b, c) =
    rw (be32_of_bytes index a, be32_of_bytes begin b, be32_of_bytes len c)
split_body-body_of (piece index begin block) ne (a, b, c) =
    rw (be32_of_bytes index a, be32_of_bytes begin b)
split_body-body_of (cancel index begin len) ne (a, b, c) =
    rw (be32_of_bytes index a, be32_of_bytes begin b, be32_of_bytes len c)
split_body-body_of (port p) ne w = ap (λ k. ok (port k)) (be16_of_bytes p w)
split_body-body_of _ ne w = refl

pub body_of-size :
    (m : Message)
    → m ≢ keep_alive
    → IsWire m
    → (0 < length (body_of m)) × (length (body_of m) ≤ max_msg_payload)
body_of-size keep_alive ne w = absurd (ne refl)
body_of-size _ ne w = omega arith

pub body_of-le : (m : Message) → IsWire m → length (body_of m) ≤ max_msg_payload
body_of-le keep_alive w = omega arith
body_of-le _ w = omega arith

pub keep_alive_or_not : (m : Message) → (m ≡ keep_alive) ⊎ (m ≢ keep_alive)
keep_alive_or_not keep_alive = inl refl
keep_alive_or_not _ = inr (λ e. cc)

-- Every message whose fields fit the wire, and that is within the limit, is read back from the bytes
-- that were written for it, and the bytes behind it are left in the stream.
pub read_message-write_message :
    (m : Message) (rest : Bytes) → IsWire m → read_message (write_message m ++ rest) ≡ ok (m, rest)
read_message-write_message m rest w = elim (keep_alive_or_not m) [
  | inl e ↦ rw e (unfold write_message read_sized in read_message_length 0 rest (omega arith))
  | inr ne ↦
      let (some_body, fits) = body_of-size m ne w in
      let body = body_of m in
      rw (write_message-prefixed m, append_assoc (be32_bytes (length body % 4294967296)) body rest)
        (read_message_length (length body) (body ++ rest) (omega arith)
          ∙ read_sized-append m body rest some_body fits (split_body-body_of m ne w))
]
