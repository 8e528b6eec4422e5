-- ===== src/Peer/Bounds.antt =====
-- src/bittorrent/peer.rs: truncated and oversized input.
use rsurl.Base.{
  ℕ, suc, ◌+◌, ◌-◌, ◌%◌, ◌≤◌, ◌<◌, [], ◌∷◌, ◌++◌, length, length-append, length-drop, ok, err,
  unexpected_eof, >>=-eq-ok, ◌≡◌, sym, ap, ◌∙◌, arith,
}
use rsurl.Base.Bytes.{Bytes, be32_bytes}
use rsurl.Base.Stream.{read_exact, read_exact_short, read_exact-eq-ok}
use rsurl.Peer.{Message, max_msg_payload, be32_of, read_sized, read_message, write_message, IsWire}
use rsurl.Peer.RoundTrip.{
  body_of, body_of-le, write_message-prefixed, prefixed, read_message_length,
}

read_sized_short :
    (n : ℕ) (r : Bytes)
    → 0 < n
    → n ≤ max_msg_payload
    → length r < n
    → read_sized n r ≡ err unexpected_eof
unfolding read_sized
read_sized_short n r some_body fits short = ground (arith, read_exact_short n r short)

prefixed_truncated :
    (body front back : Bytes) (x : ℕ)
    → length body ≤ max_msg_payload
    → prefixed body ≡ front ++ (x ∷ back)
    → read_message front ≡ err unexpected_eof
unfolding read_message
prefixed_truncated body [] back x fits e = rw (read_exact_short 4 [] (omega arith))
prefixed_truncated body (a ∷ []) back x fits e = rw (read_exact_short 4 (a ∷ []) (omega arith))
prefixed_truncated body (a ∷ b ∷ []) back x fits e =
    rw (read_exact_short 4 (a ∷ b ∷ []) (omega arith))
prefixed_truncated body (a ∷ b ∷ c ∷ []) back x fits e =
    rw (read_exact_short 4 (a ∷ b ∷ c ∷ []) (omega arith))
prefixed_truncated body (a ∷ b ∷ c ∷ d ∷ f) back x fits e =
    let n = length body % 4294967296 in
    let split : be32_bytes n ≡ a ∷ b ∷ c ∷ d ∷ [] = cc e in
    let cut : body ≡ f ++ (x ∷ back) = cc e in
    let size : length body ≡ length f + suc (length back) =
      ap (λ (l : Bytes). length l) cut ∙ length-append f (x ∷ back) in
    let read : read_message (be32_bytes n ++ f) ≡ read_sized (length body) f =
      read_message_length (length body) f (omega arith) in
    let here : read_message (a ∷ b ∷ c ∷ d ∷ f) ≡ read_message (be32_bytes n ++ f) =
      ap (λ (l : Bytes). read_message (l ++ f)) (sym split) in
    here ∙ read ∙ read_sized_short (length body) f (omega arith) fits (omega arith)

-- On every proper prefix of the bytes of a message within the limit, the reader reports that the
-- stream ended: a cut message is never taken for another one.
pub read_message_truncated :
    (m : Message) (front back : Bytes) (x : ℕ)
    → IsWire m
    → write_message m ≡ front ++ (x ∷ back)
    → read_message front ≡ err unexpected_eof
read_message_truncated m front back x w e =
    prefixed_truncated (body_of m) front back x (body_of-le m w)
      (sym (write_message-prefixed m) ∙ e)

read_sized_bounds :
    (n : ℕ) (r rest : Bytes) (m : Message)
    → read_sized n r ≡ ok (m, rest)
    → (length r ≡ length rest + n) × (n ≤ max_msg_payload)
unfolding read_sized read_exact
read_sized_bounds n r rest m h = ground (arith, length-drop n r)

-- A message that is read takes its four bytes of length and at most 2^20 bytes more.
pub read_message_bounds :
    (r rest : Bytes) (m : Message)
    → read_message r ≡ ok (m, rest)
    → (length rest + 4 ≤ length r) × (length r ≤ length rest + 4 + max_msg_payload)
unfolding read_message
read_message_bounds r rest m h =
    let ((buf, r'), took, h1) = >>=-eq-ok (read_exact 4 r) _ h in
    let (n, len, h2) = >>=-eq-ok (be32_of buf) _ h1 in
    let (_, left, enough) = read_exact-eq-ok 4 r took in
    let (size, cap) = read_sized_bounds n r' rest m h2 in
    let after : length r' ≡ length r - 4 = ap (λ (l : Bytes). length l) left ∙ length-drop 4 r in
    (omega arith, omega arith)
