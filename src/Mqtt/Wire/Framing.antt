-- ===== src/Mqtt/Wire/Framing.antt =====
-- src/mqtt.rs: the reader over the bytes of a packet.
use rsurl.Base.{ℕ, ◌/◌, ◌≤◌, ◌≡◌, refl, ap, arith, some, List, [], ◌∷◌, ◌++◌, length, le→ltb, ok}
use rsurl.Base.Bytes.{Bytes}
use rsurl.Mqtt.Packet.{length_bytes, max_packet_bytes}
use rsurl.Mqtt.Wire.{
  Read, byte, next_byte, on_first_byte, read_bytes, read_body, read_packet, read_packet_or_idle,
}
use rsurl.Mqtt.Wire.Length.{arriving, read_remaining_length-length_bytes}

-- A packet on the wire: its first byte, the length of its body, and the body.
abbrev pub framed : ℕ → Bytes → Bytes
framed first body = first ∷ (length_bytes 4 (length body) ++ body)

arriving-append :
    (xs ys : Bytes) (rest : List Read)
    → arriving (xs ++ ys) ++ rest ≡ arriving xs ++ (arriving ys ++ rest)
arriving-append [] ys rest = refl
arriving-append (x ∷ xs) ys rest = ap (λ l. byte x ∷ l) (arriving-append xs ys rest)

read_bytes-arriving :
    (body : Bytes) (patience : ℕ) (rest : List Read)
    → read_bytes (length body) patience (arriving body ++ rest) ≡ ok (body, patience, rest)
unfolding read_bytes next_byte
read_bytes-arriving [] patience rest = refl
read_bytes-arriving (b ∷ bs) patience rest = rw (read_bytes-arriving bs patience rest) refl

module _ (first : ℕ) (body : Bytes) (rest : List Read) (fits : length body ≤ max_packet_bytes) where
  read_body-framed :
      (patience : ℕ)
      → read_body first patience (arriving (length_bytes 4 (length body) ++ body) ++ rest)
        ≡ ok ((first / 16, body), rest)
  unfolding read_body
  read_body-framed patience =
      rw
        (
          arriving-append (length_bytes 4 (length body)) body rest,
          read_remaining_length-length_bytes patience (arriving body ++ rest) (length body)
              (omega arith),
          le→ltb max_packet_bytes (length body) fits,
          read_bytes-arriving body patience rest,
        )
        refl

  -- A packet within the limit is read from its bytes, and what follows it is left.
  pub read_packet-framed :
      read_packet (arriving (framed first body) ++ rest) ≡ ok ((first / 16, body), rest)
  unfolding read_packet on_first_byte next_byte
  read_packet-framed = read_body-framed 0

  pub read_packet_or_idle-framed :
      read_packet_or_idle (arriving (framed first body) ++ rest)
      ≡ ok (some (first / 16, body), rest)
  unfolding read_packet_or_idle
  read_packet_or_idle-framed = rw (read_body-framed 2) refl
