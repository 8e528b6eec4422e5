-- ===== src/Mqtt/Wire.antt =====
-- src/mqtt.rs: reading a packet. A read of the stream is an input: one byte or an error; where the
-- inputs end, the stream ends. That a read may return more bytes at once makes no difference here.
pub mod Length
pub mod Framing
pub mod Progress
use rsurl.Base.{
  ℕ, zero, suc, ◌+◌, ◌*◌, ◌/◌, ◌%◌, Bool, true, false, not, ◌&&◌, ◌||◌, Option, none, some, List,
  [], ◌∷◌, ltb, if◌then◌else◌, IoKind, would_block, timed_out, interrupted, invalid_data,
  unexpected_end, Result, ok, err, bad, ◌>>=◌, Error, io, unexpected_eof,
}
use rsurl.Base.Bytes.{Bytes}
use rsurl.Mqtt.Packet.{max_packet_bytes}

-- The kind of an error, and whether it is that the deadline of the transfer is exceeded.
pub data Read : Type 0 where
  byte : ℕ → Read
  refused : IoKind → Bool → Read

unfoldable pub is_timeout : IoKind → Bool → Bool
is_timeout would_block deadline = not deadline
is_timeout timed_out deadline = not deadline
is_timeout _ deadline = false

abbrev pub is_interrupted : IoKind → Bool
is_interrupted interrupted = true
is_interrupted _ = false

-- The next byte, as `read_exact` asks for it: with the timeouts that are still retried, and the
-- reads that are left.
pub data Step : Type 0 where
  got : ℕ → ℕ → List Read → Step
  ended : Step
  lost : IoKind → Step

-- `patience` is 0 for the stream itself, and 2 for a new `PatientReader`.
unfoldable pub next_byte : ℕ → List Read → Step
unfolding is_timeout
next_byte patience [] = ended
next_byte patience (byte b ∷ reads) = got b patience reads
next_byte zero (refused e deadline ∷ reads) =
    let again = next_byte zero reads in if is_interrupted e then again else lost e
next_byte (suc patience) (refused e deadline ∷ reads) =
    let retried = next_byte patience reads in
    let again = next_byte (suc patience) reads in
    if is_timeout e deadline then retried else if is_interrupted e then again else lost e

-- What is read, the timeouts still retried, and the reads that are left.
abbrev pub Reads : Type 0 → Type 0
Reads A = Result (A × ℕ × List Read)

-- The end of the stream is this error: it differs between the length and the rest.
abbrev pub on_step : {A : Type 0} → Error → Step → (ℕ → ℕ → List Read → Reads A) → Reads A
on_step at_end (got b patience reads) k = k b patience reads
on_step at_end ended k = err at_end
on_step at_end (lost e) k = err (io e)

-- `read_exact_or_eof`, and the body of a patient packet.
unfoldable pub read_bytes : ℕ → ℕ → List Read → Reads Bytes
unfolding next_byte
read_bytes zero patience reads = ok ([], patience, reads)
read_bytes (suc n) patience reads =
    on_step unexpected_eof (next_byte patience reads)
      (λ b p rs. read_bytes n p rs >>= λ r. ok (b ∷ r.0, r.1, r.2))

-- The loop of `read_remaining_length`, with the rounds that are left.
unfoldable pub read_length : ℕ → ℕ → ℕ → ℕ → List Read → Reads ℕ
unfolding next_byte
read_length zero value multiplier patience reads = err (io invalid_data)
read_length (suc rounds) value multiplier patience reads =
    on_step (io unexpected_end) (next_byte patience reads) (λ b p rs.
      if ltb b 128
      then ok (value + b % 128 * multiplier, p, rs)
      else read_length rounds (value + b % 128 * multiplier) (multiplier * 128) p rs)

unfoldable pub read_remaining_length : ℕ → List Read → Reads ℕ
unfolding read_length
read_remaining_length patience reads = read_length 4 0 1 patience reads

-- The length and the body, behind the first byte.
unfoldable pub read_body : ℕ → ℕ → List Read → Result ((ℕ × Bytes) × List Read)
unfolding read_remaining_length read_bytes
read_body first patience reads = read_remaining_length patience reads >>= λ len.
    if ltb max_packet_bytes len.0
    then bad "mqtt: packet too large"
    else (read_bytes len.0 len.1 len.2 >>= λ body. ok ((first / 16, body.0), body.2))

unfoldable pub on_first_byte : Step → Result ((ℕ × Bytes) × List Read)
unfolding read_body
on_first_byte (got b p reads) = read_body b 0 reads
on_first_byte ended = err unexpected_eof
on_first_byte (lost e) = err (io e)

unfoldable pub read_packet : List Read → Result ((ℕ × Bytes) × List Read)
unfolding on_first_byte next_byte
read_packet reads = on_first_byte (next_byte 0 reads)

-- A timeout before the first byte is no packet.
unfoldable pub read_packet_or_idle : List Read → Result (Option (ℕ × Bytes) × List Read)
unfolding read_body is_timeout
read_packet_or_idle [] = err unexpected_eof
read_packet_or_idle (byte first ∷ reads) = read_body first 2 reads >>= λ p. ok (some p.0, p.1)
read_packet_or_idle (refused e deadline ∷ reads) =
    let again = read_packet_or_idle reads in
    if is_timeout e deadline
    then ok (none, reads)
    else if is_interrupted e
    then again
    else err (io e)
