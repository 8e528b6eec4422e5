-- ===== src/Mqtt/Wire/Progress.antt =====
-- src/mqtt.rs: each packet that is read takes at least one read of the stream.
use rsurl.Base.{
  ℕ, zero, suc, ◌+◌, ◌*◌, ◌/◌, ◌%◌, ◌≤◌, ◌<◌, ◌≡◌, arith, Bool, true, false, io, Bool-cases, inl,
  inr, Option, some, List, [], ◌∷◌, length, ltb, Error, is_exhausted, refl, if◌then◌else◌, Result,
  ok, err, ◌>>=◌,
}
use rsurl.Base.Bytes.{Bytes}
use rsurl.Mqtt.Packet.{max_packet_bytes}
use rsurl.Mqtt.Wire.{
  Read, byte, refused, Step, got, ended, lost, next_byte, Reads, on_step, read_bytes, read_length,
  read_remaining_length, read_body, read_packet, read_packet_or_idle, is_timeout, on_first_byte,
  is_interrupted,
}

-- The reads that are left, and the one taken; no more than there were.
left : Step → ℕ
left (got b p rest) = suc (length rest)
left ended = 0
left (lost e) = 0

next_byte-left : (patience : ℕ) (reads : List Read) → left (next_byte patience reads) ≤ length reads
unfolding next_byte left
next_byte-left patience [] = omega arith
next_byte-left patience (byte b ∷ reads) = omega arith
next_byte-left zero (refused e deadline ∷ reads) = ground (arith, next_byte-left zero reads)
next_byte-left (suc patience) (refused e deadline ∷ reads) =
    ground (arith, next_byte-left patience reads, next_byte-left (suc patience) reads)

-- A result leaves at most `n`, by the given count, or is an error of the code.
Leaves : {A : Type 0} → (A → ℕ) → ℕ → Result A → Type 0
Leaves count n (ok a) = count a ≤ n
Leaves count n (err e) = is_exhausted e ≡ false

abbrev reads_of : {A : Type 0} → A × ℕ × List Read → ℕ
reads_of v = length v.2

Leaves-widen :
    {A : Type 0} (count : A → ℕ) (m n : ℕ) (r : Result A)
    → m ≤ n
    → Leaves count m r
    → Leaves count n r
unfolding Leaves
Leaves-widen count m n (err e) less h = h
Leaves-widen count m n (ok a) less h = omega (arith, h)

Leaves->>= :
    {A B : Type 0} (f : A → ℕ) (g : B → ℕ) (n : ℕ) (r : Result A) (k : A → Result B)
    → Leaves f n r
    → ((a : A) → Leaves g (f a) (k a))
    → Leaves g n (r >>= k)
unfolding Leaves
Leaves->>= f g n (err e) k h step = h
Leaves->>= f g n (ok a) k h step = Leaves-widen g (f a) n (k a) h (step a)

Leaves-on_step :
    {A : Type 0} (at_end : Error) (s : Step) (k : ℕ → ℕ → List Read → Reads A) (n : ℕ)
    → is_exhausted at_end ≡ false
    → left s ≤ n
    → ((b p : ℕ) (rest : List Read) → Leaves reads_of (length rest) (k b p rest))
    → Leaves reads_of n (on_step at_end s k)
unfolding Leaves left
Leaves-on_step at_end ended k n own h step = own
Leaves-on_step at_end (lost e) k n own h step = refl
Leaves-on_step at_end (got b p rest) k n own h step =
    Leaves-widen reads_of (length rest) n (k b p rest) (omega (arith, h)) (step b p rest)

read_bytes-Leaves :
    (n patience : ℕ) (reads : List Read)
    → Leaves reads_of (length reads) (read_bytes n patience reads)
unfolding read_bytes Leaves
read_bytes-Leaves zero patience reads = omega arith
read_bytes-Leaves (suc n) patience reads =
    Leaves-on_step _ (next_byte patience reads) _ (length reads) refl
      (next_byte-left patience reads)
      (λ b p rs.
        Leaves->>= reads_of reads_of (length rs) (read_bytes n p rs) (λ r. ok (b ∷ r.0, r.1, r.2))
          (read_bytes-Leaves n p rs) (λ r. omega arith))

read_length-Leaves :
    (rounds value multiplier patience : ℕ) (reads : List Read)
    → Leaves reads_of (length reads) (read_length rounds value multiplier patience reads)
unfolding read_length Leaves
read_length-Leaves zero value multiplier patience reads = refl
read_length-Leaves (suc rounds) value multiplier patience reads =
    Leaves-on_step _ (next_byte patience reads) _ (length reads) refl
      (next_byte-left patience reads)
      (λ b p rs. elim (Bool-cases (ltb b 128)) [
        | inl e ↦ rw e (omega arith)
        | inr e ↦
            rw e (read_length-Leaves rounds (value + b % 128 * multiplier) (multiplier * 128) p rs)
      ])

abbrev rest_of : {A : Type 0} → A × List Read → ℕ
rest_of p = length p.1

read_body-Leaves :
    (first patience : ℕ) (reads : List Read)
    → Leaves rest_of (length reads) (read_body first patience reads)
unfolding read_body read_remaining_length Leaves
read_body-Leaves first patience reads =
    Leaves->>= reads_of rest_of (length reads) (read_length 4 0 1 patience reads) _
      (read_length-Leaves 4 0 1 patience reads)
      (λ len. elim (Bool-cases (ltb max_packet_bytes len.0)) [
        | inl e ↦ rw e refl
        | inr e ↦ rw e (
            Leaves->>= reads_of rest_of (length len.2) (read_bytes len.0 len.1 len.2)
              (λ body. ok ((first / 16, body.0), body.2)) (read_bytes-Leaves len.0 len.1 len.2)
              (λ body. omega arith))
      ])

-- The count with the read that was taken.
abbrev with_one : {A : Type 0} → A × List Read → ℕ
with_one p = suc (length p.1)

Leaves-with_one :
    {A : Type 0} (n : ℕ) (r : Result (A × List Read))
    → Leaves rest_of n r
    → Leaves with_one (suc n) r
unfolding Leaves
Leaves-with_one n (err e) h = h
Leaves-with_one n (ok p) h = omega (arith, h)

on_first_byte-Leaves : (s : Step) (n : ℕ) → left s ≤ n → Leaves with_one n (on_first_byte s)
unfolding on_first_byte left Leaves
on_first_byte-Leaves ended n h = refl
on_first_byte-Leaves (lost e) n h = refl
on_first_byte-Leaves (got b p rest) n h =
    Leaves-widen with_one (suc (length rest)) n (read_body b 0 rest) (omega (arith, h))
      (Leaves-with_one (length rest) (read_body b 0 rest) (read_body-Leaves b 0 rest))

read_packet_or_idle-Leaves :
    (reads : List Read) → Leaves with_one (length reads) (read_packet_or_idle reads)
unfolding read_packet_or_idle Leaves
read_packet_or_idle-Leaves [] = refl
read_packet_or_idle-Leaves (byte first ∷ reads) = Leaves-with_one (length reads) _ (
    Leaves->>= rest_of rest_of (length reads) (read_body first 2 reads) (λ p. ok (some p.0, p.1))
      (read_body-Leaves first 2 reads) (λ p. omega arith))
read_packet_or_idle-Leaves (refused e deadline ∷ reads) =
    elim (Bool-cases (is_timeout e deadline)) [
      | inl idle ↦ rw idle (omega arith)
      | inr other ↦ rw other (again (is_interrupted e) (read_packet_or_idle-Leaves reads))
    ]
  where
    again :
        (b : Bool)
        → Leaves with_one (length reads) (read_packet_or_idle reads)
        → Leaves with_one (suc (length reads)) (if b then read_packet_or_idle reads else err (io e))
    again true h =
        Leaves-widen with_one (length reads) (suc (length reads)) (read_packet_or_idle reads)
          (omega arith) h
    again false h = refl

Leaves-lt :
    {A : Type 0} (n : ℕ) (r : Result (A × List Read)) {a : A} {rest : List Read}
    → Leaves with_one n r
    → r ≡ ok (a, rest)
    → length rest < n
unfolding Leaves
Leaves-lt n r {a} {rest} h same =
    let last : Leaves with_one n (ok (a, rest)) = rw same at h in omega (arith, last)

-- A packet, or an idle period, takes at least one read.
pub read_packet_progress :
    (reads : List Read) {p : ℕ × Bytes} {rest : List Read}
    → read_packet reads ≡ ok (p, rest)
    → length rest < length reads
unfolding read_packet
read_packet_progress reads same =
    Leaves-lt (length reads) (read_packet reads)
      (on_first_byte-Leaves (next_byte 0 reads) (length reads) (next_byte-left 0 reads)) same

pub read_packet_or_idle_progress :
    (reads : List Read) {p : Option (ℕ × Bytes)} {rest : List Read}
    → read_packet_or_idle reads ≡ ok (p, rest)
    → length rest < length reads
read_packet_or_idle_progress reads same =
    Leaves-lt (length reads) (read_packet_or_idle reads) (read_packet_or_idle-Leaves reads) same

Leaves-own :
    {A : Type 0} (n : ℕ) (r : Result (A × List Read)) {e : Error}
    → Leaves with_one n r
    → r ≡ err e
    → is_exhausted e ≡ false
unfolding Leaves
Leaves-own n r {e} h same = rw same at h

-- An error of a read is one of the code.
pub read_packet_error :
    (reads : List Read) {e : Error} → read_packet reads ≡ err e → is_exhausted e ≡ false
unfolding read_packet
read_packet_error reads same =
    Leaves-own (length reads) (read_packet reads)
      (on_first_byte-Leaves (next_byte 0 reads) (length reads) (next_byte-left 0 reads)) same

pub read_packet_or_idle_error :
    (reads : List Read) {e : Error} → read_packet_or_idle reads ≡ err e → is_exhausted e ≡ false
read_packet_or_idle_error reads same =
    Leaves-own (length reads) (read_packet_or_idle reads) (read_packet_or_idle-Leaves reads) same
