-- ===== src/Mqtt/Wire/Length.antt =====
-- src/mqtt.rs: `read_remaining_length` reads what `write_remaining_length` wrote.
use mathlib.Core.List.{map}
use rsurl.Base.{
  ℕ, suc, ◌+◌, ◌*◌, ◌/◌, ◌%◌, ◌≤◌, ◌<◌, ◌≡◌, refl, arith, List, ◌++◌, ltb, lt→ltb, le→ltb,
  Bool-cases, inl, inr, ◌⊎◌, ◌∙◌, ap, ltb→lt, ltb→le, ok,
}
use rsurl.Base.Bytes.{Bytes}
use rsurl.Mqtt.Packet.{length_bytes, max_remaining}
use rsurl.Mqtt.Wire.{Read, byte, next_byte, read_length, read_remaining_length}

-- Bytes that arrive without an error between them.
abbrev pub arriving : Bytes → List Read
arriving = map (λ b. byte b)

module _ (rounds value multiplier patience x : ℕ) (rest : List Read) where
  -- One byte more, if the value does not fit in this one.
  more_byte :
      (0 < x / 128)
      → read_length
          (suc rounds)
          value
          multiplier
          patience
          (arriving (length_bytes (suc rounds) x) ++ rest)
        ≡ read_length rounds
            (value + x % 128 * multiplier)
            (multiplier * 128)
            patience
            (arriving (length_bytes rounds (x / 128)) ++ rest)
  unfolding read_length length_bytes next_byte
  more_byte large =
      let digit : (x % 128 + 128) % 128 ≡ x % 128 = omega arith in
      rw (lt→ltb _ _ large, le→ltb (x % 128 + 128) 128 (omega arith), digit) refl

  last_byte :
      x < 128
      → read_length
          (suc rounds)
          value
          multiplier
          patience
          (arriving (length_bytes (suc rounds) x) ++ rest)
        ≡ ok (value + x * multiplier, patience, rest)
  unfolding read_length length_bytes next_byte
  last_byte small =
      let digit : x % 128 ≡ x = omega arith in
      rw (le→ltb 0 (x / 128) (omega arith), digit, lt→ltb x 128 small, digit) refl

one_byte_or_more : (x : ℕ) → (x < 128) ⊎ (0 < x / 128)
one_byte_or_more x = elim (Bool-cases (ltb x 128)) [
  | inl e ↦ inl (ltb→lt _ _ e)
  | inr e ↦ inr (omega (arith, ltb→le _ _ e))
]

module _ (patience : ℕ) (rest : List Read) where
  -- The rest of a length, after `k` bytes of it.
  ReadsBack : ℕ → ℕ → ℕ → ℕ → Type 0
  ReadsBack rounds value multiplier x =
      read_length rounds value multiplier patience (arriving (length_bytes rounds x) ++ rest)
      ≡ ok (value + x * multiplier, patience, rest)

  fourth : (value x : ℕ) → x < 128 → ReadsBack 1 value 2097152 x
  unfolding ReadsBack
  fourth value x fits = last_byte 0 value 2097152 patience x rest fits

  third : (value x : ℕ) → x < 16384 → ReadsBack 2 value 16384 x
  unfolding ReadsBack
  third value x fits = elim (one_byte_or_more x) [
    | inl small ↦ last_byte 1 value 16384 patience x rest small
    | inr large ↦
        more_byte 1 value 16384 patience x rest large
        ∙ fourth (value + x % 128 * 16384) (x / 128) (omega arith)
        ∙ ap (λ n. ok (n, patience, rest)) (omega arith)
  ]

  second : (value x : ℕ) → x < 2097152 → ReadsBack 3 value 128 x
  unfolding ReadsBack
  second value x fits = elim (one_byte_or_more x) [
    | inl small ↦ last_byte 2 value 128 patience x rest small
    | inr large ↦
        more_byte 2 value 128 patience x rest large
        ∙ third (value + x % 128 * 128) (x / 128) (omega arith)
        ∙ ap (λ n. ok (n, patience, rest)) (omega arith)
  ]

  -- Every length up to 2^28 - 1 is read back from its bytes, whatever follows them, and no timeout
  -- is spent.
  pub read_remaining_length-length_bytes :
      (len : ℕ)
      → len ≤ max_remaining
      → read_remaining_length patience (arriving (length_bytes 4 len) ++ rest)
        ≡ ok (len, patience, rest)
  unfolding read_remaining_length ReadsBack
  read_remaining_length-length_bytes len fits = elim (one_byte_or_more len) [
    | inl small ↦
        last_byte 3 0 1 patience len rest small ∙ ap (λ n. ok (n, patience, rest)) (omega arith)
    | inr large ↦
        more_byte 3 0 1 patience len rest large
        ∙ second (0 + len % 128 * 1) (len / 128) (omega arith)
        ∙ ap (λ n. ok (n, patience, rest)) (omega arith)
  ]
