-- ===== src/Websocket/Frame/Stable.antt =====
-- src/websocket.rs: what `try_parse_frame` answers does not change when more bytes arrive.
use rsurl.Base.{
  ℕ, ◌+◌, ◌≤◌, Option, none, some, [], ◌∷◌, ◌++◌, length, length-append, drop, Result, ok, err,
  ◌>>=◌, bit_and, ◌≡◌, ◌≢◌, refl, ap, ◌∙◌, arith, take-append, drop-append, >>=-eq-ok, length-drop,
}
use rsurl.Base.Bytes.{Bytes}
use rsurl.Websocket.Frame.{Frame, length16, length64, payload_length, take_payload, try_parse_frame}

length16-append :
    (rest more : Bytes) → length16 rest ≢ ok none → length16 (rest ++ more) ≡ length16 rest
unfolding length16
length16-append [] more h = absurd (h refl)
length16-append (a ∷ []) more h = absurd (h refl)
length16-append (a ∷ b ∷ rest) more h = refl

length64-append :
    (rest more : Bytes) → length64 rest ≢ ok none → length64 (rest ++ more) ≡ length64 rest
unfolding length64
length64-append (a ∷ b ∷ c ∷ d ∷ e ∷ f ∷ g ∷ h ∷ rest) more n = refl
length64-append _ more n = absurd (n refl)

payload_length-append :
    (len7 : ℕ) (rest more : Bytes)
    → payload_length len7 rest ≢ ok none
    → payload_length len7 (rest ++ more) ≡ payload_length len7 rest
unfolding payload_length
payload_length-append len7 rest more h =
    ground (arith, length16-append rest more, length64-append rest more)

length16_pos :
    (rest : Bytes) {len pos : ℕ}
    → length16 rest ≡ ok (some (len, pos))
    → (2 ≤ pos) × (pos ≤ length rest + 2)
unfolding length16
length16_pos [] h = cc
length16_pos (a ∷ []) h = cc
length16_pos (a ∷ b ∷ rest) h = ground arith

length64_pos :
    (rest : Bytes) {len pos : ℕ}
    → length64 rest ≡ ok (some (len, pos))
    → (2 ≤ pos) × (pos ≤ length rest + 2)
unfolding length64
length64_pos (a ∷ b ∷ c ∷ d ∷ e ∷ f ∷ g ∷ h ∷ rest) n = ground arith
length64_pos _ n = cc

-- The position behind the length lies within the buffer.
payload_length_pos :
    (len7 : ℕ) (rest : Bytes) {len pos : ℕ}
    → payload_length len7 rest ≡ ok (some (len, pos))
    → (2 ≤ pos) × (pos ≤ length rest + 2)
unfolding payload_length
payload_length_pos len7 rest h = ground (arith, length16_pos rest, length64_pos rest)

take_payload-append :
    (h0 : ℕ) (buf more : Bytes) (len pos : ℕ)
    → pos ≤ length buf
    → take_payload h0 buf (some (len, pos)) ≢ ok none
    → take_payload h0 (buf ++ more) (some (len, pos)) ≡ take_payload h0 buf (some (len, pos))
unfolding take_payload
take_payload-append h0 buf more len pos within h = ground (
  arith,
  length-append buf more,
  drop-append pos buf more within,
  take-append len (drop pos buf) more,
  length-drop pos buf,
)

take_payload-none : (h0 : ℕ) (buf : Bytes) → take_payload h0 buf none ≡ ok none
unfolding take_payload
take_payload-none h0 buf = refl

rest-append :
    (h0 h1 len7 : ℕ) (rest more : Bytes)
    → (payload_length len7 rest >>= take_payload h0 (h0 ∷ h1 ∷ rest)) ≢ ok none
    → (payload_length len7 (rest ++ more) >>= take_payload h0 (h0 ∷ h1 ∷ (rest ++ more)))
      ≡ (payload_length len7 rest >>= take_payload h0 (h0 ∷ h1 ∷ rest))
rest-append h0 h1 len7 rest more h = go (payload_length len7 rest) refl h
  where
    go :
        (r : Result (Option (ℕ × ℕ)))
        → payload_length len7 rest ≡ r
        → (r >>= take_payload h0 (h0 ∷ h1 ∷ rest)) ≢ ok none
        → (payload_length len7 (rest ++ more) >>= take_payload h0 (h0 ∷ h1 ∷ (rest ++ more)))
          ≡ (r >>= take_payload h0 (h0 ∷ h1 ∷ rest))
    go (err e) p n = rw (payload_length-append len7 rest more (λ q. cc), p)
    go (ok none) p n = absurd (n (take_payload-none h0 (h0 ∷ h1 ∷ rest)))
    go (ok (some (len, pos))) p n =
        rw (payload_length-append len7 rest more (λ q. cc), p)
          (take_payload-append h0 (h0 ∷ h1 ∷ rest) more len pos
            (omega (arith, payload_length_pos len7 rest p)) n)

-- Once the parser has answered with a frame or with an error, more bytes do not change the answer.
pub try_parse_frame-append :
    (buf more : Bytes)
    → try_parse_frame buf ≢ ok none
    → try_parse_frame (buf ++ more) ≡ try_parse_frame buf
unfolding try_parse_frame
try_parse_frame-append [] more h = absurd (h refl)
try_parse_frame-append (a ∷ []) more h = absurd (h refl)
try_parse_frame-append (h0 ∷ h1 ∷ rest) more h =
    ground (arith, rest-append h0 h1 (bit_and h1 0x7f) rest more)

take_payload_consumed :
    (h0 : ℕ) (buf : Bytes) (o : Option (ℕ × ℕ)) {f : Frame} {n : ℕ}
    → ((len pos : ℕ) → o ≡ some (len, pos) → 2 ≤ pos)
    → take_payload h0 buf o ≡ ok (some (f, n))
    → (2 ≤ n) × (n ≤ length buf)
unfolding take_payload
take_payload_consumed h0 buf none low h = cc
take_payload_consumed h0 buf (some (len, pos)) low h = ground (arith, low len pos refl)

rest_consumed :
    (h0 h1 len7 : ℕ) (rest : Bytes) (f : Frame) (n : ℕ)
    → (payload_length len7 rest >>= take_payload h0 (h0 ∷ h1 ∷ rest)) ≡ ok (some (f, n))
    → (2 ≤ n) × (n ≤ length (h0 ∷ h1 ∷ rest))
rest_consumed h0 h1 len7 rest f n h =
    let (o, p, t) = >>=-eq-ok (payload_length len7 rest) (take_payload h0 (h0 ∷ h1 ∷ rest)) h in
    take_payload_consumed h0 (h0 ∷ h1 ∷ rest) o
      (λ len pos e. (payload_length_pos len7 rest (p ∙ ap ok e)).0) t

-- A frame that is found takes at least two bytes, all of them present.
pub try_parse_frame_consumed :
    (buf : Bytes) (f : Frame) (n : ℕ)
    → try_parse_frame buf ≡ ok (some (f, n))
    → (2 ≤ n) × (n ≤ length buf)
unfolding try_parse_frame
try_parse_frame_consumed [] f n h = cc
try_parse_frame_consumed (a ∷ []) f n h = cc
try_parse_frame_consumed (h0 ∷ h1 ∷ rest) f n h =
    ground (arith, rest_consumed h0 h1 (bit_and h1 0x7f) rest f n)
