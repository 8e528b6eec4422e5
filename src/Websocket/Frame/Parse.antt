-- ===== src/Websocket/Frame/Parse.antt =====
-- src/websocket.rs: `try_parse_frame` reads the frames of RFC 6455 §5.2.
use rsurl.Base.{
  ℕ, suc, ◌+◌, ◌/◌, ◌%◌, ◌≤◌, ◌<◌, Bool, true, false, not, ◌&&◌, &&→both, not→false, same_bool,
  same_bool→eq, some, [], ◌∷◌, ◌++◌, append_assoc, length, length-append, drop, take-length_append,
  drop-length_append, ltb, leb, ◌==◌, ==_iff, if◌then◌else◌, ok, Bool-cases, inl, inr, le→ltb,
  ltb→le, leb→le, leb→lt, length-drop, ◌≡◌, refl, ap, ◌∙◌, arith, bit_and,
}
use rsurl.Base.Bits.{all_below, all_below_sound, low_seven, top_bit}
use rsurl.Base.Bytes.{Bytes, be16_bytes, be64_bytes, be64, be16_of_bytes}
use rsurl.Websocket.Frame.{
  Frame, max_payload_bytes, max_control_payload, has_bit, length16, length64, payload_length,
  take_payload, try_parse_frame,
}

-- The first byte and the length field of an unmasked frame, in arithmetic.
abbrev pub first_byte : Bool → Bool → ℕ → ℕ
first_byte fin rsv1 opcode = ((if fin then 128 else 0) + (if rsv1 then 64 else 0)) + opcode

abbrev pub wire_length : ℕ → Bytes
wire_length n =
    if ltb n 126 then n ∷ [] else if leb n 65535 then 126 ∷ be16_bytes n else 127 ∷ be64_bytes n

abbrev pub wire_frame : Frame → Bytes
wire_frame f = first_byte f.fin f.rsv1 f.opcode ∷ (wire_length (length f.payload) ++ f.payload)

-- A four-bit opcode, and a payload within the limits.
pub record IsWire (f : Frame) : Type 0 where
  pub opcode_fits : f.opcode < 16
  pub payload_fits : length f.payload ≤ max_payload_bytes
  pub control_fits : 8 ≤ f.opcode → length f.payload ≤ max_control_payload

abbrev bits_agree : Bool → Bool → ℕ → Bool
bits_agree fin rsv1 op =
    let h = first_byte fin rsv1 op in
    not (has_bit h 0x30)
    && (same_bool (has_bit h 0x80) fin && (same_bool (has_bit h 0x40) rsv1 && bit_and h 0x0f == op))

bits_table : (fin rsv1 : Bool) → all_below 16 (bits_agree fin rsv1) ≡ true
unfolding all_below
bits_table true true = refl
bits_table true false = refl
bits_table false true = refl
bits_table false false = refl

pub first_byte_bits :
    (fin rsv1 : Bool) (op : ℕ)
    → op < 16
    → (has_bit (first_byte fin rsv1 op) 0x30 ≡ false)
      × (has_bit (first_byte fin rsv1 op) 0x80 ≡ fin)
      × (has_bit (first_byte fin rsv1 op) 0x40 ≡ rsv1)
      × (bit_and (first_byte fin rsv1 op) 0x0f ≡ op)
first_byte_bits fin rsv1 op h =
    let row = all_below_sound (bits_agree fin rsv1) 16 (bits_table fin rsv1) op h in
    let (reserved, row1) = &&→both _ _ row in
    let (fin_bit, row2) = &&→both _ _ row1 in
    let (rsv1_bit, low) = &&→both _ _ row2 in
    (not→false _ reserved, same_bool→eq _ _ fin_bit, same_bool→eq _ _ rsv1_bit, (==_iff _ _).0 low)

-- A length byte has no mask bit, and is its own seven bits.
length_byte : (n : ℕ) → n < 128 → (has_bit n 0x80 ≡ false) × (bit_and n 0x7f ≡ n)
length_byte n h = (ground (arith, top_bit n (omega arith)), low_seven n (omega arith) ∙ omega arith)

abbrev pub length_code : ℕ → ℕ
length_code n = if ltb n 126 then n else if leb n 65535 then 126 else 127

abbrev pub length_rest : ℕ → Bytes
length_rest n = if ltb n 126 then [] else if leb n 65535 then be16_bytes n else be64_bytes n

pub wire_length_split : (n : ℕ) → wire_length n ≡ length_code n ∷ length_rest n
wire_length_split n = ground arith

be64_of_bytes :
    (n : ℕ)
    → n ≤ max_payload_bytes
    → be64
        (n / 72057594037927936 % 256)
        (n / 281474976710656 % 256)
        (n / 1099511627776 % 256)
        (n / 4294967296 % 256)
        (n / 16777216 % 256)
        (n / 65536 % 256)
        (n / 256 % 256)
        (n % 256)
      ≡ n
be64_of_bytes n h = omega arith

length16-be16_bytes :
    (n : ℕ) (more : Bytes)
    → 126 ≤ n
    → n ≤ 65535
    → length16 (be16_bytes n ++ more) ≡ ok (some (n, 4))
unfolding length16
length16-be16_bytes n more lo hi = rw (be16_of_bytes n (omega arith)) (rw (le→ltb n 126 lo))

length64-be64_bytes :
    (n : ℕ) (more : Bytes)
    → 65535 < n
    → n ≤ max_payload_bytes
    → length64 (be64_bytes n ++ more) ≡ ok (some (n, 10))
unfolding length64
length64-be64_bytes n more lo hi = rw (be64_of_bytes n hi) (ground arith)

-- Each of the three forms of a length is read back.
pub payload_length-length_rest :
    (n : ℕ) (more : Bytes)
    → n ≤ max_payload_bytes
    → payload_length (length_code n) (length_rest n ++ more)
      ≡ ok (some (n, 2 + length (length_rest n)))
unfolding payload_length
payload_length-length_rest n more h = elim (Bool-cases (ltb n 126)) [
  | inl short ↦ rw short (ground arith)
  | inr long ↦ elim (Bool-cases (leb n 65535)) [
    | inl medium ↦
        rw (long, medium) (length16-be16_bytes n more (ltb→le _ _ long) (leb→le _ _ medium))
    | inr large ↦ rw (long, large) (length64-be64_bytes n more (leb→lt _ _ large) h)
  ]
]

take_payload-wire_frame :
    (f : Frame) (rest : Bytes) (at : ℕ) (buf : Bytes)
    → IsWire f
    → at ≤ length buf
    → drop at buf ≡ f.payload ++ rest
    → take_payload (first_byte f.fin f.rsv1 f.opcode) buf (some (length f.payload, at))
      ≡ ok (some (f, at + length f.payload))
unfolding take_payload
take_payload-wire_frame f rest at buf w within here =
    let (_, fin_bit, rsv1_bit, low) = first_byte_bits f.fin f.rsv1 f.opcode w.opcode_fits in
    let size : length (drop at buf) ≡ length f.payload + length rest =
      ap (λ (l : Bytes). length l) here ∙ length-append f.payload rest in
    rw (fin_bit, rsv1_bit, low, here, take-length_append f.payload rest)
      (ground (arith, length-drop at buf))

abbrev pieces_before : Frame → Bytes → Bytes
pieces_before f more =
    first_byte f.fin f.rsv1 f.opcode
    ∷ length_code (length f.payload)
    ∷ (length_rest (length f.payload) ++ more)

abbrev pieces : Frame → Bytes
pieces f = pieces_before f f.payload

length_code-lt : (n : ℕ) → length_code n < 128
length_code-lt n = ground arith

try_parse_frame-pieces :
    (f : Frame) (rest : Bytes)
    → IsWire f
    → try_parse_frame (pieces_before f (f.payload ++ rest))
      ≡ ok (some (f, 2 + length (length_rest (length f.payload)) + length f.payload))
unfolding try_parse_frame
try_parse_frame-pieces f rest w =
    let n = length f.payload in
    let lead = length_rest n in
    let (reserved, _, _, _) = first_byte_bits f.fin f.rsv1 f.opcode w.opcode_fits in
    let (unmasked, seven) = length_byte (length_code n) (length_code-lt n) in
    let two : 2 + length lead ≡ suc (suc (length lead)) = omega arith in
    rw (reserved, unmasked, seven, payload_length-length_rest n (f.payload ++ rest) w.payload_fits)
      (take_payload-wire_frame f rest (2 + length lead) (pieces_before f (f.payload ++ rest)) w
        (omega (arith, length-append lead (f.payload ++ rest)))
        (rw two (drop-length_append lead (f.payload ++ rest))))

-- Every frame of the protocol, within the limits of the code, is parsed from its bytes, whatever
-- follows, and the count of its bytes is returned.
pub try_parse_frame-wire_frame :
    (f : Frame) (rest : Bytes)
    → IsWire f
    → try_parse_frame (wire_frame f ++ rest) ≡ ok (some (f, length (wire_frame f)))
try_parse_frame-wire_frame f rest w =
    let n = length f.payload in
    let split : wire_frame f ≡ pieces f =
      ap (λ (l : Bytes). first_byte f.fin f.rsv1 f.opcode ∷ (l ++ f.payload))
        (wire_length_split n) in
    let size : length (wire_frame f) ≡ 2 + length (length_rest n) + n =
      ap (λ (l : Bytes). length l) split ∙ omega (arith, length-append (length_rest n) f.payload) in
    let regroup : wire_frame f ++ rest ≡ pieces_before f (f.payload ++ rest) =
      ap (λ (l : Bytes). l ++ rest) split
      ∙ ap (λ (l : Bytes). first_byte f.fin f.rsv1 f.opcode ∷ length_code n ∷ l)
          (append_assoc (length_rest n) f.payload rest) in
    rw (regroup, size) (try_parse_frame-pieces f rest w)
