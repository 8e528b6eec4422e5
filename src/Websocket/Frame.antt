-- ===== src/Websocket/Frame.antt =====
-- src/websocket.rs: one frame from and to its bytes.
pub mod Parse
pub mod Stable
pub mod Build
use rsurl.Base.{
  ℕ, ◌+◌, ◌*◌, ◌/◌, ◌%◌, Bool, true, false, not, ◌&&◌, Option, none, some, List, [], ◌∷◌, ◌++◌,
  length, take, drop, get_or, ltb, leb, ◌==◌, if◌then◌else◌, Result, ok, err, bad, ◌>>=◌, bit_and,
  bit_or, bit_xor,
}
use rsurl.Base.Bytes.{Bytes, be16, be64, be16_bytes, be64_bytes}

abbrev pub opcode_cont : ℕ
opcode_cont = 0x0

abbrev pub opcode_text : ℕ
opcode_text = 0x1

abbrev pub opcode_binary : ℕ
opcode_binary = 0x2

abbrev pub opcode_close : ℕ
opcode_close = 0x8

abbrev pub opcode_ping : ℕ
opcode_ping = 0x9

abbrev pub opcode_pong : ℕ
opcode_pong = 0xa

abbrev pub max_payload_bytes : ℕ
max_payload_bytes = 67108864

abbrev pub max_control_payload : ℕ
max_control_payload = 125

pub record Frame : Type 0 where
  pub fin : Bool
  pub rsv1 : Bool
  pub opcode : ℕ
  pub payload : Bytes

-- `x & mask != 0`.
abbrev pub has_bit : ℕ → ℕ → Bool
has_bit x mask = not (bit_and x mask == 0)

-- The 16-bit and the 64-bit length, with the position behind it; `none` while bytes are missing.
unfoldable pub length16 : Bytes → Result (Option (ℕ × ℕ))
length16 (a ∷ b ∷ rest) =
    if ltb (be16 a b) 126
    then bad "non-minimal 16-bit WS payload length"
    else ok (some (be16 a b, 4))
length16 _ = ok none

unfoldable pub length64 : Bytes → Result (Option (ℕ × ℕ))
length64 (a ∷ b ∷ c ∷ d ∷ e ∷ f ∷ g ∷ h ∷ rest) =
    let v = be64 a b c d e f g h in
    if not (v / 9223372036854775808 == 0)
    then bad "WS payload length has its most significant bit set"
    else if leb v 65535
    then bad "non-minimal 64-bit WS payload length"
    else ok (some (v, 10))
length64 _ = ok none

unfoldable pub payload_length : ℕ → Bytes → Result (Option (ℕ × ℕ))
unfolding length16 length64
payload_length len7 rest =
    if leb len7 125
    then ok (some (len7, 2))
    else if len7 == 126
    then length16 rest
    else length64 rest

-- The checks of the length, and the payload if it is there.
unfoldable pub take_payload : ℕ → Bytes → Option (ℕ × ℕ) → Result (Option (Frame × ℕ))
take_payload h0 buf none = ok none
take_payload h0 buf (some (len, pos)) =
    if leb 0x8 (bit_and h0 0x0f) && ltb max_control_payload len
    then bad "control frame payload too large"
    else if ltb max_payload_bytes len
    then bad "WS payload too large"
    else if ltb (length buf) (pos + len)
    then ok none
    else ok (
        some (
          record {
            fin = has_bit h0 0x80;
            rsv1 = has_bit h0 0x40;
            opcode = bit_and h0 0x0f;
            payload = take len (drop pos buf);
          },
          pos + len,
        ))

unfoldable pub try_parse_frame : Bytes → Result (Option (Frame × ℕ))
unfolding payload_length take_payload
try_parse_frame (h0 ∷ h1 ∷ rest) =
    if has_bit h0 0x30
    then bad "non-zero RSV2/RSV3 bits on incoming WS frame"
    else if has_bit h1 0x80
    then bad "server-to-client frame is masked"
    else payload_length (bit_and h1 0x7f) rest >>= take_payload h0 (h0 ∷ h1 ∷ rest)
try_parse_frame _ = ok none

-- `*b ^= mask[i & 3]` over the payload, from index `i` on.
unfoldable pub mask_from : ℕ → Bytes → Bytes → Bytes
mask_from i mask [] = []
mask_from i mask (b ∷ bs) = bit_xor b (get_or mask (bit_and i 3) 0) ∷ mask_from (i + 1) mask bs

unfoldable pub length_field : ℕ → Bytes
length_field n =
    if ltb n 126
    then bit_or 0x80 (n % 256) ∷ []
    else if leb n 65535
    then bit_or 0x80 126 ∷ be16_bytes (n % 65536)
    else bit_or 0x80 127 ∷ be64_bytes (n % 18446744073709551616)

-- `random_16` is the operating system's generator: its answer is the first argument.
unfoldable pub build_client_frame_inner : Result Bytes → Bool → ℕ → Bytes → Bool → Result Bytes
unfolding mask_from length_field
build_client_frame_inner (err e) fin opcode payload rsv1 = err e
build_client_frame_inner (ok r) fin opcode payload rsv1 =
    let mask = get_or r 0 0 ∷ get_or r 1 0 ∷ get_or r 2 0 ∷ get_or r 3 0 ∷ [] in
    let fin_bit : ℕ = if fin then 0x80 else 0x00 in
    let rsv1_bit : ℕ = if rsv1 then 0x40 else 0x00 in
    let head =
      bit_or (bit_or fin_bit rsv1_bit) (bit_and opcode 0x0f) ∷ length_field (length payload) in
    ok ((head ++ mask) ++ mask_from 0 mask payload)

unfoldable pub build_client_frame : Result Bytes → ℕ → Bytes → Result Bytes
unfolding build_client_frame_inner
build_client_frame r opcode payload = build_client_frame_inner r true opcode payload false

unfoldable pub build_client_frame_rsv1 : Result Bytes → ℕ → Bytes → Result Bytes
unfolding build_client_frame_inner
build_client_frame_rsv1 r opcode payload = build_client_frame_inner r true opcode payload true
