-- ===== src/Websocket/Frame/Build.antt =====
-- src/websocket.rs: a server that follows RFC 6455 reads what `build_client_frame_inner` built.
use rsurl.Base.{
  ℕ, zero, suc, ◌+◌, ◌-◌, ◌%◌, ◌≤◌, ◌<◌, Bool, true, false, Option, none, some, [], ◌∷◌, ◌++◌,
  append_assoc, length, take, drop, get_or, drop-length_append, take_all, ltb, leb, ◌==◌, ==_iff,
  if◌then◌else◌, Bool-cases, inl, inr, ltb→lt, leb→le, le→ltb, drop_append_of_length, Result, ok,
  err, ◌≡◌, refl, ap, arith, bit_and, bit_or, bit_xor,
}
use rsurl.Base.Bits.{all_below, all_below_sound, low_two}
use rsurl.Base.Bytes.{Bytes, IsByte, AreBytes}
use rsurl.Websocket.Frame.Parse.{
  first_byte, length_code, length_rest, payload_length-length_rest, first_byte_bits,
}
use rsurl.Websocket.Frame.{
  Frame, max_payload_bytes, has_bit, payload_length, mask_from, length_field,
  build_client_frame_inner,
}

xor_row : ℕ → Bool
xor_row m = all_below 256 (λ b. bit_xor (bit_xor b m) m == b)

xor_table : all_below 256 xor_row ≡ true
unfolding all_below xor_row
xor_table = refl

xor_twice : (b m : ℕ) → IsByte b → IsByte m → bit_xor (bit_xor b m) m ≡ b
unfolding xor_row
xor_twice b m hb hm = (==_iff _ b).0 (
    all_below_sound (λ b. bit_xor (bit_xor b m) m == b) 256
      (all_below_sound xor_row 256 xor_table m hm) b hb)

get_or-IsByte : (i : ℕ) (mask : Bytes) → AreBytes mask → IsByte (get_or mask i 0)
get_or-IsByte i [] h = omega arith
get_or-IsByte zero (x ∷ xs) (hx, hs) = hx
get_or-IsByte (suc i) (x ∷ xs) (hx, hs) = get_or-IsByte i xs hs

-- Removing a mask, RFC 6455 §5.3: the octet at position `i` of the payload is combined with the
-- octet at position `i` modulo 4 of the masking key.
unmasked : ℕ → Bytes → Bytes → Bytes
unmasked i key [] = []
unmasked i key (b ∷ bs) = bit_xor b (get_or key (i % 4) 0) ∷ unmasked (i + 1) key bs

-- What is masked has its mask removed, from every position.
unmasked-mask_from :
    (i : ℕ) (mask payload : Bytes)
    → AreBytes mask
    → AreBytes payload
    → unmasked i mask (mask_from i mask payload) ≡ payload
unfolding mask_from unmasked
unmasked-mask_from i mask [] hm h = refl
unmasked-mask_from i mask (b ∷ bs) hm (hb, hs) =
    rw (low_two i, unmasked-mask_from (i + 1) mask bs hm hs)
      (ap (λ x. x ∷ bs) (xor_twice b (get_or mask (i % 4) 0) hb (get_or-IsByte (i % 4) mask hm)))

pub length-mask_from :
    (i : ℕ) (mask payload : Bytes) → length (mask_from i mask payload) ≡ length payload
unfolding mask_from
length-mask_from i mask [] = refl
length-mask_from i mask (b ∷ bs) = ap suc (length-mask_from (i + 1) mask bs)

-- The receiver of RFC 6455 §5.1: a server refuses an unmasked frame, and removes the mask.
abbrev unmask : ℕ → Bytes → Option (ℕ × ℕ) → Option Frame
unmask h0 buf none = none
unmask h0 buf (some (len, pos)) =
    let mask = take 4 (drop pos buf) in
    some (record {
      fin = has_bit h0 0x80;
      rsv1 = has_bit h0 0x40;
      opcode = bit_and h0 0x0f;
      payload = unmasked 0 mask (take len (drop (pos + 4) buf));
    })

abbrev unmask_result : ℕ → Bytes → Result (Option (ℕ × ℕ)) → Option Frame
unmask_result h0 buf (err e) = none
unmask_result h0 buf (ok o) = unmask h0 buf o

pub receive : Bytes → Option Frame
receive (h0 ∷ h1 ∷ rest) =
    if ltb h1 128 then none else unmask_result h0 (h0 ∷ h1 ∷ rest) (payload_length (h1 - 128) rest)
receive _ = none

mask_bit_table : all_below 128 (λ x. bit_or 0x80 x == 128 + x) ≡ true
unfolding all_below
mask_bit_table = refl

mask_bit : (x : ℕ) → x < 128 → bit_or 0x80 x ≡ 128 + x
mask_bit x h =
    (==_iff _ _).0 (all_below_sound (λ x. bit_or 0x80 x == 128 + x) 128 mask_bit_table x h)

-- The length field has the mask bit, and else the length as the parser reads it.
length_field-length_code :
    (n : ℕ) → n ≤ max_payload_bytes → length_field n ≡ (128 + length_code n) ∷ length_rest n
unfolding length_field
length_field-length_code n h = elim (Bool-cases (ltb n 126)) [
  | inl short ↦
      let same : n % 256 ≡ n = omega (arith, ltb→lt _ _ short) in
      rw (short, same) (ap (λ b. b ∷ []) (mask_bit n (omega (arith, ltb→lt _ _ short))))
  | inr long ↦ elim (Bool-cases (leb n 65535)) [
    | inl medium ↦
        let same : n % 65536 ≡ n = omega (arith, leb→le _ _ medium) in rw (long, medium, same)
    | inr large ↦ let same : n % 18446744073709551616 ≡ n = omega arith in rw (long, large, same)
  ]
]

abbrev head_agrees : Bool → Bool → ℕ → Bool
head_agrees fin rsv1 op =
    bit_or (bit_or (if fin then 0x80 else 0x00) (if rsv1 then 0x40 else 0x00)) (bit_and op 0x0f)
    == first_byte fin rsv1 op

head_table : (fin rsv1 : Bool) → all_below 16 (head_agrees fin rsv1) ≡ true
unfolding all_below
head_table true true = refl
head_table true false = refl
head_table false true = refl
head_table false false = refl

head-first_byte :
    (fin rsv1 : Bool) (op : ℕ)
    → op < 16
    → bit_or (bit_or (if fin then 0x80 else 0x00) (if rsv1 then 0x40 else 0x00)) (bit_and op 0x0f)
      ≡ first_byte fin rsv1 op
head-first_byte fin rsv1 op h =
    (==_iff _ _).0 (all_below_sound (head_agrees fin rsv1) 16 (head_table fin rsv1) op h)

abbrev mask_of : Bytes → Bytes
mask_of r = get_or r 0 0 ∷ get_or r 1 0 ∷ get_or r 2 0 ∷ get_or r 3 0 ∷ []

mask_of-AreBytes : (r : Bytes) → AreBytes r → AreBytes (mask_of r)
mask_of-AreBytes r h =
    (get_or-IsByte 0 r h, (get_or-IsByte 1 r h, (get_or-IsByte 2 r h, (get_or-IsByte 3 r h, tt))))

abbrev masked_frame : Frame → Bytes → Bytes
masked_frame f mask =
    first_byte f.fin f.rsv1 f.opcode
    ∷ (128 + length_code (length f.payload))
    ∷ (length_rest (length f.payload) ++ (mask ++ mask_from 0 mask f.payload))

build-masked_frame :
    (r : Bytes) (f : Frame)
    → f.opcode < 16
    → length f.payload ≤ max_payload_bytes
    → build_client_frame_inner (ok r) f.fin f.opcode f.payload f.rsv1
      ≡ ok (masked_frame f (mask_of r))
unfolding build_client_frame_inner
build-masked_frame r f op size =
    rw (length_field-length_code (length f.payload) size, head-first_byte f.fin f.rsv1 f.opcode op)
      (rw append_assoc)

receive-masked_frame :
    (r : Bytes) (f : Frame)
    → f.opcode < 16
    → length f.payload ≤ max_payload_bytes
    → AreBytes r
    → AreBytes f.payload
    → receive (masked_frame f (mask_of r)) ≡ some f
unfolding receive
receive-masked_frame r f op size hr hp =
    let n = length f.payload in
    let mask = mask_of r in
    let lead = length_rest n in
    let body = mask_from 0 mask f.payload in
    let (_, fin_bit, rsv1_bit, low) = first_byte_bits f.fin f.rsv1 f.opcode op in
    let not_low : ltb (128 + length_code n) 128 ≡ false = le→ltb _ _ (omega arith) in
    let code : 128 + length_code n - 128 ≡ length_code n = omega arith in
    let two : 2 + length lead ≡ suc (suc (length lead)) = omega arith in
    let six : 2 + length lead + 4 ≡ suc (suc (length lead + 4)) = omega arith in
    let behind : drop (length lead + 4) (lead ++ (mask ++ body)) ≡ body =
      drop_append_of_length (length lead + 4) 4 lead (mask ++ body) refl in
    let all : take n body ≡ body =
      take_all n body (omega (arith, length-mask_from 0 mask f.payload)) in
    rw (not_low, code, payload_length-length_rest n (mask ++ body) size, fin_bit, rsv1_bit, low)
      (rw (six, two)
        (rw (drop-length_append lead (mask ++ body), behind, all)
          (rw (unmasked-mask_from 0 mask f.payload (mask_of-AreBytes r hr) hp))))

-- What is built for a frame with a four-bit opcode and a payload of at most 64 MiB, under every
-- mask, is read back as that frame by a server, which removes the mask octet by octet with the key's
-- octet at the position modulo 4, as RFC 6455 says.
pub receive-build_client_frame_inner :
    (r : Bytes) (f : Frame)
    → f.opcode < 16
    → length f.payload ≤ max_payload_bytes
    → AreBytes r
    → AreBytes f.payload
    → (bytes : Bytes) × (build_client_frame_inner (ok r) f.fin f.opcode f.payload f.rsv1 ≡ ok bytes)
      × (receive bytes ≡ some f)
receive-build_client_frame_inner r f op size hr hp = (
  masked_frame f (mask_of r),
  build-masked_frame r f op size,
  receive-masked_frame r f op size hr hp,
)
