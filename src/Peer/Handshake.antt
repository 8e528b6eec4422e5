-- ===== src/Peer/Handshake.antt =====
-- src/bittorrent/peer.rs: the 68-byte handshake.
use rsurl.Base.{
  ℕ, ◌-◌, Bool, true, false, not, ◌&&◌, ◌||◌, [], ◌∷◌, ◌++◌, length, take, drop, get_or, ◌==◌,
  if◌then◌else◌, Result, ok, bad, ◌>>=◌, bit_and, bit_or, ◌≡◌, refl, length-append, take_all,
  take_append_of_length, drop_append_of_length, arith, ==_refl,
}
use rsurl.Base.Bytes.{Bytes, codes}
use rsurl.Base.Stream.{read_exact, read_exact_of_length}

-- `PSTR`.
abbrev pub pstr : Bytes
pstr = codes "BitTorrent protocol"

pub record Handshake : Type 0 where
  pub reserved : Bytes
  pub info_hash : Bytes
  pub peer_id : Bytes

-- `Handshake::new`: byte 5 of the reserved ones has the extension bit.
unfoldable pub new_handshake : Bytes → Bytes → Handshake
new_handshake info_hash peer_id = record {
  reserved = 0 ∷ 0 ∷ 0 ∷ 0 ∷ 0 ∷ bit_or 0 0x10 ∷ 0 ∷ 0 ∷ [];
  info_hash = info_hash;
  peer_id = peer_id;
}

unfoldable pub supports_extensions : Handshake → Bool
supports_extensions h = not (bit_and (get_or h.reserved 5 0) 0x10 == 0)

-- `to_bytes`, which `write_handshake` writes.
unfoldable pub handshake_bytes : Handshake → Bytes
handshake_bytes h = (length pstr ∷ []) ++ (pstr ++ (h.reserved ++ (h.info_hash ++ h.peer_id)))

-- Equality of byte slices.
unfoldable pub bytes_equal : Bytes → Bytes → Bool
bytes_equal [] [] = true
bytes_equal (x ∷ xs) (y ∷ ys) = x == y && bytes_equal xs ys
bytes_equal _ _ = false

-- `&b[from..to]` of the handshake buffer.
abbrev pub between : ℕ → ℕ → Bytes → Bytes
between from to b = take (to - from) (drop from b)

unfoldable pub read_handshake : Bytes → Result (Handshake × Bytes)
unfolding bytes_equal
read_handshake r = do
  (b, r') ← read_exact 68 r
  if not (get_or b 0 0 == length pstr) || not (bytes_equal (between 1 20 b) pstr)
      then bad "bt peer: bad protocol header"
      else ok (
        record {
          reserved = between 20 28 b;
          info_hash = between 28 48 b;
          peer_id = between 48 68 b;
        },
        r',
      )

bytes_equal_refl : (b : Bytes) → bytes_equal b b ≡ true
unfolding bytes_equal
bytes_equal_refl [] = refl
bytes_equal_refl (x ∷ xs) = rw (==_refl x) (bytes_equal_refl xs)

pub record IsWire (h : Handshake) : Type 0 where
  pub reserved_eight : length h.reserved ≡ 8
  pub info_hash_twenty : length h.info_hash ≡ 20
  pub peer_id_twenty : length h.peer_id ≡ 20

handshake_bytes_size : (h : Handshake) → IsWire h → length (handshake_bytes h) ≡ 68
unfolding handshake_bytes
handshake_bytes_size h w = omega (
  arith,
  length-append h.reserved (h.info_hash ++ h.peer_id),
  length-append h.info_hash h.peer_id,
)

module _ (h : Handshake) (w : IsWire h) where
  reserved_at : take 8 (h.reserved ++ (h.info_hash ++ h.peer_id)) ≡ h.reserved
  reserved_at = take_append_of_length 8 h.reserved _ w.reserved_eight

  info_hash_at : take 20 (drop 8 (h.reserved ++ (h.info_hash ++ h.peer_id))) ≡ h.info_hash
  info_hash_at =
      rw (drop_append_of_length 8 0 h.reserved (h.info_hash ++ h.peer_id) (omega arith))
        (take_append_of_length 20 h.info_hash h.peer_id w.info_hash_twenty)

  peer_id_at : take 20 (drop 28 (h.reserved ++ (h.info_hash ++ h.peer_id))) ≡ h.peer_id
  peer_id_at =
      rw
        (
          drop_append_of_length 28 20 h.reserved (h.info_hash ++ h.peer_id) (omega arith),
          drop_append_of_length 20 0 h.info_hash h.peer_id (omega arith),
        )
        (take_all 20 h.peer_id (omega arith))

-- A handshake whose three fields have the lengths of the protocol is read back from its bytes, and
-- what follows it is left in the stream.
pub read_handshake-handshake_bytes :
    (h : Handshake) (rest : Bytes)
    → IsWire h
    → read_handshake (handshake_bytes h ++ rest) ≡ ok (h, rest)
unfolding read_handshake
read_handshake-handshake_bytes h rest w =
    rw (read_exact_of_length 68 (handshake_bytes h) rest (handshake_bytes_size h w))
      (unfold handshake_bytes bytes_equal in rw (reserved_at h w, info_hash_at h w, peer_id_at h w))
