-- ===== src/Peer.antt =====
-- The BitTorrent peer wire protocol: src/bittorrent/peer.rs. A writer is the bytes that it was
-- given, a reader the bytes that it delivers.
pub mod Handshake
pub mod RoundTrip
pub mod Bounds
mod Tests
use rsurl.Base.{
  ℕ, ◌+◌, ◌%◌, ◌≤◌, ◌<◌, List, [], ◌∷◌, ◌++◌, length, ltb, ◌==◌, if◌then◌else◌, Result, ok, err,
  bad, ◌>>=◌,
}
use rsurl.Base.Bytes.{Bytes, be16, be32, be16_bytes, be32_bytes, IsU16, IsU32}
use rsurl.Base.Stream.{read_exact}

abbrev pub max_msg_payload : ℕ
max_msg_payload = 1048576

pub data Message : Type 0 where
  keep_alive choke unchoke interested not_interested : Message
  have : ℕ → Message
  bitfield : Bytes → Message
  request : ℕ → ℕ → ℕ → Message
  piece : ℕ → ℕ → Bytes → Message
  cancel : ℕ → ℕ → ℕ → Message
  port : ℕ → Message
  extended : ℕ → Bytes → Message

-- `be32`: the first four bytes.
unfoldable pub be32_of : Bytes → Result ℕ
be32_of (a ∷ b ∷ c ∷ d ∷ rest) = ok (be32 a b c d)
be32_of _ = bad "bt peer: short u32 payload"

-- `three_be32`: the first three words, whatever follows.
unfoldable pub three_be32 : Bytes → Result (ℕ × ℕ × ℕ)
three_be32 (a ∷ b ∷ c ∷ d ∷ e ∷ f ∷ g ∷ h ∷ i ∷ j ∷ k ∷ l ∷ rest) =
    ok (be32 a b c d, be32 e f g h, be32 i j k l)
three_be32 _ = bad "bt peer: short request/cancel payload"

unfoldable pub read_piece : Bytes → Result Message
read_piece (a ∷ b ∷ c ∷ d ∷ e ∷ f ∷ g ∷ h ∷ block) = ok (piece (be32 a b c d) (be32 e f g h) block)
read_piece _ = bad "bt peer: short piece message"

unfoldable pub read_port : Bytes → Result Message
read_port (a ∷ b ∷ rest) = ok (port (be16 a b))
read_port _ = bad "bt peer: short port message"

unfoldable pub read_extended : Bytes → Result Message
read_extended (e ∷ rest) = ok (extended e rest)
read_extended [] = bad "bt peer: empty extended message"

-- The match on the message id.
unfoldable pub read_body : ℕ → Bytes → Result Message
unfolding be32_of three_be32 read_piece read_port read_extended
read_body id payload =
    if id == 0
    then ok choke
    else if id == 1
    then ok unchoke
    else if id == 2
    then ok interested
    else if id == 3
    then ok not_interested
    else if id == 4
    then (be32_of payload >>= λ i. ok (have i))
    else if id == 5
    then ok (bitfield payload)
    else if id == 6
    then (three_be32 payload >>= λ t. ok (request t.0 t.1 t.2))
    else if id == 7
    then read_piece payload
    else if id == 8
    then (three_be32 payload >>= λ t. ok (cancel t.0 t.1 t.2))
    else if id == 9
    then read_port payload
    else if id == 20
    then read_extended payload
    else bad "bt peer: unknown message id"

-- `body[0]` and `body[1..]`; the body is not empty where this is called.
unfoldable pub split_body : Bytes → Result Message
unfolding read_body
split_body [] = bad "bt peer: unreachable"
split_body (id ∷ payload) = read_body id payload

-- What follows the length prefix.
unfoldable pub read_sized : ℕ → Bytes → Result (Message × Bytes)
unfolding split_body
read_sized len r =
    if len == 0
    then ok (keep_alive, r)
    else if ltb max_msg_payload len
    then bad "bt peer: message too large"
    else do (body, r') ← read_exact len r; msg ← split_body body; ok (msg, r')

unfoldable pub read_message : Bytes → Result (Message × Bytes)
unfolding read_sized be32_of
read_message r = do (len_buf, r') ← read_exact 4 r; len ← be32_of len_buf; read_sized len r'

-- Length prefix and id for a payload of `payload_len` bytes.
unfoldable pub header : Bytes → ℕ → ℕ → Bytes
header buf id payload_len = (buf ++ be32_bytes ((1 + payload_len) % 4294967296)) ++ (id ∷ [])

unfoldable pub frame : Bytes → ℕ → Bytes → Bytes
unfolding header
frame buf id payload = header buf id (length payload) ++ payload

unfoldable pub three : ℕ → ℕ → ℕ → Bytes
three a b c = be32_bytes a ++ (be32_bytes b ++ be32_bytes c)

-- The bytes that `write_message` writes.
unfoldable pub write_message : Message → Bytes
unfolding frame header three
write_message keep_alive = be32_bytes 0
write_message choke = frame [] 0 []
write_message unchoke = frame [] 1 []
write_message interested = frame [] 2 []
write_message not_interested = frame [] 3 []
write_message (have i) = frame [] 4 (be32_bytes i)
write_message (bitfield b) = frame [] 5 b
write_message (request index begin len) = frame [] 6 (three index begin len)
write_message (piece index begin block) =
    ((header [] 7 (8 + length block) ++ be32_bytes index) ++ be32_bytes begin) ++ block
write_message (cancel index begin len) = frame [] 8 (three index begin len)
write_message (port p) = frame [] 9 (be16_bytes p)
write_message (extended e payload) = (header [] 20 (1 + length payload) ++ (e ∷ [])) ++ payload

-- The fields fit their types, and the message is not over the receiver's limit.
abbrev pub IsWire : Message → Type 0
IsWire (have i) = IsU32 i
IsWire (bitfield b) = 1 + length b ≤ max_msg_payload
IsWire (request index begin len) = IsU32 index × IsU32 begin × IsU32 len
IsWire (piece index begin block) = IsU32 index × IsU32 begin × (9 + length block ≤ max_msg_payload)
IsWire (cancel index begin len) = IsU32 index × IsU32 begin × IsU32 len
IsWire (port p) = IsU16 p
IsWire (extended e payload) = (e < 256) × (2 + length payload ≤ max_msg_payload)
IsWire _ = Unit
