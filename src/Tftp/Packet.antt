-- ===== src/Tftp/Packet.antt =====
-- src/tftp.rs: the packets of RFC 1350.
use rsurl.Base.{
  ℕ, Bool, false, Option, none, some, [], ◌∷◌, ◌++◌, ◌==◌, if◌then◌else◌, Result, ok, bad,
}
use rsurl.Base.Bytes.{Bytes, codes, be16, be16_bytes}

abbrev pub op_rrq : ℕ
op_rrq = 1

abbrev pub op_wrq : ℕ
op_wrq = 2

abbrev pub op_data : ℕ
op_data = 3

abbrev pub op_ack : ℕ
op_ack = 4

abbrev pub op_error : ℕ
op_error = 5

abbrev pub block_size : ℕ
block_size = 512

abbrev pub max_total_bytes : ℕ
max_total_bytes = 268435456

pub record DataPacket : Type 0 where
  pub block : ℕ
  pub payload : Bytes

pub build_request : ℕ → Bytes → Bytes
build_request opcode filename = be16_bytes opcode ++ (filename ++ (0 ∷ (codes "octet" ++ (0 ∷ []))))

unfoldable pub build_rrq : Bytes → Bytes
unfolding build_request
build_rrq filename = build_request op_rrq filename

unfoldable pub build_wrq : Bytes → Bytes
unfolding build_request
build_wrq filename = build_request op_wrq filename

-- The packet is appended to `out`.
unfoldable pub write_data : Bytes → ℕ → Bytes → Bytes
write_data out block payload = ((out ++ be16_bytes op_data) ++ be16_bytes block) ++ payload

unfoldable pub build_ack : ℕ → Bytes
build_ack block = be16_bytes op_ack ++ be16_bytes block

unfoldable pub parse_opcode : Bytes → Option ℕ
parse_opcode [] = none
parse_opcode (a ∷ []) = none
parse_opcode (a ∷ b ∷ rest) = some (be16 a b)

-- `parse_opcode(buf) == Some(op)`.
abbrev opcode_is : Option ℕ → ℕ → Bool
opcode_is none op = false
opcode_is (some o) op = o == op

unfoldable pub parse_data : Bytes → Result DataPacket
unfolding parse_opcode
parse_data (a ∷ b ∷ c ∷ d ∷ rest) =
    if opcode_is (parse_opcode (a ∷ b ∷ c ∷ d ∷ rest)) op_data
    then ok (record { block = be16 c d; payload = rest })
    else bad "tftp: not a DATA packet"
parse_data _ = bad "tftp: short DATA packet"

unfoldable pub parse_ack : Bytes → Result ℕ
unfolding parse_opcode
parse_ack (a ∷ b ∷ c ∷ d ∷ rest) =
    if opcode_is (parse_opcode (a ∷ b ∷ c ∷ d ∷ rest)) op_ack
    then ok (be16 c d)
    else bad "tftp: not an ACK packet"
parse_ack _ = bad "tftp: short ACK packet"

-- `msg_bytes[..end]`, up to the first NUL or to the end.
until_nul : Bytes → Bytes
until_nul [] = []
until_nul (b ∷ bs) = if b == 0 then [] else b ∷ until_nul bs

-- The message is kept as its bytes, before the lossy decoding for display.
unfoldable pub parse_error : Bytes → Result Bytes
unfolding parse_opcode until_nul
parse_error (a ∷ b ∷ c ∷ d ∷ rest) =
    if opcode_is (parse_opcode (a ∷ b ∷ c ∷ d ∷ rest)) op_error
    then ok (until_nul rest)
    else bad "tftp: not an ERROR packet"
parse_error _ = bad "tftp: short ERROR packet"
