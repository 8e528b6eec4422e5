-- ===== src/Websocket/Close.antt =====
-- src/websocket.rs: the payload of a close frame, and the checks of control frames.
pub mod Codes
use rsurl.Base.{
  ℕ, ◌+◌, Bool, true, false, not, ◌&&◌, ◌||◌, Option, none, some, List, [], ◌∷◌, ◌++◌, length, ltb,
  leb, ◌==◌, if◌then◌else◌, Result, ok, err, bad, ◌>>◌, reject_if, Error, bad_response, fixed,
}
use rsurl.Base.Bytes.{Bytes, be16, be16_bytes}
use rsurl.Base.Utf8.{is_utf8}
use rsurl.Websocket.Frame.{Frame, max_control_payload, max_payload_bytes}

pub record WsClose : Type 0 where
  pub code : ℕ
  pub reason : Bytes

abbrev pub close_protocol_error : ℕ
close_protocol_error = 1002

abbrev pub close_invalid_data : ℕ
close_invalid_data = 1007

unfoldable pub is_valid_close_code : ℕ → Bool
is_valid_close_code code =
    (leb 1000 code && leb code 1003)
    || ((leb 1007 code && leb code 1014) || (leb 3000 code && leb code 4999))

-- The close that a payload carries, or the status to fail the connection with.
pub data CloseResult : Type 0 where
  close_ok : Option WsClose → CloseResult
  close_status : ℕ → CloseResult

unfoldable pub parse_close_payload : Bytes → CloseResult
unfolding is_valid_close_code
parse_close_payload [] = close_ok none
parse_close_payload (a ∷ []) = close_status close_protocol_error
parse_close_payload (a ∷ b ∷ rest) =
    if not (is_valid_close_code (be16 a b))
    then close_status close_protocol_error
    else if is_utf8 rest
    then close_ok (some (record { code = be16 a b; reason = rest }))
    else close_status close_invalid_data

abbrev pub bad_close_error : ℕ → Error
bad_close_error status = bad_response (fixed "websocket: malformed close frame from peer")

unfoldable pub close_echo_payload : Option WsClose → Bytes
close_echo_payload none = []
close_echo_payload (some c) = be16_bytes c.code

unfoldable pub close_payload : ℕ → Bytes → Result Bytes
unfolding is_valid_close_code
close_payload code reason =
    let payload = be16_bytes code ++ reason in
    if not (is_valid_close_code code)
    then bad "websocket: close code may not be sent"
    else if ltb max_control_payload (length payload)
    then bad "websocket: close reason too long"
    else ok payload

-- Of an incoming control frame.
unfoldable pub validate_control_frame : Frame → Result (Unit {0})
validate_control_frame f =
    if f.rsv1
    then bad "RSV1 set on a WS control frame"
    else if not f.fin
    then bad "fragmented control frame (FIN=0 on a control opcode)"
    else if ltb max_control_payload (length f.payload)
    then bad "control frame payload too large"
    else ok tt

-- Of an outgoing control frame.
unfoldable pub check_control_payload : Bytes → Result (Unit {0})
check_control_payload payload =
    if ltb max_control_payload (length payload)
    then bad "websocket: control frame payload too large"
    else ok tt

-- Append a fragment, within the limit.
unfoldable pub accumulate : Bytes → Bytes → Result Bytes
accumulate buf chunk =
    if ltb max_payload_bytes (length buf + length chunk)
    then bad "reassembled WS message too large"
    else ok (buf ++ chunk)
