-- ===== src/Websocket/Close/Codes.antt =====
-- src/websocket.rs: close payloads, as the two sides read and write them.
use rsurl.Base.{ℕ, ◌≤◌, ◌<◌, true, some, [], ◌∷◌, ◌++◌, length, ok, ◌≡◌, ◌⊎◌, refl, arith}
use rsurl.Base.Bytes.{Bytes, be16_bytes, be16_of_bytes}
use rsurl.Base.Utf8.{is_utf8}
use rsurl.Websocket.Close.{
  WsClose, close_ok, close_status, close_protocol_error, close_invalid_data, is_valid_close_code,
  parse_close_payload, close_echo_payload, close_payload,
}
use rsurl.Websocket.Frame.{max_control_payload}

valid_code-lt : (code : ℕ) → is_valid_close_code code ≡ true → code < 65536
unfolding is_valid_close_code
valid_code-lt code h = ground arith

-- A code that may be sent, with a reason, is parsed.
parse_close_payload_valid :
    (code : ℕ) (reason : Bytes)
    → is_valid_close_code code ≡ true
    → is_utf8 reason ≡ true
    → parse_close_payload (be16_bytes code ++ reason)
      ≡ close_ok (some (record { code = code; reason = reason }))
unfolding parse_close_payload
parse_close_payload_valid code reason valid text =
    rw (be16_of_bytes code (valid_code-lt code valid)) (rw (valid, text))

close_payload-eq-ok :
    (code : ℕ) (reason payload : Bytes)
    → close_payload code reason ≡ ok payload
    → (is_valid_close_code code ≡ true) × (be16_bytes code ++ reason ≡ payload)
unfolding close_payload
close_payload-eq-ok code reason payload h = ground arith

close_code_valid :
    (payload : Bytes) (c : WsClose)
    → parse_close_payload payload ≡ close_ok (some c)
    → is_valid_close_code c.code ≡ true
unfolding parse_close_payload
close_code_valid [] c h = cc
close_code_valid (a ∷ []) c h = cc
close_code_valid (a ∷ b ∷ rest) c h = ground arith

-- A close that may be sent is read back as it was meant.
pub parse_close_payload-close_payload :
    (code : ℕ) (reason payload : Bytes)
    → is_utf8 reason ≡ true
    → close_payload code reason ≡ ok payload
    → parse_close_payload payload ≡ close_ok (some (record { code = code; reason = reason }))
parse_close_payload-close_payload code reason payload text built =
    let (valid, same) = close_payload-eq-ok code reason payload built in
    rw (← same) (parse_close_payload_valid code reason valid text)

-- What is echoed for a close is sendable: it fits a control frame, and names the same code.
pub parse_close_payload-close_echo_payload :
    (payload : Bytes) (c : WsClose)
    → parse_close_payload payload ≡ close_ok (some c)
    → (length (close_echo_payload (some c)) ≤ max_control_payload)
      × (parse_close_payload (close_echo_payload (some c))
          ≡ close_ok (some (record { code = c.code; reason = [] })))
unfolding close_echo_payload
parse_close_payload-close_echo_payload payload c h = (
  omega arith,
  parse_close_payload_valid c.code [] (close_code_valid payload c h) (unfold is_utf8 in refl),
)

-- A malformed close is answered by 1002 or 1007, and a close with that status can be built.
pub parse_close_payload_status :
    (payload : Bytes) (status : ℕ)
    → parse_close_payload payload ≡ close_status status
    → ((status ≡ close_protocol_error) ⊎ (status ≡ close_invalid_data))
      × (close_payload status [] ≡ ok (be16_bytes status))
unfolding parse_close_payload close_payload
parse_close_payload_status [] status h = cc
parse_close_payload_status (a ∷ []) status h = ground arith
parse_close_payload_status (a ∷ b ∷ rest) status h = ground arith
