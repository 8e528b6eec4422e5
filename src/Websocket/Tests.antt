-- ===== src/Websocket/Tests.antt =====
-- src/websocket.rs: the theorems at concrete frames and streams.
use rsurl.Base.{
  ◌≤◌, ◌≡◌, ◌⊎◌, ◌≢◌, refl, arith, true, false, none, some, List, [], ◌∷◌, ◌++◌, length, Result, ok,
  would_block,
}
use rsurl.Base.Bytes.{Bytes, be16_bytes}
use rsurl.Base.Utf8.{is_utf8}
use rsurl.Websocket.Frame.{
  Frame, try_parse_frame, build_client_frame, build_client_frame_inner, opcode_text, opcode_ping,
  opcode_pong, opcode_cont, opcode_close, max_control_payload,
}
use rsurl.Websocket.Frame.Stable.{try_parse_frame-append}
use rsurl.Websocket.Frame.Parse.{wire_frame, IsWire, try_parse_frame-wire_frame}
use rsurl.Websocket.Frame.Build.{receive, receive-build_client_frame_inner}
use rsurl.Websocket.Close.{
  close_ok, close_status, close_protocol_error, close_invalid_data, parse_close_payload,
  close_echo_payload, close_payload,
}
use rsurl.Websocket.Close.Codes.{
  parse_close_payload-close_payload, parse_close_payload-close_echo_payload,
  parse_close_payload_status,
}
use rsurl.Websocket.Stream.{Read, chunk, read_error}
use rsurl.Websocket.Control.{Reader, Round, done, text}
use rsurl.Websocket.Control.Budget.{Budget}
use rsurl.Websocket.Reader.{next_event}
use rsurl.Websocket.Reader.Reassembly.{round, last, pinged, as_text, next_event-reassembly}
use rsurl.Websocket.Reader.Closing.{next_event-Budget}

-- A reader without an extension.
abbrev fresh : Reader (Unit {0})
fresh = record {
  partial = none;
  pmd = none;
  auto_pong = true;
  send_closed = false;
  recv_closed = false;
}

abbrev no_inflater : Unit {0} → Bytes → Result Bytes × Unit {0}
no_inflater p bytes = (ok bytes, p)

abbrev mask : Result Bytes
mask = ok (1 ∷ 2 ∷ 3 ∷ 4 ∷ [])

pong_bytes : build_client_frame mask opcode_pong (9 ∷ []) ≡ ok (138 ∷ 129 ∷ 1 ∷ 2 ∷ 3 ∷ 4 ∷ 8 ∷ [])
unfolding build_client_frame
pong_bytes = refl

-- "h", a ping, "i".
abbrev fragments : List Round
fragments =
    round true opcode_ping (9 ∷ []) mask none ∷ round true opcode_cont (105 ∷ []) mask none ∷ []

hi_text : is_utf8 (104 ∷ 105 ∷ []) ≡ true
unfolding is_utf8
hi_text = refl

next_event-reassembly_example :
    next_event no_inflater true (round false opcode_text (104 ∷ []) mask none ∷ fragments) fresh
    ≡ done (ok (text (104 ∷ 105 ∷ []))) fresh ((138 ∷ 129 ∷ 1 ∷ 2 ∷ 3 ∷ 4 ∷ 8 ∷ []) ∷ [])
next_event-reassembly_example =
    next_event-reassembly no_inflater fresh mask none refl refl
      (pinged (9 ∷ []) mask (138 ∷ 129 ∷ 1 ∷ 2 ∷ 3 ∷ 4 ∷ 8 ∷ []) pong_bytes (omega arith)
        (last (105 ∷ []) mask none))
      (as_text hi_text) (omega arith)

-- The peer closes with status 1000.
abbrev closing : List Round
closing = round true opcode_close (3 ∷ 232 ∷ []) mask none ∷ []

next_event-Budget_example : Budget false (next_event no_inflater true closing fresh)
next_event-Budget_example = next_event-Budget no_inflater true closing fresh

abbrev hello : Frame
hello = record { fin = true; rsv1 = false; opcode = 1; payload = 72 ∷ 105 ∷ [] }

-- The frame in three reads, with an interruption.
abbrev trickle : List Read
trickle =
    chunk (129 ∷ []) ∷ read_error would_block ∷ chunk (2 ∷ 72 ∷ []) ∷ chunk (105 ∷ 137 ∷ []) ∷ []

hello-IsWire : IsWire hello
hello-IsWire = record {
  opcode_fits = omega arith;
  payload_fits = omega arith;
  control_fits = λ _. omega arith;
}

try_parse_frame-wire_frame_example :
    try_parse_frame (wire_frame hello ++ (137 ∷ [])) ≡ ok (some (hello, length (wire_frame hello)))
try_parse_frame-wire_frame_example = try_parse_frame-wire_frame hello (137 ∷ []) hello-IsWire

receive-build_client_frame_inner_example :
    (bytes : Bytes) × (build_client_frame_inner mask true 1 (72 ∷ 105 ∷ []) false ≡ ok bytes)
    × (receive bytes ≡ some hello)
receive-build_client_frame_inner_example =
    receive-build_client_frame_inner (1 ∷ 2 ∷ 3 ∷ 4 ∷ []) hello (omega arith) (omega arith)
      (omega arith, (omega arith, (omega arith, (omega arith, tt))))
      (omega arith, (omega arith, tt))

masked_refused : try_parse_frame (0x81 ∷ 0xff ∷ []) ≢ ok none
unfolding try_parse_frame
masked_refused = λ e. cc

try_parse_frame-append_example :
    try_parse_frame (0x81 ∷ 0xff ∷ (0 ∷ 0 ∷ [])) ≡ try_parse_frame (0x81 ∷ 0xff ∷ [])
try_parse_frame-append_example =
    try_parse_frame-append (0x81 ∷ 0xff ∷ []) (0 ∷ 0 ∷ []) masked_refused

bye_text : is_utf8 (98 ∷ []) ≡ true
unfolding is_utf8
bye_text = refl

bye_built : close_payload 1000 (98 ∷ []) ≡ ok (3 ∷ 232 ∷ 98 ∷ [])
unfolding close_payload
bye_built = refl

bye_parsed :
    parse_close_payload (3 ∷ 232 ∷ 98 ∷ [])
    ≡ close_ok (some (record { code = 1000; reason = 98 ∷ [] }))
unfolding parse_close_payload
bye_parsed = rw bye_text refl

parse_close_payload-close_payload_example :
    parse_close_payload (3 ∷ 232 ∷ 98 ∷ [])
    ≡ close_ok (some (record { code = 1000; reason = 98 ∷ [] }))
parse_close_payload-close_payload_example =
    parse_close_payload-close_payload 1000 (98 ∷ []) (3 ∷ 232 ∷ 98 ∷ []) bye_text bye_built

parse_close_payload-close_echo_payload_example :
    (length (close_echo_payload (some (record { code = 1000; reason = 98 ∷ [] })))
      ≤ max_control_payload)
    × (parse_close_payload (close_echo_payload (some (record { code = 1000; reason = 98 ∷ [] })))
        ≡ close_ok (some (record { code = 1000; reason = [] })))
parse_close_payload-close_echo_payload_example =
    parse_close_payload-close_echo_payload (3 ∷ 232 ∷ 98 ∷ [])
      (record { code = 1000; reason = 98 ∷ [] }) bye_parsed

reserved_refused : parse_close_payload (3 ∷ 238 ∷ []) ≡ close_status close_protocol_error
unfolding parse_close_payload
reserved_refused = refl

parse_close_payload_status_example :
    ((close_protocol_error ≡ close_protocol_error) ⊎ (close_protocol_error ≡ close_invalid_data))
    × (close_payload close_protocol_error [] ≡ ok (be16_bytes close_protocol_error))
parse_close_payload_status_example =
    parse_close_payload_status (3 ∷ 238 ∷ []) close_protocol_error reserved_refused
