-- ===== src/Websocket/Reader/Reassembly.antt =====
-- src/websocket.rs: a fragmented message, with control frames between its fragments, through the
-- event loop.
use rsurl.Base.{
  ℕ, Bool, true, false, Option, none, some, List, [], ◌∷◌, ◌++◌, length, leb, ◌==◌, ◌||◌,
  length-append, ◌≤◌, ◌≡◌, refl, arith, IoKind, Result, ok,
}
use rsurl.Base.Bytes.{Bytes}
use rsurl.Base.Utf8.{is_utf8}
use rsurl.Websocket.Frame.{
  opcode_cont, opcode_text, opcode_binary, opcode_ping, opcode_pong, max_payload_bytes,
  build_client_frame,
}
use rsurl.Websocket.Close.{validate_control_frame, accumulate}
use rsurl.Websocket.Control.{
  Reader, Round, Next, done, again, prepend, WsEvent, text, binary, on_control, on_ping, send_pong,
  surface,
}
use rsurl.Websocket.Reader.{
  on_message, finish_event, on_first, on_fragment, on_continuation, on_frame, on_read, event_loop,
  next_event,
}

-- The round that reads a frame of this shape, without RSV1.
abbrev pub round : Bool → ℕ → Bytes → Result Bytes → Option IoKind → Round
round fin opcode payload entropy written = record {
  read = ok (record { fin = fin; rsv1 = false; opcode = opcode; payload = payload });
  entropy = entropy;
  written = written;
}

-- The rest of a fragmented message after `buf`: the rounds, the whole payload, and the frames that
-- the client sends meanwhile, one pong for each ping if `auto` is set.
pub data Rest : Bool → Bytes → List Round → Bytes → List Bytes → Type 0 where
  last :
      {auto : Bool} {buf : Bytes}
      → (payload : Bytes) (e : Result Bytes) (w : Option IoKind)
      → Rest auto buf (round true opcode_cont payload e w ∷ []) (buf ++ payload) []
  more :
      {auto : Bool} {buf : Bytes} {is : List Round} {whole : Bytes} {sent : List Bytes}
      → (payload : Bytes) (e : Result Bytes) (w : Option IoKind)
      → Rest auto (buf ++ payload) is whole sent
      → Rest auto buf (round false opcode_cont payload e w ∷ is) whole sent
  pinged :
      {buf : Bytes} {is : List Round} {whole : Bytes} {sent : List Bytes}
      → (payload : Bytes) (e : Result Bytes) (frame : Bytes)
      → build_client_frame e opcode_pong payload ≡ ok frame
      → length payload ≤ 125
      → Rest true buf is whole sent
      → Rest true buf (round true opcode_ping payload e none ∷ is) whole (frame ∷ sent)
  ignored :
      {buf : Bytes} {is : List Round} {whole : Bytes} {sent : List Bytes}
      → (payload : Bytes) (e : Result Bytes) (w : Option IoKind) → length payload ≤ 125
      → Rest false buf is whole sent
      → Rest false buf (round true opcode_ping payload e w ∷ is) whole sent
  ponged :
      {auto : Bool} {buf : Bytes} {is : List Round} {whole : Bytes} {sent : List Bytes}
      → (payload : Bytes) (e : Result Bytes) (w : Option IoKind) → length payload ≤ 125
      → Rest auto buf is whole sent
      → Rest auto buf (round true opcode_pong payload e w ∷ is) whole sent

-- The event that a message of the opcode is.
pub data Delivers : ℕ → Bytes → WsEvent → Type 0 where
  as_text : {whole : Bytes} → is_utf8 whole ≡ true → Delivers opcode_text whole (text whole)
  as_binary : {whole : Bytes} → Delivers opcode_binary whole (binary whole)

Rest-length :
    {auto : Bool} {buf whole : Bytes} {is : List Round} {sent : List Bytes}
    → Rest auto buf is whole sent
    → length buf ≤ length whole
Rest-length {buf = buf} (last payload e w) = omega (arith, length-append buf payload)
Rest-length {buf = buf} (more payload e w rest) =
    omega (arith, Rest-length rest, length-append buf payload)
Rest-length (pinged payload e frame built short rest) = Rest-length rest
Rest-length (ignored payload e w short rest) = Rest-length rest
Rest-length (ponged payload e w short rest) = Rest-length rest

accumulate_within :
    (buf payload : Bytes)
    → length (buf ++ payload) ≤ max_payload_bytes
    → accumulate buf payload ≡ ok (buf ++ payload)
unfolding accumulate
accumulate_within buf payload within = ground (arith, length-append buf payload, within)

short_control :
    (opcode : ℕ) (payload : Bytes)
    → length payload ≤ 125
    → validate_control_frame
        (record { fin = true; rsv1 = false; opcode = opcode; payload = payload })
      ≡ ok tt
unfolding validate_control_frame
short_control opcode payload short = ground (arith, short)

module _ {Pmd : Type 0} (inflate_message : Pmd → Bytes → Result Bytes × Pmd) where
  abbrev mid : Reader Pmd → ℕ → Bytes → Reader Pmd
  mid r opcode buf = record r {
    partial = some (record { opcode = opcode; compressed = false; buf = buf });
  }

  abbrev pub clear : Reader Pmd → Reader Pmd
  clear r = record r { partial = none }

  on_message-Delivers :
      {opcode : ℕ} {whole : Bytes} {event : WsEvent}
      → Delivers opcode whole event
      → (r : Reader Pmd) (i : Round)
      → on_message inflate_message opcode (ok whole) r i ≡ done (ok event) r []
  unfolding on_message
  on_message-Delivers (as_text valid) r i = rw valid refl
  on_message-Delivers as_binary r i = refl

  event_loop_done :
      {result : Result WsEvent} {r' : Reader Pmd} {sent : List Bytes} (auto : Bool) (i : Round)
      (is : List Round) (r : Reader Pmd)
      → on_read inflate_message auto i.read r i ≡ done result r' sent
      → event_loop inflate_message auto (i ∷ is) r ≡ done result r' sent
  unfolding event_loop
  event_loop_done auto i is r e = rw e refl

  event_loop_again :
      {n : Next Pmd} {r' : Reader Pmd} (sent : List Bytes) (auto : Bool) (i : Round)
      (is : List Round) (r : Reader Pmd)
      → on_read inflate_message auto i.read r i ≡ again r' sent
      → event_loop inflate_message auto is r' ≡ n
      → event_loop inflate_message auto (i ∷ is) r ≡ prepend sent n
  unfolding event_loop
  event_loop_again sent auto i is r e rest = rw (e, rest) refl

  -- The steps of the rounds of `Rest`.
  on_last :
      {opcode : ℕ} {event : WsEvent} (auto : Bool) (buf payload : Bytes) (e : Result Bytes)
      (w : Option IoKind) (r : Reader Pmd)
      → Delivers opcode (buf ++ payload) event
      → length (buf ++ payload) ≤ max_payload_bytes
      → on_read inflate_message auto
          (ok (record { fin = true; rsv1 = false; opcode = opcode_cont; payload = payload }))
          (mid r opcode buf)
          (round true opcode_cont payload e w)
        ≡ done (ok event) (clear r) []
  unfolding on_read on_frame on_continuation on_fragment finish_event
  on_last auto buf payload e w r d within =
      rw (accumulate_within buf payload within)
        (on_message-Delivers d (clear r) (round true opcode_cont payload e w))

  on_more :
      (opcode : ℕ) (auto : Bool) (buf payload : Bytes) (e : Result Bytes) (w : Option IoKind)
      (r : Reader Pmd)
      → length (buf ++ payload) ≤ max_payload_bytes
      → on_read inflate_message auto
          (ok (record { fin = false; rsv1 = false; opcode = opcode_cont; payload = payload }))
          (mid r opcode buf)
          (round false opcode_cont payload e w)
        ≡ again (mid r opcode (buf ++ payload)) []
  unfolding on_read on_frame on_continuation on_fragment
  on_more opcode auto buf payload e w r within = rw (accumulate_within buf payload within) refl

  event_loop-Rest :
      {auto : Bool} {buf whole : Bytes} {is : List Round} {sent : List Bytes} {opcode : ℕ}
      {event : WsEvent} (r : Reader Pmd)
      → Rest auto buf is whole sent
      → Delivers opcode whole event
      → length whole ≤ max_payload_bytes
      → event_loop inflate_message auto is (mid r opcode buf) ≡ done (ok event) (clear r) sent
  unfolding on_read on_frame on_control on_ping send_pong surface
  event_loop-Rest {auto = auto} {buf = buf} {opcode = opcode} r (last payload e w) d within =
      event_loop_done auto (round true opcode_cont payload e w) [] (mid r opcode buf)
        (on_last auto buf payload e w r d within)
  event_loop-Rest {auto = auto} {buf = buf} {opcode = opcode} r (more {is = is} payload e w rest) d
        within =
      event_loop_again [] auto (round false opcode_cont payload e w) is (mid r opcode buf)
        (on_more opcode auto buf payload e w r (omega (arith, Rest-length rest, within)))
        (event_loop-Rest r rest d within)
  event_loop-Rest {buf = buf} {opcode = opcode} r
        (pinged {is = is} payload e frame built short rest) d within =
      event_loop_again (frame ∷ []) true (round true opcode_ping payload e none) is
        (mid r opcode buf) (rw (short_control opcode_ping payload short, built) refl)
        (event_loop-Rest r rest d within)
  event_loop-Rest {buf = buf} {opcode = opcode} r (ignored {is = is} payload e w short rest) d
        within =
      event_loop_again [] false (round true opcode_ping payload e w) is (mid r opcode buf)
        (rw (short_control opcode_ping payload short) refl) (event_loop-Rest r rest d within)
  event_loop-Rest {auto = auto} {buf = buf} {opcode = opcode} r
        (ponged {is = is} payload e w short rest) d within =
      event_loop_again [] auto (round true opcode_pong payload e w) is (mid r opcode buf)
        (rw (short_control opcode_pong payload short) refl) (event_loop-Rest r rest d within)

  on_first_lem :
      (auto : Bool) (opcode : ℕ) (buf : Bytes) (e : Result Bytes) (w : Option IoKind)
      (r : Reader Pmd)
      → r.partial ≡ none
      → (opcode == opcode_text || opcode == opcode_binary) ≡ true
      → leb 0x8 opcode ≡ false
      → on_read inflate_message auto
          (ok (record { fin = false; rsv1 = false; opcode = opcode; payload = buf }))
          r
          (round false opcode buf e w)
        ≡ again (mid r opcode buf) []
  unfolding on_read on_frame on_first
  on_first_lem auto opcode buf e w r idle data_opcode low = rw (low, data_opcode, idle) refl

  next_event_open :
      (auto : Bool) (is : List Round) (r : Reader Pmd)
      → r.recv_closed ≡ false
      → next_event inflate_message auto is r ≡ event_loop inflate_message auto is r
  unfolding next_event
  next_event_open auto is r opened = simp opened

  -- A text or binary message of one first frame and any rest, which has pings and pongs between its
  -- fragments, in a reader that is open and not in the middle of a message: if the whole payload is
  -- within the limit, and is UTF-8 for a text, then the call returns the event of the whole
  -- payload, the reader is again between messages, and what was sent is one pong for each ping, in
  -- order, if pongs are automatic, and else nothing.
  pub next_event-reassembly :
      {auto : Bool} {buf whole : Bytes} {is : List Round} {sent : List Bytes} {opcode : ℕ}
      {event : WsEvent} (r : Reader Pmd) (e : Result Bytes) (w : Option IoKind)
      → r.recv_closed ≡ false
      → r.partial ≡ none
      → Rest auto buf is whole sent
      → Delivers opcode whole event
      → length whole ≤ max_payload_bytes
      → next_event inflate_message auto (round false opcode buf e w ∷ is) r
        ≡ done (ok event) (clear r) sent
  next_event-reassembly {auto = auto} {buf = buf} {is = is} r e w opened idle rest (as_text valid)
        within =
      rw (next_event_open auto (round false opcode_text buf e w ∷ is) r opened) (
        event_loop_again [] auto (round false opcode_text buf e w) is r
          (on_first_lem auto opcode_text buf e w r idle refl refl)
          (event_loop-Rest r rest (as_text valid) within))
  next_event-reassembly {auto = auto} {buf = buf} {is = is} r e w opened idle rest as_binary
        within =
      rw (next_event_open auto (round false opcode_binary buf e w ∷ is) r opened) (
        event_loop_again [] auto (round false opcode_binary buf e w) is r
          (on_first_lem auto opcode_binary buf e w r idle refl refl)
          (event_loop-Rest r rest as_binary within))
