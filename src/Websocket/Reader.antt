-- ===== src/Websocket/Reader.antt =====
-- src/websocket.rs: the event loop of `WsReader`. The third-party inflater is a parameter, and so
-- is what the transport and the generator of random bytes answer in a round.
pub mod Reassembly
pub mod Closing
use rsurl.Base.{
  ℕ, Bool, true, not, ◌&&◌, ◌||◌, Option, none, some, List, [], ◌∷◌, leb, ◌==◌, if◌then◌else◌,
  Result, ok, err, bad, unexpected_eof, bad_response, fixed,
}
use rsurl.Base.Bytes.{Bytes}
use rsurl.Base.Utf8.{is_utf8}
use rsurl.Websocket.Close.{close_invalid_data, validate_control_frame, accumulate}
use rsurl.Websocket.Frame.{Frame, opcode_cont, opcode_text, opcode_binary}
use rsurl.Websocket.Control.{
  PartialMessage, Reader, Round, Next, again, done, resume, text, binary, close, lacks, fail_with,
  on_control,
}

module _ {Pmd : Type 0} (inflate_message : Pmd → Bytes → Result Bytes × Pmd) where
  -- The whole message, inflated or as it came.
  unfoldable pub on_message : ℕ → Result Bytes → Reader Pmd → Round → Next Pmd
  on_message opcode (err e) r i = done (err e) r []
  on_message opcode (ok payload) r i =
      if not (opcode == opcode_text)
      then done (ok (binary payload)) r []
      else if is_utf8 payload
      then done (ok (text payload)) r []
      else fail_with r close_invalid_data
          (bad_response (fixed "WS TEXT message payload is not valid UTF-8")) i

  unfoldable pub inflate_event : ℕ → Bytes → Option Pmd → Reader Pmd → Round → Next Pmd
  unfolding on_message
  inflate_event opcode payload none r i =
      done (bad "compressed WS message without negotiated permessage-deflate") r []
  inflate_event opcode payload (some pmd) r i =
      let inflated = inflate_message pmd payload in
      on_message opcode inflated.0 (record r { pmd = some inflated.1 }) i

  unfoldable pub finish_event : ℕ → Bytes → Bool → Reader Pmd → Round → Next Pmd
  unfolding inflate_event on_message
  finish_event opcode payload compressed r i =
      if compressed
      then inflate_event opcode payload r.pmd r i
      else on_message opcode (ok payload) r i

  unfoldable pub on_first : Frame → Option PartialMessage → Reader Pmd → Round → Next Pmd
  unfolding finish_event
  on_first f (some p) r i =
      done (bad "new data frame began while a fragmented message was in progress") r []
  on_first f none r i =
      if f.rsv1 && lacks r.pmd
      then done (bad "RSV1 set on a WS frame but permessage-deflate was not negotiated") r []
      else if f.fin
      then finish_event f.opcode f.payload f.rsv1 r i
      else again
          (record r {
            partial = some (record { opcode = f.opcode; compressed = f.rsv1; buf = f.payload });
          })
          []

  unfoldable pub on_fragment : Frame → PartialMessage → Result Bytes → Reader Pmd → Round → Next Pmd
  unfolding finish_event
  on_fragment f p (err e) r i = done (err e) r []
  on_fragment f p (ok buf) r i =
      if f.fin
      then finish_event p.opcode buf p.compressed (record r { partial = none }) i
      else again (record r { partial = some (record p { buf = buf }) }) []

  unfoldable pub on_continuation : Frame → Option PartialMessage → Reader Pmd → Round → Next Pmd
  unfolding on_fragment
  on_continuation f none r i = done (bad "continuation frame with no message in progress") r []
  on_continuation f (some p) r i =
      if f.rsv1
      then done (bad "RSV1 set on a WS continuation frame") r []
      else on_fragment f p (accumulate p.buf f.payload) r i

  unfoldable pub on_frame : Bool → Frame → Reader Pmd → Round → Next Pmd
  unfolding on_control on_first on_continuation
  on_frame auto f r i =
      if leb 0x8 f.opcode
      then on_control (validate_control_frame f) auto f r i
      else if f.opcode == opcode_text || f.opcode == opcode_binary
      then on_first f r.partial r i
      else if f.opcode == opcode_cont
      then on_continuation f r.partial r i
      else done (bad "unknown WS opcode") r []

  -- `next_frame`: the end of the stream also closes the receive side.
  unfoldable pub on_read : Bool → Result Frame → Reader Pmd → Round → Next Pmd
  unfolding on_frame
  on_read auto (ok f) r i = on_frame auto f r i
  on_read auto (err unexpected_eof) r i =
      done (err unexpected_eof) (record r { recv_closed = true }) []
  on_read auto (err e) r i = done (err e) r []

  -- The loop over the rounds; `again` at the end means that it waits for more.
  unfoldable pub event_loop : Bool → List Round → Reader Pmd → Next Pmd
  event_loop auto [] r = again r []
  event_loop auto (i ∷ is) r = resume (λ r'. event_loop auto is r') (on_read auto i.read r i)

  unfoldable pub next_event : Bool → List Round → Reader Pmd → Next Pmd
  unfolding event_loop
  next_event auto is r = if r.recv_closed then done (ok (close none)) r [] else event_loop auto is r
