-- ===== src/Websocket/Control.antt =====
-- src/websocket.rs: the state of `WsReader`, and what its event loop does with a control frame.
pub mod Budget
use rsurl.Base.{
  ℕ, Bool, true, false, Option, none, some, List, [], ◌∷◌, ◌++◌, ◌==◌, if◌then◌else◌, IoKind,
  Result, ok, err, bad, ◌>>=◌, Error, io,
}
use rsurl.Base.Bytes.{Bytes}
use rsurl.Websocket.Close.{
  WsClose, CloseResult, close_ok, close_status, bad_close_error, parse_close_payload,
  close_echo_payload, close_payload,
}
use rsurl.Websocket.Frame.{Frame, opcode_close, opcode_ping, opcode_pong, build_client_frame}

pub record PartialMessage : Type 0 where
  pub opcode : ℕ
  pub compressed : Bool
  pub buf : Bytes

pub data WsEvent : Type 0 where
  text : Bytes → WsEvent
  binary : Bytes → WsEvent
  ping : Bytes → WsEvent
  pong : Bytes → WsEvent
  close : Option WsClose → WsEvent

-- What one round meets: the answer of `read_frame`, the random bytes, and the result of the write
-- of the round, if it makes one.
pub record Round : Type 0 where
  pub read : Result Frame
  pub entropy : Result Bytes
  pub written : Option IoKind

abbrev pub lacks : {A : Type 0} → Option A → Bool
lacks none = true
lacks (some a) = false

abbrev is_mid_message : Option PartialMessage → Bool
is_mid_message none = false
is_mid_message (some p) = true

-- The state of `WsReader`, without the transport; `send_closed` is shared with the writer.
pub record Reader (Pmd : Type 0) : Type 0 where
  pub partial : Option PartialMessage
  pub pmd : Option Pmd
  pub auto_pong : Bool
  pub send_closed : Bool
  pub recv_closed : Bool

-- The end of a round: the loop goes on, or `next_event` returns. The last part is what was written.
pub data Next (Pmd : Type 0) : Type 0 where
  again : Reader Pmd → List Bytes → Next Pmd
  done : Result WsEvent → Reader Pmd → List Bytes → Next Pmd

abbrev written_frame : Option IoKind → Bytes → List Bytes
written_frame none frame = frame ∷ []
written_frame (some e) frame = []

abbrev pub prepend : {Pmd : Type 0} → List Bytes → Next Pmd → Next Pmd
prepend sent (again r more) = again r (sent ++ more)
prepend sent (done result r more) = done result r (sent ++ more)

-- Go on with the loop, if the round did not end it.
abbrev pub resume : {Pmd : Type 0} → (Reader Pmd → Next Pmd) → Next Pmd → Next Pmd
resume loop (done result r sent) = done result r sent
resume loop (again r sent) = prepend sent (loop r)

-- `WsTransport::write_close`, whose failure is ignored by the callers here.
unfoldable pub write_close :
    {Pmd : Type 0}
    → Reader Pmd
    → Result Bytes
    → Option IoKind
    → (Reader Pmd → List Bytes → Next Pmd)
    → Next Pmd
write_close r (err e) written k = k r []
write_close r (ok frame) written k =
    if r.send_closed
    then k r []
    else k (record r { send_closed = true }) (written_frame written frame)

module _ {Pmd : Type 0} where
  -- `fail`: close with a status, and return the error.
  unfoldable pub fail_with : Reader Pmd → ℕ → Error → Round → Next Pmd
  unfolding write_close
  fail_with r status e i =
      write_close r (close_payload status [] >>= build_client_frame i.entropy opcode_close)
        i.written (done (err e))

  unfoldable pub on_close : CloseResult → Reader Pmd → Round → Next Pmd
  unfolding write_close fail_with
  on_close (close_ok c) r i =
      write_close r (build_client_frame i.entropy opcode_close (close_echo_payload c)) i.written
        (done (ok (close c)))
  on_close (close_status status) r i = fail_with r status (bad_close_error status) i

  unfoldable pub handle_close : Bytes → Reader Pmd → Round → Next Pmd
  unfolding on_close
  handle_close payload r i =
      on_close (parse_close_payload payload) (record r { recv_closed = true }) i

  -- In the middle of a message a ping or a pong is not surfaced.
  unfoldable pub surface : WsEvent → Reader Pmd → List Bytes → Next Pmd
  surface event r sent = if is_mid_message r.partial then again r sent else done (ok event) r sent

  unfoldable pub send_pong : Result Bytes → Option IoKind → Bytes → Reader Pmd → Next Pmd
  unfolding surface
  send_pong (err e) written payload r = done (err e) r []
  send_pong (ok frame) (some e) payload r = done (err (io e)) r []
  send_pong (ok frame) none payload r = surface (ping payload) r (frame ∷ [])

  unfoldable pub on_ping : Bool → Bytes → Reader Pmd → Round → Next Pmd
  unfolding send_pong
  on_ping auto payload r i =
      if auto
      then send_pong (build_client_frame i.entropy opcode_pong payload) i.written payload r
      else surface (ping payload) r []

  unfoldable pub on_control : Result (Unit {0}) → Bool → Frame → Reader Pmd → Round → Next Pmd
  unfolding on_ping handle_close surface
  on_control (err e) auto f r i = done (err e) r []
  on_control (ok _) auto f r i =
      if f.opcode == opcode_ping
      then on_ping auto f.payload r i
      else if f.opcode == opcode_pong
      then surface (pong f.payload) r []
      else if f.opcode == opcode_close
      then handle_close f.payload r i
      else done (bad "unknown WS control opcode") r []
