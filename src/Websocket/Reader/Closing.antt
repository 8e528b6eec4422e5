-- ===== src/Websocket/Reader/Closing.antt =====
-- src/websocket.rs: what the read half sends of the closing handshake.
use rsurl.Base.{
  ℕ, refl, arith, Bool, true, not, ◌&&◌, ◌||◌, Option, none, some, List, [], ◌∷◌, leb, ◌==◌, Result,
  ok, err, unexpected_eof,
}
use rsurl.Base.Bytes.{Bytes}
use rsurl.Base.Utf8.{is_utf8}
use rsurl.Websocket.Frame.{Frame, opcode_text, opcode_binary, opcode_cont}
use rsurl.Websocket.Close.{validate_control_frame, accumulate}
use rsurl.Websocket.Control.{
  Reader, Round, Next, done, again, prepend, resume, PartialMessage, lacks,
}
use rsurl.Websocket.Reader.{
  on_message, inflate_event, finish_event, on_first, on_fragment, on_continuation, on_frame,
  on_read, event_loop, next_event,
}
use rsurl.Websocket.Control.Budget.{
  Budget, closes-append, fail_with-Budget, if-Budget, return-Budget, again-Budget,
  on_control-Budget,
}

module _ {Pmd : Type 0} (inflate_message : Pmd → Bytes → Result Bytes × Pmd) where
  on_message-Budget :
      (opcode : ℕ) (payload : Result Bytes) (r : Reader Pmd) (i : Round)
      → Budget r.send_closed (on_message inflate_message opcode payload r i)
  unfolding on_message
  on_message-Budget opcode (err e) r i = return-Budget (err e) r
  on_message-Budget opcode (ok payload) r i =
      if-Budget r.send_closed (not (opcode == opcode_text)) _ _ (return-Budget _ r) (
        if-Budget r.send_closed (is_utf8 payload) _ _ (return-Budget _ r)
          (fail_with-Budget _ _ r i))

  inflate_event-Budget :
      (opcode : ℕ) (payload : Bytes) (p : Option Pmd) (r : Reader Pmd) (i : Round)
      → Budget r.send_closed (inflate_event inflate_message opcode payload p r i)
  unfolding inflate_event
  inflate_event-Budget opcode payload none r i = return-Budget _ r
  inflate_event-Budget opcode payload (some p) r i =
      let inflated = inflate_message p payload in
      on_message-Budget opcode inflated.0 (record r { pmd = some inflated.1 }) i

  finish_event-Budget :
      (opcode : ℕ) (payload : Bytes) (compressed : Bool) (r : Reader Pmd) (i : Round)
      → Budget r.send_closed (finish_event inflate_message opcode payload compressed r i)
  unfolding finish_event
  finish_event-Budget opcode payload compressed r i =
      if-Budget r.send_closed compressed _ _ (inflate_event-Budget opcode payload r.pmd r i)
        (on_message-Budget opcode (ok payload) r i)

  on_first-Budget :
      (f : Frame) (p : Option PartialMessage) (r : Reader Pmd) (i : Round)
      → Budget r.send_closed (on_first inflate_message f p r i)
  unfolding on_first
  on_first-Budget f (some p) r i = return-Budget _ r
  on_first-Budget f none r i =
      if-Budget r.send_closed (f.rsv1 && lacks r.pmd) _ _ (return-Budget _ r) (
        if-Budget r.send_closed f.fin _ _ (finish_event-Budget f.opcode f.payload f.rsv1 r i)
          (again-Budget r _ refl))

  on_fragment-Budget :
      (f : Frame) (p : PartialMessage) (a : Result Bytes) (r : Reader Pmd) (i : Round)
      → Budget r.send_closed (on_fragment inflate_message f p a r i)
  unfolding on_fragment
  on_fragment-Budget f p (err e) r i = return-Budget _ r
  on_fragment-Budget f p (ok buf) r i =
      if-Budget r.send_closed f.fin _ _
        (finish_event-Budget p.opcode buf p.compressed (record r { partial = none }) i)
        (again-Budget r _ refl)

  on_continuation-Budget :
      (f : Frame) (p : Option PartialMessage) (r : Reader Pmd) (i : Round)
      → Budget r.send_closed (on_continuation inflate_message f p r i)
  unfolding on_continuation
  on_continuation-Budget f none r i = return-Budget _ r
  on_continuation-Budget f (some p) r i =
      if-Budget r.send_closed f.rsv1 _ _ (return-Budget _ r)
        (on_fragment-Budget f p (accumulate p.buf f.payload) r i)

  on_read-Budget :
      (auto : Bool) (read : Result Frame) (r : Reader Pmd) (i : Round)
      → Budget r.send_closed (on_read inflate_message auto read r i)
  unfolding on_read on_frame
  on_read-Budget auto (ok f) r i =
      if-Budget r.send_closed (leb 0x8 f.opcode) _ _
        (on_control-Budget (validate_control_frame f) auto f r i)
        (if-Budget r.send_closed (f.opcode == opcode_text || f.opcode == opcode_binary) _ _
          (on_first-Budget f r.partial r i)
          (if-Budget r.send_closed (f.opcode == opcode_cont) _ _
            (on_continuation-Budget f r.partial r i) (return-Budget _ r)))
  on_read-Budget auto (err unexpected_eof) r i = return-Budget _ (record r { recv_closed = true })
  on_read-Budget auto (err e) r i = return-Budget _ r

  prepend-Budget :
      (before : Bool) (r : Reader Pmd) (sent : List Bytes) (n : Next Pmd)
      → Budget before (again r sent)
      → Budget r.send_closed n
      → Budget before (prepend sent n)
  unfolding Budget
  prepend-Budget before r sent (again r' more) h k = omega (arith, closes-append sent more, h, k)
  prepend-Budget before r sent (done result r' more) h k =
      omega (arith, closes-append sent more, h, k)

  resume-Budget :
      (before : Bool) (loop : Reader Pmd → Next Pmd) (n : Next Pmd)
      → ((r : Reader Pmd) → Budget r.send_closed (loop r))
      → Budget before n
      → Budget before (resume loop n)
  resume-Budget before loop (done result r sent) h b = b
  resume-Budget before loop (again r sent) h b = prepend-Budget before r sent (loop r) b (h r)

  event_loop-Budget :
      (auto : Bool) (is : List Round) (r : Reader Pmd)
      → Budget r.send_closed (event_loop inflate_message auto is r)
  unfolding event_loop
  event_loop-Budget auto [] r = again-Budget r r refl
  event_loop-Budget auto (i ∷ is) r =
      resume-Budget r.send_closed (λ r'. event_loop inflate_message auto is r') _
        (λ r'. event_loop-Budget auto is r') (on_read-Budget auto i.read r i)

  -- Whatever the peer and the transport do, a call of `next_event` sends at most one close frame,
  -- and none if the connection had sent one already; `send_closed` is set when one is sent, and is
  -- never cleared.
  pub next_event-Budget :
      (auto : Bool) (is : List Round) (r : Reader Pmd)
      → Budget r.send_closed (next_event inflate_message auto is r)
  unfolding next_event
  next_event-Budget auto is r =
      if-Budget r.send_closed r.recv_closed _ _ (return-Budget _ r) (event_loop-Budget auto is r)
