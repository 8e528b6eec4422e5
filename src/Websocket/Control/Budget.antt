-- ===== src/Websocket/Control/Budget.antt =====
-- src/websocket.rs: how many close frames the steps of `on_control` send.
use rsurl.Base.{
  ℕ, ◌+◌, ◌≤◌, ◌≡◌, refl, arith, Bool, true, false, Option, none, some, List, [], ◌∷◌, ◌++◌, get_or,
  ◌==◌, if◌then◌else◌, Bool-cases, inl, inr, IoKind, Result, ok, err, Error, ◌>>=◌,
}
use rsurl.Base.Bytes.{Bytes}
use rsurl.Websocket.Frame.{
  Frame, opcode_close, opcode_ping, opcode_pong, build_client_frame, build_client_frame_inner,
}
use rsurl.Websocket.Close.{
  CloseResult, close_ok, close_status, parse_close_payload, close_echo_payload, close_payload,
  bad_close_error,
}
use rsurl.Websocket.Control.{
  Reader, Round, Next, done, again, WsEvent, ping, pong, write_close, fail_with, on_close,
  handle_close, surface, send_pong, on_ping, on_control,
}

-- How many of the frames are close frames, FIN set.
unfoldable pub closes : List Bytes → ℕ
closes [] = 0
closes (f ∷ fs) = (if get_or f 0 0 == 0x88 then 1 else 0) + closes fs

abbrev pub flag : Bool → ℕ
flag false = 0
flag true = 1

-- From a state with `send_closed` as given, the frames sent have no close frame beyond the one that
-- sets `send_closed`.
unfoldable pub Budget : {Pmd : Type 0} → Bool → Next Pmd → Type 0
Budget before (again r sent) = closes sent + flag before ≤ flag r.send_closed
Budget before (done result r sent) = closes sent + flag before ≤ flag r.send_closed

closes_of : Result Bytes → ℕ
closes_of (err e) = 0
closes_of (ok f) = closes (f ∷ [])

pub closes-append : (xs ys : List Bytes) → closes (xs ++ ys) ≡ closes xs + closes ys
unfolding closes
closes-append [] ys = omega arith
closes-append (x ∷ xs) ys = ground (arith, closes-append xs ys)

closes_of_pong :
    (e : Result Bytes) (payload : Bytes) → closes_of (build_client_frame e opcode_pong payload) ≡ 0
unfolding closes_of closes build_client_frame build_client_frame_inner
closes_of_pong (err e) payload = refl
closes_of_pong (ok r) payload = refl

flag_le : (b : Bool) → flag b ≤ 1
flag_le true = omega arith
flag_le false = omega arith

pub closes-nil : closes [] ≡ 0
unfolding closes
closes-nil = refl

module _ {Pmd : Type 0} where
  closed-Budget :
      (result : Result WsEvent) (sent : List Bytes) (r : Reader Pmd)
      → closes sent ≤ 1
      → Budget r.send_closed (
          if r.send_closed
          then done result r []
          else done result (record r { send_closed = true }) sent)
  unfolding Budget closes
  closed-Budget result sent r one = elim (Bool-cases r.send_closed) [
    | inl e ↦ simp (e) (omega arith)
    | inr e ↦ simp (e) (omega (arith, one))
  ]

  write_close-Budget :
      (result : Result WsEvent) (frame : Result Bytes) (w : Option IoKind) (r : Reader Pmd)
      → Budget r.send_closed (write_close r frame w (done result))
  unfolding write_close Budget closes
  write_close-Budget result (err e) w r = omega arith
  write_close-Budget result (ok frame) none r = closed-Budget result (frame ∷ []) r (ground arith)
  write_close-Budget result (ok frame) (some e) r = closed-Budget result [] r (omega arith)

  pub fail_with-Budget :
      (status : ℕ) (e : Error) (r : Reader Pmd) (i : Round)
      → Budget r.send_closed (fail_with r status e i)
  unfolding fail_with
  fail_with-Budget status e r i =
      write_close-Budget (err e)
        (close_payload status [] >>= build_client_frame i.entropy opcode_close) i.written r

  on_close-Budget :
      (c : CloseResult) (r : Reader Pmd) (i : Round) → Budget r.send_closed (on_close c r i)
  unfolding on_close
  on_close-Budget (close_ok c) r i =
      write_close-Budget _ (build_client_frame i.entropy opcode_close (close_echo_payload c))
        i.written r
  on_close-Budget (close_status status) r i = fail_with-Budget status (bad_close_error status) r i

  handle_close-Budget :
      (payload : Bytes) (r : Reader Pmd) (i : Round)
      → Budget r.send_closed (handle_close payload r i)
  unfolding handle_close
  handle_close-Budget payload r i =
      on_close-Budget (parse_close_payload payload) (record r { recv_closed = true }) i

  surface-Budget :
      (event : WsEvent) (r : Reader Pmd) (sent : List Bytes)
      → closes sent ≡ 0
      → Budget r.send_closed (surface event r sent)
  unfolding surface Budget
  surface-Budget event r sent none_closes = ground (arith, none_closes)

  send_pong-Budget :
      (built : Result Bytes) (w : Option IoKind) (payload : Bytes) (r : Reader Pmd)
      → closes_of built ≡ 0
      → Budget r.send_closed (send_pong built w payload r)
  unfolding send_pong Budget closes closes_of
  send_pong-Budget (err e) w payload r h = omega arith
  send_pong-Budget (ok frame) (some e) payload r h = omega arith
  send_pong-Budget (ok frame) none payload r h = surface-Budget (ping payload) r (frame ∷ []) h

  pub if-Budget :
      (before b : Bool) (t e : Next Pmd)
      → Budget before t
      → Budget before e
      → Budget before (if b then t else e)
  if-Budget before true t e h k = h
  if-Budget before false t e h k = k

  pub return-Budget :
      (result : Result WsEvent) (r : Reader Pmd) → Budget r.send_closed (done result r [])
  unfolding Budget closes
  return-Budget result r = omega arith

  pub again-Budget :
      (r r' : Reader Pmd) → r'.send_closed ≡ r.send_closed → Budget r.send_closed (again r' [])
  unfolding Budget closes
  again-Budget r r' same = rw same (omega arith)

  pub on_control-Budget :
      (v : Result (Unit {0})) (auto : Bool) (f : Frame) (r : Reader Pmd) (i : Round)
      → Budget r.send_closed (on_control v auto f r i)
  unfolding on_control on_ping
  on_control-Budget (err e) auto f r i = return-Budget (err e) r
  on_control-Budget (ok _) auto f r i =
      if-Budget r.send_closed (f.opcode == opcode_ping) _ _
        (if-Budget r.send_closed auto _ _
          (send_pong-Budget (build_client_frame i.entropy opcode_pong f.payload) i.written f.payload
            r (closes_of_pong i.entropy f.payload))
          (surface-Budget (ping f.payload) r [] closes-nil))
        (if-Budget r.send_closed (f.opcode == opcode_pong) _ _
          (surface-Budget (pong f.payload) r [] closes-nil)
          (if-Budget r.send_closed (f.opcode == opcode_close) _ _
            (handle_close-Budget f.payload r i) (return-Budget _ r)))
