-- ===== src/Http1/Exchange.antt =====
-- src/proto/http1.rs: `ClientExchange`. A round of the loop in `advance`, or of the loop in
-- `advance_chunked` where a `continue` is the next round, is a `step`.
use rsurl.Base.{
  ℕ, zero, suc, ◌+◌, ◌-◌, Bool, true, false, not, ◌&&◌, Option, none, some, List, [], ◌∷◌, ◌++◌,
  length, take, drop, ltb, leb, ◌==◌, if◌then◌else◌, Result, ok, err, unexpected_eof,
}
use rsurl.Base.Bytes.{Bytes}
use rsurl.Base.Text.{is_empty}
use rsurl.Http1.Chunked.{advance_chunked}
use rsurl.Http1.Head.{
  Head, BodyMode, no_body, sized, chunks, until_eof, parse_head, body_mode, is_interim_status,
  max_header_bytes, max_body_bytes,
}
use rsurl.Http1.Machine.{
  Event, State, in_head, in_length, in_chunks, in_eof, finished, Exchange, max_interim_responses,
  Step, again, pause, fail, panicked, fault, emit_streaming, finish, suc_some,
}

abbrev pub eol_follows : Bytes → Bool
eol_follows (a ∷ b ∷ rest) = a == 13 && b == 10
eol_follows _ = false

-- The offset behind the blank line that ends the header block.
unfoldable pub find_header_end : Bytes → Option ℕ
find_header_end [] = none
find_header_end (a ∷ []) = none
find_header_end (a ∷ b ∷ rest) =
    if a == 10 && b == 10
    then some 2
    else if (a == 13 && b == 10) && eol_follows rest
    then some 4
    else suc_some (find_header_end (b ∷ rest))

unfoldable pub enter : BodyMode → Exchange → Step
enter no_body s = finish s
enter (sized n) s = if n == 0 then finish s else again (record s { state = in_length n })
enter chunks s = again (record s {
  state =
      in_chunks
        (record { remaining = 0; crlf_pending = false; in_trailers = false; trailer_bytes = 0 });
})
enter until_eof s = again (record s { state = in_eof })

unfoldable pub on_mode : Head → Result BodyMode → Exchange → Step
unfolding enter
on_mode h (err e) s = fail e
on_mode h (ok mode) s = enter mode (record s { head = some h })

unfoldable pub on_parsed : Result Head → Exchange → Step
unfolding on_mode
on_parsed (err e) s = fail e
on_parsed (ok h) s =
    if is_interim_status h.status
    then if ltb max_interim_responses (s.interim + 1)
      then fault "too many interim (1xx) responses"
      else again (record s { interim = s.interim + 1 })
    else on_mode h (body_mode s.method h s.streaming) s

unfoldable pub on_head : Option ℕ → Exchange → Step
unfolding on_parsed
on_head none s =
    if ltb max_header_bytes (length s.rx) then fault "headers exceed 64 KiB" else pause s
on_head (some end) s = on_parsed (parse_head (take end s.rx)) (record s { rx = drop end s.rx })

unfoldable pub on_length : ℕ → Exchange → Step
unfolding finish
on_length n s =
    if leb n (s.body_total + length s.rx)
    then finish (record s {
      body = s.body ++ take (n - s.body_total) s.rx;
      rx = drop (n - s.body_total) s.rx;
      body_total = s.body_total + (n - s.body_total);
    })
    else pause
        (record s { body = s.body ++ s.rx; rx = []; body_total = s.body_total + length s.rx })

unfoldable pub on_eof_body : Exchange → Step
on_eof_body s =
    if not s.streaming && ltb max_body_bytes (s.body_total + length s.rx)
    then fault "body too large"
    else pause
        (record s { body = s.body ++ s.rx; rx = []; body_total = s.body_total + length s.rx })

unfoldable pub step_in : State → Exchange → Step
unfolding on_head on_length advance_chunked on_eof_body
step_in in_head s = on_head (find_header_end s.rx) s
step_in (in_length n) s = on_length n s
step_in (in_chunks cs) s = advance_chunked cs s
step_in in_eof s = on_eof_body s
step_in finished s = pause s

unfoldable pub step : Exchange → Step
unfolding step_in
step s = step_in s.state s

-- The loop, with fuel; running out of it would leave it at `again`.
unfoldable pub run : ℕ → Exchange → Step
run zero s = again s
run (suc fuel) s = elim (step s) [
  | again s' ↦ run fuel s'
  | pause s' ↦ pause s'
  | fail e ↦ fail e
  | panicked ↦ panicked
]

-- Each round takes a byte, or the last one finishes: this is enough.
unfoldable pub advance : Exchange → Step
unfolding run
advance s = run (suc (suc (length s.rx))) s

abbrev pub emit_if_streaming : Step → Step
emit_if_streaming (pause s) = pause (if s.streaming then emit_streaming s else s)
emit_if_streaming (again s) = again s
emit_if_streaming (fail e) = fail e
emit_if_streaming panicked = panicked

abbrev pub is_done : State → Bool
is_done finished = true
is_done _ = false

-- `handle_input`, with the count of bytes consumed left out: all of them, or none if it is done.
unfoldable pub handle_input : Bytes → Exchange → Step
unfolding advance emit_streaming
handle_input wire s =
    if is_done s.state
    then pause s
    else emit_if_streaming (advance (record s { rx = s.rx ++ wire }))

abbrev pub settle : Step → Step
settle (again s) = pause s
settle (pause s) = pause s
settle (fail e) = fail e
settle panicked = panicked

unfoldable pub eof_in : State → Exchange → Step
unfolding finish
eof_in in_eof s = settle (finish (record s { body = s.body ++ s.rx; rx = [] }))
eof_in finished s = pause s
eof_in _ s = fail unexpected_eof

unfoldable pub handle_eof : Exchange → Step
unfolding eof_in
handle_eof s = eof_in s.state s

-- Appends to `out`, if there is something left to send.
unfoldable pub poll_transmit : Bytes → Exchange → Bool × Bytes × Exchange
poll_transmit out s =
    if is_empty s.out then (false, out, s) else (true, out ++ s.out, record s { out = [] })

abbrev pub pop_front : List Event → Exchange → Option Event × Exchange
pop_front [] s = (none, s)
pop_front (e ∷ events) s = (some e, record s { events = events })

unfoldable pub poll_event : Exchange → Option Event × Exchange
poll_event s = pop_front s.events s

abbrev no_events : List Event → Bool
no_events [] = true
no_events (e ∷ events) = false

unfoldable pub is_finished : Exchange → Bool
is_finished s = is_done s.state && no_events s.events
