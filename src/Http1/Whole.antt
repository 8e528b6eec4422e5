-- ===== src/Http1/Whole.antt =====
-- src/proto/http1.rs: a whole response, from its head to the end of its body, in each framing.
use rsurl.Base.{
  ℕ, ◌+◌, ◌-◌, ◌≤◌, ◌<◌, true, false, some, List, [], ◌∷◌, ◌++◌, append-nil, length, length-append,
  take-length_append, drop-length_append, leb, ◌==◌, ok, unexpected_eof, ◌≡◌, refl, sym, ap, ◌∙◌,
  le→ltb, arith,
}
use rsurl.Base.Bytes.{Bytes}
use rsurl.Base.Text.{to_upper}
use rsurl.Http1.Bounds.{Resting, finish_buffered}
use rsurl.Http1.Bounds.Calls.{then_call}
use rsurl.Http1.Decode.{
  Chunk, AreChunks, IsLast, AreTrailers, trailer_wire, chunked_wire, contents, completed,
  advance-chunked_wire,
}
use rsurl.Http1.Exchange.{
  find_header_end, on_mode, on_parsed, on_head, on_length, on_eof_body, enter, step_in,
  handle_input, handle_eof,
}
use rsurl.Http1.Fuel.{resume}
use rsurl.Http1.Head.{
  Head, BodyMode, sized, chunks, until_eof, parse_head, body_mode, is_interim_status,
  max_body_bytes,
}
use rsurl.Http1.Machine.{
  response, in_head, in_length, in_eof, finished, Exchange, again, pause, fail, build, finish,
  respond,
}
use rsurl.Http1.Resume.{extend, from_round}
use rsurl.Http1.Resume.Pieces.{handle_input_buffered}
use rsurl.Http1.Scan.{find_header_end-append}

-- A block that ends with the first blank line in it, and the final head that it is.
abbrev pub IsHead : Bytes → Head → Type 0
IsHead block h =
    (find_header_end block ≡ some (length block))
    × (parse_head block ≡ ok h)
    × (is_interim_status h.status ≡ false)

pub build-Resting : (method request : Bytes) → Resting (build method request false)
unfolding build
build-Resting method request = (refl, (refl, refl, refl), tt)

-- `finish`, and then the loop is over.
finished_now :
    (s : Exchange) (h : Head)
    → s.streaming ≡ false
    → s.head ≡ some h
    → resume (finish s)
      ≡ pause
          (record s { events = s.events ++ (response h s.body ∷ []); body = []; state = finished })
unfolding respond step_in
finished_now s h buffered known =
    ap resume (finish_buffered s buffered ∙ ap (λ o. respond o s) known)
    ∙ sym (
        from_round finished
          (record s { events = s.events ++ (response h s.body ∷ []); body = []; state = finished })
          refl)

-- Behind the head.
module _ (method request block : Bytes) (h : Head) (is : IsHead block h) where
  abbrev pub headed : Bytes → Exchange
  headed rest = record (build method request false) { head = some h; rx = rest }

  after_head :
      (m : BodyMode) (rest : Bytes)
      → body_mode (to_upper method) h false ≡ ok m
      → handle_input (block ++ rest) (build method request false) ≡ resume (enter m (headed rest))
  unfolding build step_in on_head on_parsed on_mode
  after_head m rest mode =
      let s = build method request false in
      let wire = block ++ rest in
      let (ends, parsed, final) = is in
      let parts : on_head (find_header_end wire) (extend wire s) ≡ enter m (headed rest) =
        rw
          (
            find_header_end-append block rest (length block) ends,
            take-length_append block rest,
            drop-length_append block rest,
            parsed,
            final,
            mode,
          )
          refl in
      handle_input_buffered wire s (build-Resting method request) refl
      ∙ sym (from_round in_head (extend wire s) refl)
      ∙ ap resume parts

  -- In a buffered exchange, a response with the head `h` and a body in chunks of no more than
  -- `MAX_BODY_BYTES` together, however its sizes are written and with whatever trailer lines of no
  -- more than `MAX_HEADER_BYTES` together, is queued whole as soon as its blank last line is there:
  -- its head, the bytes of its chunks in order, and nothing of what follows, which is left unread.
  pub handle_input-chunked_response :
      (parts : List Chunk) (last : Bytes) (trailers : List Bytes) (rest : Bytes)
      → body_mode (to_upper method) h false ≡ ok chunks
      → AreChunks parts
      → IsLast last
      → AreTrailers 0 trailers
      → length (contents parts) ≤ max_body_bytes
      → handle_input
          (block ++ chunked_wire parts (last ++ (10 ∷ trailer_wire trailers rest)))
          (build method request false)
        ≡ pause (completed (headed []) h rest (contents parts))
  unfolding enter build
  handle_input-chunked_response parts last trailers rest mode are is_last trailing small =
      let wire = chunked_wire parts (last ++ (10 ∷ trailer_wire trailers rest)) in
      after_head chunks wire mode
      ∙ advance-chunked_wire (headed wire) h parts last trailers rest [] refl refl are is_last
          trailing (omega (arith, small))

  enters :
      (n : ℕ) (rest : Bytes)
      → 0 < n
      → enter (sized n) (headed rest) ≡ again (record (headed rest) { state = in_length n })
  unfolding enter
  enters n rest some_left =
      let filled : (n == 0) ≡ false = ground (arith, some_left) in rw filled refl

  on_length_whole :
      (body rest : Bytes)
      → on_length (length body) (record (headed (body ++ rest)) { state = in_length (length body) })
        ≡ finish (record (headed rest) {
          state = in_length (length body);
          body = body;
          body_total = length body;
        })
  unfolding on_length build
  on_length_whole body rest =
      let k = length body in
      let fits : leb k (0 + length (body ++ rest)) ≡ true =
        ground (arith, length-append body rest) in
      let need : k - 0 ≡ k = omega arith in
      let total : 0 + k ≡ k = omega arith in
      rw (fits, need, total, take-length_append body rest, drop-length_append body rest) refl

  -- In a buffered exchange, a response whose head `h` gives the length of its body is queued, with
  -- that body, as soon as so many bytes are there; what follows is left unread.
  pub handle_input-sized_response :
      (body rest : Bytes)
      → body_mode (to_upper method) h false ≡ ok (sized (length body))
      → handle_input (block ++ (body ++ rest)) (build method request false)
        ≡ pause (completed (headed []) h rest body)
  unfolding enter build step_in
  handle_input-sized_response [] rest mode =
      after_head (sized 0) rest mode ∙ finished_now (headed rest) h refl refl
  handle_input-sized_response (b ∷ bs) rest mode =
      let body = b ∷ bs in
      let s = record (headed (body ++ rest)) { state = in_length (length body) } in
      after_head (sized (length body)) (body ++ rest) mode
      ∙ ap resume (enters (length body) (body ++ rest) (omega arith))
      ∙ sym (from_round (in_length (length body)) s refl)
      ∙ ap resume (on_length_whole body rest)
      ∙ finished_now
          (record (headed rest) {
            state = in_length (length body);
            body = body;
            body_total = length body;
          })
          h refl refl

  on_length_short :
      (n : ℕ) (part : Bytes)
      → length part < n
      → on_length n (record (headed part) { state = in_length n })
        ≡ pause (record (headed []) { state = in_length n; body = part; body_total = length part })
  unfolding on_length build
  on_length_short n part short =
      let more : leb n (0 + length part) ≡ false = ground (arith, short) in
      let total : 0 + length part ≡ length part = omega arith in rw (more, total) refl

  -- In a buffered exchange, where the connection closes before the body has the length `n` that the
  -- head gives, the exchange fails with `UnexpectedEof`.
  pub handle_eof-sized_response :
      (n : ℕ) (part : Bytes)
      → body_mode (to_upper method) h false ≡ ok (sized n)
      → length part < n
      → then_call handle_eof (handle_input (block ++ part) (build method request false))
        ≡ fail unexpected_eof
  unfolding enter build step_in handle_eof
  handle_eof-sized_response n part mode short =
      let s = record (headed part) { state = in_length n } in
      ap (then_call handle_eof) (
        after_head (sized n) part mode
        ∙ ap resume (enters n part (omega (arith, short)))
        ∙ sym (from_round (in_length n) s refl)
        ∙ ap resume (on_length_short n part short))

  on_eof_body_whole :
      (body : Bytes)
      → length body ≤ max_body_bytes
      → on_eof_body (record (headed body) { state = in_eof })
        ≡ pause (record (headed []) { state = in_eof; body = body; body_total = length body })
  unfolding on_eof_body build
  on_eof_body_whole body small =
      let total : 0 + length body ≡ length body = omega arith in
      rw (total, le→ltb max_body_bytes (length body) small) refl

  -- In a buffered exchange, a response whose body has no framing and is no longer than
  -- `MAX_BODY_BYTES` is queued, with all the bytes behind the head as its body, where the
  -- connection closes.
  pub handle_eof-until_eof :
      (body : Bytes)
      → body_mode (to_upper method) h false ≡ ok until_eof
      → length body ≤ max_body_bytes
      → then_call handle_eof (handle_input (block ++ body) (build method request false))
        ≡ pause (completed (headed []) h [] body)
  unfolding enter build step_in handle_eof finish respond
  handle_eof-until_eof body mode small =
      let s = record (headed body) { state = in_eof } in
      ap (then_call handle_eof) (
        after_head until_eof body mode
        ∙ sym (from_round in_eof s refl)
        ∙ ap resume (on_eof_body_whole body small))
      ∙ rw (append-nil body) refl
