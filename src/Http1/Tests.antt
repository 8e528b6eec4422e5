-- ===== src/Http1/Tests.antt =====
-- Responses as servers send them.
use rsurl.Base.{true, false, some, List, [], ◌∷◌, ◌++◌, ok, unexpected_eof, ◌≡◌, ◌↔◌, refl, arith}
use rsurl.Base.Bytes.{Bytes, codes}
use rsurl.Base.Text.{
  to_upper, split_once, trim_end_matches, starts_with, parse_unsigned, trim, eq_ignore_case, split,
  lossy, hex_from,
}
use rsurl.Http1.Bounds.Calls.{input, eof, poll, drive, then_call, drive-Settled}
use rsurl.Http1.Bounds.Input.{Settled}
use rsurl.Http1.Chunked.{find_newline}
use rsurl.Http1.Decode.{
  Chunk, AreChunks, IsLast, AreTrailers, trailer_wire, chunked_wire, completed,
}
use rsurl.Http1.Exchange.{find_header_end, handle_input, handle_eof, run, step, advance, is_done}
use rsurl.Http1.Framing.{body_mode-body_is_close_delimited}
use rsurl.Http1.Fuel.{Returned, run-Returned}
use rsurl.Http1.Head.{
  Head, sized, chunks, until_eof, parse_head, body_mode, parse_chunk_size, body_is_close_delimited,
  is_interim_status,
}
use rsurl.Http1.Machine.{response, finished, finish, respond, Exchange, pause, fail, build}
use rsurl.Http1.Resume.Pieces.{feed, join, feed-join}
use rsurl.Http1.Resume.{extend}
use rsurl.Http1.Whole.{
  IsHead, build-Resting, headed, handle_input-chunked_response, handle_input-sized_response,
  handle_eof-sized_response, handle_eof-until_eof,
}

abbrev get : Bytes
get = codes "GET"

-- "HTTP/1.1 200 OK", CR LF.
abbrev status_line : Bytes
status_line = codes "HTTP/1.1 200 OK" ++ (13 ∷ 10 ∷ [])

abbrev sized_block : Bytes
sized_block = status_line ++ (codes "Content-Length: 3" ++ (13 ∷ 10 ∷ 13 ∷ 10 ∷ []))

abbrev ok_head : List (Bytes × Bytes) → Head
ok_head headers = record {
  status = 200;
  reason = codes "OK";
  version = codes "HTTP/1.1";
  headers = headers;
}

abbrev sized_head : Head
sized_head = ok_head ((codes "Content-Length", codes "3") ∷ [])

sized_IsHead : IsHead sized_block sized_head
unfolding find_header_end parse_head split_once trim_end_matches starts_with parse_unsigned trim
    is_interim_status
sized_IsHead = (refl, refl, refl)

sized_mode_get : body_mode (to_upper get) sized_head false ≡ ok (sized 3)
unfolding body_mode eq_ignore_case to_upper split trim parse_unsigned
sized_mode_get = refl

handle_input-sized_response_example :
    handle_input (sized_block ++ (codes "abc" ++ codes "HTTP")) (build get [] false)
    ≡ pause (
        completed
          (headed get [] sized_block sized_head sized_IsHead [])
          sized_head
          (codes "HTTP")
          (codes "abc"))
handle_input-sized_response_example =
    handle_input-sized_response get [] sized_block sized_head sized_IsHead (codes "abc")
      (codes "HTTP") sized_mode_get

handle_eof-sized_response_example :
    then_call handle_eof (handle_input (sized_block ++ codes "ab") (build get [] false))
    ≡ fail unexpected_eof
handle_eof-sized_response_example =
    handle_eof-sized_response get [] sized_block sized_head sized_IsHead 3 (codes "ab")
      sized_mode_get (omega arith)

abbrev chunked_block : Bytes
chunked_block = status_line ++ (codes "Transfer-Encoding: chunked" ++ (13 ∷ 10 ∷ 13 ∷ 10 ∷ []))

abbrev chunked_head : Head
chunked_head = ok_head ((codes "Transfer-Encoding", codes "chunked") ∷ [])

chunked_IsHead : IsHead chunked_block chunked_head
unfolding find_header_end parse_head split_once trim_end_matches starts_with parse_unsigned trim
    is_interim_status
chunked_IsHead = (refl, refl, refl)

chunked_mode_get : body_mode (to_upper get) chunked_head false ≡ ok chunks
unfolding body_mode eq_ignore_case to_upper split trim parse_unsigned
chunked_mode_get = refl

abbrev two_chunks : List Chunk
two_chunks =
    (record { size_line = codes "3;ext" ++ (13 ∷ []); content = codes "abc" })
    ∷ (record { size_line = codes "02"; content = codes "de" })
    ∷ []

two_chunks-AreChunks : AreChunks two_chunks
unfolding find_newline parse_chunk_size trim trim_end_matches split lossy hex_from
two_chunks-AreChunks = ((refl, refl, omega arith), ((refl, refl, omega arith), tt))

end_line-IsLast : IsLast (48 ∷ 13 ∷ [])
unfolding find_newline parse_chunk_size trim trim_end_matches split lossy hex_from
end_line-IsLast = (refl, refl)

one-AreTrailers : AreTrailers 0 ((codes "X: y" ++ (13 ∷ [])) ∷ [])
unfolding find_newline trim_end_matches
one-AreTrailers = (refl, refl, omega arith, tt)

handle_input-chunked_response_example :
    handle_input
      (chunked_block
        ++ chunked_wire two_chunks (
            (48 ∷ 13 ∷ [])
            ++ (10 ∷ trailer_wire ((codes "X: y" ++ (13 ∷ [])) ∷ []) (codes "HTTP"))))
      (build get [] false)
    ≡ pause (
        completed
          (headed get [] chunked_block chunked_head chunked_IsHead [])
          chunked_head
          (codes "HTTP")
          (codes "abcde"))
handle_input-chunked_response_example =
    handle_input-chunked_response get [] chunked_block chunked_head chunked_IsHead two_chunks
      (48 ∷ 13 ∷ []) ((codes "X: y" ++ (13 ∷ [])) ∷ []) (codes "HTTP") chunked_mode_get
      two_chunks-AreChunks end_line-IsLast one-AreTrailers (omega arith)

abbrev plain_block : Bytes
plain_block = status_line ++ (13 ∷ 10 ∷ [])

plain_IsHead : IsHead plain_block (ok_head [])
unfolding find_header_end parse_head split_once trim_end_matches starts_with parse_unsigned trim
    is_interim_status
plain_IsHead = (refl, refl, refl)

plain_mode_get : body_mode (to_upper get) (ok_head []) false ≡ ok until_eof
unfolding body_mode eq_ignore_case to_upper split trim parse_unsigned
plain_mode_get = refl

handle_eof-until_eof_example :
    then_call handle_eof (handle_input (plain_block ++ codes "abc") (build get [] false))
    ≡ pause (
        completed
          (headed get [] plain_block (ok_head []) plain_IsHead [])
          (ok_head [])
          []
          (codes "abc"))
handle_eof-until_eof_example =
    handle_eof-until_eof get [] plain_block (ok_head []) plain_IsHead (codes "abc") plain_mode_get
      (omega arith)

body_mode-body_is_close_delimited_example :
    (body_mode get sized_head false ≡ ok until_eof)
    ↔ (body_is_close_delimited get 200 sized_head.headers ≡ true)
body_mode-body_is_close_delimited_example = body_mode-body_is_close_delimited get sized_head false

drive-Settled_example :
    Settled (
      drive (input sized_block ∷ poll ∷ input (codes "abc") ∷ eof ∷ poll ∷ []) (build get [] false))
drive-Settled_example =
    drive-Settled get [] (input sized_block ∷ poll ∷ input (codes "abc") ∷ eof ∷ poll ∷ [])

run-Returned_example :
    (run 9 (build get [] true) ≡ advance (build get [] true)) × Returned (run 9 (build get [] true))
unfolding build
run-Returned_example = run-Returned 9 (build get [] true) (omega arith)

-- The same response in three pieces, cut within its head and within its body.
abbrev first_piece : Bytes
first_piece = status_line ++ codes "Content-Le"

abbrev more_pieces : List Bytes
more_pieces = (codes "ngth: 3" ++ (13 ∷ 10 ∷ 13 ∷ 10 ∷ codes "a")) ∷ codes "bc" ∷ codes "HTTP" ∷ []

abbrev answered : Exchange
answered = record {
  out = [];
  method = get;
  rx = [];
  state = finished;
  head = some sized_head;
  body = [];
  body_total = 3;
  events = response sized_head (codes "abc") ∷ [];
  streaming = false;
  head_emitted = false;
  interim = 0;
}

pieces_answered : feed first_piece more_pieces (build get [] false) ≡ pause answered
unfolding handle_input find_header_end parse_head split_once trim_end_matches starts_with
    parse_unsigned trim is_interim_status body_mode eq_ignore_case to_upper split finish build step
    respond
pieces_answered = refl

feed-join_example :
    (left : Bytes) × (handle_input (first_piece ++ join more_pieces) (build get [] false)
      ≡ pause (extend left answered))
    × (is_done answered.state ≡ false → left ≡ [])
unfolding build
feed-join_example =
    feed-join first_piece more_pieces (build get [] false) answered (build-Resting get []) refl
      pieces_answered
