-- ===== src/Http1/Chunked.antt =====
-- src/proto/http1.rs: `advance_chunked`. Where its loop goes on, so does that of `advance`.
use rsurl.Base.{
  ℕ, suc, ◌+◌, ◌-◌, min, true, false, not, ◌&&◌, ◌||◌, Option, none, some, [], ◌∷◌, ◌++◌, length,
  take, drop, ltb, ◌==◌, if◌then◌else◌, Result, ok, err,
}
use rsurl.Base.Bytes.{Bytes}
use rsurl.Base.Text.{trim_end_matches, is_eol, is_empty}
use rsurl.Http1.Head.{parse_chunk_size, max_header_bytes, max_body_bytes}
use rsurl.Http1.Machine.{
  ChunkState, in_chunks, Exchange, Step, again, pause, fail, fault, finish, suc_some,
}

-- `position(|&b| b == b'\n')`.
unfoldable pub find_newline : Bytes → Option ℕ
find_newline [] = none
find_newline (b ∷ bs) = if b == 10 then some 0 else suc_some (find_newline bs)

abbrev pub with_chunks : ChunkState → Exchange → Exchange
with_chunks cs s = record s { state = in_chunks cs }

unfoldable pub on_trailer : Option ℕ → ChunkState → Exchange → Step
unfolding finish
on_trailer none cs s =
    if ltb max_header_bytes (length s.rx)
    then fault "trailer block too large"
    else pause (with_chunks cs s)
on_trailer (some nl) cs s =
    if is_empty (trim_end_matches is_eol (take (suc nl) s.rx))
    then finish (record s { rx = drop (suc nl) s.rx })
    else if ltb max_header_bytes (cs.trailer_bytes + suc nl)
    then fault "trailer block too large"
    else again (
        with_chunks (record cs { trailer_bytes = cs.trailer_bytes + suc nl })
          (record s { rx = drop (suc nl) s.rx }))

unfoldable pub on_data : ChunkState → Exchange → Step
on_data cs s =
    let n = min cs.remaining (length s.rx) in
    if n == 0
    then pause (with_chunks cs s)
    else again (
        with_chunks
          (record cs {
            remaining = cs.remaining - n;
            crlf_pending = cs.crlf_pending || cs.remaining - n == 0;
          })
          (record s {
            body = s.body ++ take n s.rx;
            rx = drop n s.rx;
            body_total = s.body_total + n;
          }))

unfoldable pub on_size : Result ℕ → ChunkState → Exchange → Step
on_size (err e) cs s = fail e
on_size (ok size) cs s =
    if not s.streaming && ltb max_body_bytes (s.body_total + size)
    then fault "body too large"
    else if size == 0
    then again (with_chunks (record cs { in_trailers = true }) s)
    else again (with_chunks (record cs { remaining = size }) s)

unfoldable pub on_size_line : Option ℕ → ChunkState → Exchange → Step
unfolding on_size
on_size_line none cs s =
    if ltb max_header_bytes (length s.rx)
    then fault "chunk size line too large"
    else pause (with_chunks cs s)
on_size_line (some nl) cs s =
    on_size (parse_chunk_size (take (suc nl) s.rx)) cs (record s { rx = drop (suc nl) s.rx })

-- Behind the CRLF of the chunk before, if there is one.
unfoldable pub chunk_part : ChunkState → Exchange → Step
unfolding on_trailer on_data on_size_line
chunk_part cs s =
    if cs.in_trailers
    then on_trailer (find_newline s.rx) cs s
    else if ltb 0 cs.remaining
    then on_data cs s
    else on_size_line (find_newline s.rx) cs s

unfoldable pub on_crlf : Bytes → ChunkState → Exchange → Step
unfolding chunk_part
on_crlf (a ∷ b ∷ rest) cs s =
    if a == 13 && b == 10
    then chunk_part (record cs { crlf_pending = false }) (record s { rx = rest })
    else fault "missing CRLF after chunk"
on_crlf _ cs s = pause (with_chunks cs s)

unfoldable pub advance_chunked : ChunkState → Exchange → Step
unfolding on_crlf
advance_chunked cs s = if cs.crlf_pending then on_crlf s.rx cs s else chunk_part cs s
