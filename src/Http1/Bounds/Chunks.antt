-- ===== src/Http1/Bounds/Chunks.antt =====
-- src/proto/http1.rs: what holds of a buffered exchange holds behind a round of `advance_chunked`.
use rsurl.Base.{
  ℕ, suc, ◌+◌, ◌-◌, min, true, false, not, ◌&&◌, ◌||◌, Option, none, some, [], ◌∷◌, ◌++◌, length,
  take, drop, length-append, length-take, ltb, ◌==◌, if◌then◌else◌, Result, ok, err, ◌≡◌, arith,
}
use rsurl.Base.Bytes.{Bytes}
use rsurl.Http1.Chunked.{
  find_newline, with_chunks, on_trailer, on_data, on_size, on_size_line, chunk_part, on_crlf,
  advance_chunked,
}
use rsurl.Http1.Head.{parse_chunk_size, max_body_bytes, max_header_bytes}
use rsurl.Http1.Machine.{ChunkState, in_chunks, Exchange, again, pause, finish, fault}
use rsurl.Http1.Bounds.{Valid, Round, or_fault-Round, if-Round, within_cap, finish-Round}
use rsurl.Base.Text.{trim_end_matches, is_eol, is_empty}

on_trailer-Round :
    (o : Option ℕ) (cs : ChunkState) (s : Exchange)
    → s.streaming ≡ false
    → Valid (in_chunks cs) s
    → Round (on_trailer o cs s)
unfolding on_trailer
on_trailer-Round none cs s buffered valid =
    or_fault-Round (ltb max_header_bytes (length s.rx)) "trailer block too large"
      (pause (with_chunks cs s)) (λ small. (buffered, valid, tt))
on_trailer-Round (some k) cs s buffered (counts, high) =
    let cut = record s { rx = drop (suc k) s.rx } in
    let size = cs.trailer_bytes + suc k in
    let next = again (with_chunks (record cs { trailer_bytes = size }) cut) in
    if-Round (is_empty (trim_end_matches is_eol (take (suc k) s.rx))) (finish cut)
      (if ltb max_header_bytes size then fault "trailer block too large" else next)
      (finish-Round cut buffered counts (omega (arith, high)))
      (or_fault-Round (ltb max_header_bytes size) "trailer block too large" next
        (λ small. (buffered, (counts, high))))

on_data-Round :
    (cs : ChunkState) (s : Exchange)
    → s.streaming ≡ false
    → Valid (in_chunks cs) s
    → Round (on_data cs s)
unfolding on_data
on_data-Round cs s buffered ((counted, quiet, has), high) =
    let n = min cs.remaining (length s.rx) in
    let cs' = record cs {
      remaining = cs.remaining - n;
      crlf_pending = cs.crlf_pending || cs.remaining - n == 0;
    } in
    let s' = record s {
      body = s.body ++ take n s.rx;
      rx = drop n s.rx;
      body_total = s.body_total + n;
    } in
    let counted' : length (s.body ++ take n s.rx) ≡ s.body_total + n =
      omega (arith, counted, length-append s.body (take n s.rx), length-take n s.rx) in
    if-Round (n == 0) (pause (with_chunks cs s)) (again (with_chunks cs' s'))
      (buffered, ((counted, quiet, has), high), tt)
      (buffered, ((counted', quiet, has), omega (arith, high)))

on_size-Round :
    (r : Result ℕ) (cs : ChunkState) (s : Exchange)
    → s.streaming ≡ false
    → Valid (in_chunks cs) s
    → Round (on_size r cs s)
unfolding on_size
on_size-Round (err e) cs s buffered valid = tt
on_size-Round (ok k) cs s buffered (counts, high) =
    let ends = again (with_chunks (record cs { in_trailers = true }) s) in
    let begins = again (with_chunks (record cs { remaining = k }) s) in
    or_fault-Round (not s.streaming && ltb max_body_bytes (s.body_total + k)) "body too large"
      (if k == 0 then ends else begins)
      (λ small.
        if-Round (k == 0) ends begins (buffered, (counts, high))
          (buffered, (counts, within_cap s (s.body_total + k) buffered small)))

on_size_line-Round :
    (o : Option ℕ) (cs : ChunkState) (s : Exchange)
    → s.streaming ≡ false
    → Valid (in_chunks cs) s
    → Round (on_size_line o cs s)
unfolding on_size_line
on_size_line-Round none cs s buffered valid =
    or_fault-Round (ltb max_header_bytes (length s.rx)) "chunk size line too large"
      (pause (with_chunks cs s)) (λ small. (buffered, valid, tt))
on_size_line-Round (some k) cs s buffered valid =
    on_size-Round (parse_chunk_size (take (suc k) s.rx)) cs (record s { rx = drop (suc k) s.rx })
      buffered valid

chunk_part-Round :
    (cs : ChunkState) (s : Exchange)
    → s.streaming ≡ false
    → Valid (in_chunks cs) s
    → Round (chunk_part cs s)
unfolding chunk_part
chunk_part-Round cs s buffered valid =
    let line = find_newline s.rx in
    if-Round cs.in_trailers (on_trailer line cs s)
      (if ltb 0 cs.remaining then on_data cs s else on_size_line line cs s)
      (on_trailer-Round line cs s buffered valid)
      (if-Round (ltb 0 cs.remaining) (on_data cs s) (on_size_line line cs s)
        (on_data-Round cs s buffered valid) (on_size_line-Round line cs s buffered valid))

on_crlf-Round :
    (l : Bytes) (cs : ChunkState) (s : Exchange)
    → s.streaming ≡ false
    → Valid (in_chunks cs) s
    → Round (on_crlf l cs s)
unfolding on_crlf
on_crlf-Round [] cs s buffered valid = (buffered, valid, tt)
on_crlf-Round (a ∷ []) cs s buffered valid = (buffered, valid, tt)
on_crlf-Round (a ∷ b ∷ rest) cs s buffered valid =
    let cs' = record cs { crlf_pending = false } in
    let s' = record s { rx = rest } in
    if-Round (a == 13 && b == 10) (chunk_part cs' s') (fault "missing CRLF after chunk")
      (chunk_part-Round cs' s' buffered valid) tt

pub advance_chunked-Round :
    (cs : ChunkState) (s : Exchange)
    → s.streaming ≡ false
    → Valid (in_chunks cs) s
    → Round (advance_chunked cs s)
unfolding advance_chunked
advance_chunked-Round cs s buffered valid =
    if-Round cs.crlf_pending (on_crlf s.rx cs s) (chunk_part cs s)
      (on_crlf-Round s.rx cs s buffered valid) (chunk_part-Round cs s buffered valid)
