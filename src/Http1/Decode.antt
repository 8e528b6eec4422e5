-- ===== src/Http1/Decode.antt =====
-- src/proto/http1.rs: what `advance` makes of a chunked body.
use native.Mathlib.Nat.{sub_self}
use rsurl.Base.{
  ℕ, suc, ◌+◌, ◌≤◌, ◌<◌, min, Bool, true, false, none, some, List, [], ◌∷◌, ◌++◌, append-nil,
  append_assoc, length, take, drop, length-append, take-length_append, drop-length_append, ok, ◌≡◌,
  refl, sym, ap, ◌∙◌, inl, inr, Option-cases, le→ltb, arith,
}
use rsurl.Base.Bytes.{Bytes}
use rsurl.Base.Text.{trim_end_matches, is_eol, is_empty}
use rsurl.Http1.Bounds.{finish_buffered}
use rsurl.Http1.Chunked.{
  find_newline, with_chunks, on_trailer, on_size, on_size_line, on_crlf, chunk_part,
}
use rsurl.Http1.Exchange.{step_in, advance}
use rsurl.Http1.Fuel.{resume}
use rsurl.Http1.Head.{Head, parse_chunk_size, max_header_bytes, max_body_bytes}
use rsurl.Http1.Machine.{response, ChunkState, in_chunks, finished, Exchange, again, pause, respond}
use rsurl.Http1.Resume.{from_round}
use rsurl.Http1.Resume.Chunks.{
  data_cursor, take_data, from_in_chunks, from_chunk_part, part_of_trailer, part_of_size,
  part_of_data, on_data_some, at_crlf, chunk_part-with_chunks,
}

-- A line that has no line feed, and one behind it.
find_newline_at :
    (line rest : Bytes)
    → find_newline line ≡ none
    → find_newline (line ++ (10 ∷ rest)) ≡ some (length line)
unfolding find_newline
find_newline_at [] rest h = refl
find_newline_at (b ∷ line) rest h = elim (Option-cases (find_newline line)) [
  | inl e ↦ ground (arith, e, h, find_newline_at line rest e)
  | inr (k, e) ↦ ground (arith, e, h)
]

take_line : (line rest : Bytes) → take (suc (length line)) (line ++ (10 ∷ rest)) ≡ line ++ (10 ∷ [])
take_line [] rest = refl
take_line (b ∷ line) rest = ap (λ l. b ∷ l) (take_line line rest)

drop_line : (line rest : Bytes) → drop (suc (length line)) (line ++ (10 ∷ rest)) ≡ rest
drop_line [] rest = refl
drop_line (b ∷ line) rest = drop_line line rest

newline_second : (rest : Bytes) → find_newline (13 ∷ 10 ∷ rest) ≡ some 1
unfolding find_newline
newline_second rest = refl

blank_empty : is_empty (trim_end_matches is_eol (13 ∷ 10 ∷ [])) ≡ true
unfolding trim_end_matches
blank_empty = refl

-- A chunk: its size line, without the line feed, and its bytes.
pub record Chunk : Type 0 where
  pub size_line : Bytes
  pub content : Bytes

abbrev pub IsChunk : Chunk → Type 0
IsChunk c =
    (find_newline c.size_line ≡ none)
    × (parse_chunk_size (c.size_line ++ (10 ∷ [])) ≡ ok (length c.content))
    × (0 < length c.content)

abbrev pub AreChunks : List Chunk → Type 0
AreChunks [] = Unit
AreChunks (c ∷ chunks) = IsChunk c × AreChunks chunks

-- A size line that ends the chunks.
abbrev pub IsLast : Bytes → Type 0
IsLast line = (find_newline line ≡ none) × (parse_chunk_size (line ++ (10 ∷ [])) ≡ ok 0)

-- Trailer lines, with the bytes that the code counts before them.
abbrev pub AreTrailers : ℕ → List Bytes → Type 0
AreTrailers count [] = Unit
AreTrailers count (line ∷ lines) =
    (find_newline line ≡ none)
    × (is_empty (trim_end_matches is_eol (line ++ (10 ∷ []))) ≡ false)
    × (count + suc (length line) ≤ max_header_bytes)
    × AreTrailers (count + suc (length line)) lines

abbrev pub trailer_wire : List Bytes → Bytes → Bytes
trailer_wire [] rest = 13 ∷ 10 ∷ rest
trailer_wire (line ∷ lines) rest = line ++ (10 ∷ trailer_wire lines rest)

abbrev pub chunked_wire : List Chunk → Bytes → Bytes
chunked_wire [] rest = rest
chunked_wire (c ∷ chunks) rest =
    c.size_line ++ (10 ∷ (c.content ++ (13 ∷ 10 ∷ chunked_wire chunks rest)))

abbrev pub contents : List Chunk → Bytes
contents [] = []
contents (c ∷ chunks) = c.content ++ contents chunks

module _ (s : Exchange) where
  -- The exchange at a point of its chunked body.
  abbrev pub at_chunks : ChunkState → Bytes → Bytes → Exchange
  at_chunks cs rx body = record s {
    state = in_chunks cs;
    rx = rx;
    body = body;
    body_total = length body;
  }

  -- Behind the last bytes of the body.
  abbrev pub completed : Head → Bytes → Bytes → Exchange
  completed h rx body = record s {
    state = finished;
    rx = rx;
    body = [];
    body_total = length body;
    events = s.events ++ (response h body ∷ []);
  }

abbrev pub cursor : ℕ → Bool → Bool → ℕ → ChunkState
cursor n crlf trailers count = record {
  remaining = n;
  crlf_pending = crlf;
  in_trailers = trailers;
  trailer_bytes = count;
}

-- `ChunkState::default()`.
abbrev pub start : ChunkState
start = cursor 0 false false 0

module _ (s : Exchange) (buffered : s.streaming ≡ false) where
  goes :
      (cs : ChunkState) (rx body : Bytes)
      → cs.crlf_pending ≡ false
      → advance (at_chunks s cs rx body) ≡ resume (chunk_part cs (at_chunks s cs rx body))
  goes cs rx body past = sym (from_chunk_part cs (at_chunks s cs rx body) past)

  -- A whole size line.
  sizes :
      (line rest body : Bytes) (k : ℕ)
      → find_newline line ≡ none
      → parse_chunk_size (line ++ (10 ∷ [])) ≡ ok k
      → advance (at_chunks s start (line ++ (10 ∷ rest)) body)
        ≡ resume (on_size (ok k) start (at_chunks s start rest body))
  unfolding on_size_line
  sizes line rest body k whole parsed =
      let wire = line ++ (10 ∷ rest) in
      let parts : on_size_line (find_newline wire) start (at_chunks s start wire body)
          ≡ on_size (ok k) start (at_chunks s start rest body) =
        rw (find_newline_at line rest whole, take_line line rest, drop_line line rest, parsed)
          refl in
      goes start wire body refl
      ∙ ap resume (part_of_size start (at_chunks s start wire body) refl refl ∙ parts)

  size_line :
      (line rest body : Bytes) (k : ℕ)
      → find_newline line ≡ none
      → parse_chunk_size (line ++ (10 ∷ [])) ≡ ok k
      → 0 < k
      → length body + k ≤ max_body_bytes
      → advance (at_chunks s start (line ++ (10 ∷ rest)) body)
        ≡ advance (at_chunks s (cursor k false false 0) rest body)
  unfolding on_size
  size_line line rest body k whole parsed some_left small =
      let x = at_chunks s start rest body in
      let sized : on_size (ok k) start x ≡ again (at_chunks s (cursor k false false 0) rest body) =
        ground (arith, buffered, some_left, small) in
      sizes line rest body k whole parsed ∙ ap resume sized

  last_line :
      (line rest body : Bytes)
      → IsLast line
      → length body ≤ max_body_bytes
      → advance (at_chunks s start (line ++ (10 ∷ rest)) body)
        ≡ advance (at_chunks s (cursor 0 false true 0) rest body)
  unfolding on_size
  last_line line rest body (whole, parsed) small =
      let x = at_chunks s start rest body in
      let ended : on_size (ok 0) start x ≡ again (at_chunks s (cursor 0 false true 0) rest body) =
        ground (arith, buffered, small) in
      sizes line rest body 0 whole parsed ∙ ap resume ended

  -- The bytes of a chunk, which are all there.
  data_all :
      (content rest body : Bytes)
      → 0 < length content
      → advance (at_chunks s (cursor (length content) false false 0) (content ++ rest) body)
        ≡ advance (at_chunks s (cursor 0 true false 0) rest (body ++ content))
  data_all content rest body some_left =
      let k = length content in
      let cs = cursor k false false 0 in
      let x = at_chunks s cs (content ++ rest) body in
      let amount : min k (length (content ++ rest)) ≡ k =
        omega (arith, length-append content rest) in
      let taken : with_chunks (data_cursor k cs) (take_data k x)
          ≡ at_chunks s (cursor 0 true false 0) rest (body ++ content) =
        rw
          (
            take-length_append content rest,
            drop-length_append content rest,
            length-append body content,
            sub_self k,
          )
          refl in
      goes cs (content ++ rest) body refl
      ∙ ap resume (part_of_data cs x refl some_left ∙ on_data_some k cs x amount some_left)
      ∙ ap advance taken

  crlf_behind :
      (rest body : Bytes)
      → advance (at_chunks s (cursor 0 true false 0) (13 ∷ 10 ∷ rest) body)
        ≡ advance (at_chunks s start rest body)
  unfolding on_crlf
  crlf_behind rest body =
      let cs = cursor 0 true false 0 in
      let x = at_chunks s cs (13 ∷ 10 ∷ rest) body in
      let y = at_chunks s start rest body in
      let part : on_crlf x.rx cs x ≡ chunk_part start y = chunk_part-with_chunks start cs y in
      sym (from_in_chunks cs x)
      ∙ ap resume (at_crlf cs x refl ∙ part)
      ∙ sym (goes start rest body refl)

  chunk_decoded :
      (c : Chunk) (rest body : Bytes)
      → IsChunk c
      → length body + length c.content ≤ max_body_bytes
      → advance (at_chunks s start (c.size_line ++ (10 ∷ (c.content ++ (13 ∷ 10 ∷ rest)))) body)
        ≡ advance (at_chunks s start rest (body ++ c.content))
  chunk_decoded c rest body (whole, parsed, some_left) small =
      size_line c.size_line (c.content ++ (13 ∷ 10 ∷ rest)) body (length c.content) whole parsed
        some_left small
      ∙ data_all c.content (13 ∷ 10 ∷ rest) body some_left
      ∙ crlf_behind rest (body ++ c.content)

  chunks_decoded :
      (chunks : List Chunk) (rest body : Bytes)
      → AreChunks chunks
      → length body + length (contents chunks) ≤ max_body_bytes
      → advance (at_chunks s start (chunked_wire chunks rest) body)
        ≡ advance (at_chunks s start rest (body ++ contents chunks))
  chunks_decoded [] rest body are small =
      ap (λ b. advance (at_chunks s start rest b)) (sym (append-nil body))
  chunks_decoded (c ∷ chunks) rest body (is, are) small =
      let sum = length-append c.content (contents chunks) in
      chunk_decoded c (chunked_wire chunks rest) body is (omega (arith, small, sum))
      ∙ chunks_decoded chunks rest (body ++ c.content) are
          (omega (arith, small, sum, length-append body c.content))
      ∙ ap (λ b. advance (at_chunks s start rest b)) (append_assoc body c.content (contents chunks))

  trailer_line :
      (line rest body : Bytes) (count : ℕ)
      → find_newline line ≡ none
      → is_empty (trim_end_matches is_eol (line ++ (10 ∷ []))) ≡ false
      → count + suc (length line) ≤ max_header_bytes
      → advance (at_chunks s (cursor 0 false true count) (line ++ (10 ∷ rest)) body)
        ≡ advance (at_chunks s (cursor 0 false true (count + suc (length line))) rest body)
  unfolding on_trailer
  trailer_line line rest body count whole filled small =
      let cs = cursor 0 false true count in
      let wire = line ++ (10 ∷ rest) in
      let x = at_chunks s cs wire body in
      let counted : on_trailer (find_newline wire) cs x
          ≡ again (at_chunks s (cursor 0 false true (count + suc (length line))) rest body) =
        rw
          (
            find_newline_at line rest whole,
            take_line line rest,
            drop_line line rest,
            filled,
            le→ltb max_header_bytes (count + suc (length line)) small,
          )
          refl in
      goes cs wire body refl ∙ ap resume (part_of_trailer cs x refl ∙ counted)

  blank_line :
      (h : Head) (rest body : Bytes) (count : ℕ)
      → s.head ≡ some h
      → advance (at_chunks s (cursor 0 false true count) (13 ∷ 10 ∷ rest) body)
        ≡ pause (completed s h rest body)
  unfolding on_trailer respond step_in
  blank_line h rest body count headed =
      let cs = cursor 0 false true count in
      let x = at_chunks s cs (13 ∷ 10 ∷ rest) body in
      let cut = record x { rx = rest } in
      let ended : on_trailer (find_newline (13 ∷ 10 ∷ rest)) cs x
          ≡ again (completed s h rest body) =
        rw (newline_second rest, blank_empty)
          (finish_buffered cut buffered ∙ ap (λ o. respond o cut) headed) in
      goes cs (13 ∷ 10 ∷ rest) body refl
      ∙ ap resume (part_of_trailer cs x refl ∙ ended)
      ∙ sym (from_round finished (completed s h rest body) refl)

  trailers_decoded :
      (h : Head) (lines : List Bytes) (rest body : Bytes) (count : ℕ)
      → s.head ≡ some h
      → AreTrailers count lines
      → advance (at_chunks s (cursor 0 false true count) (trailer_wire lines rest) body)
        ≡ pause (completed s h rest body)
  trailers_decoded h [] rest body count headed are = blank_line h rest body count headed
  trailers_decoded h (line ∷ lines) rest body count headed (whole, filled, small, are) =
      trailer_line line (trailer_wire lines rest) body count whole filled small
      ∙ trailers_decoded h lines rest body (count + suc (length line)) headed are

-- A chunked
pub advance-chunked_wire :
    (s : Exchange) (h : Head) (chunks : List Chunk) (last : Bytes) (trailers : List Bytes)
    (rest body : Bytes)
    → s.streaming ≡ false
    → s.head ≡ some h
    → AreChunks chunks
    → IsLast last
    → AreTrailers 0 trailers
    → length body + length (contents chunks) ≤ max_body_bytes
    → advance
        (at_chunks s start (chunked_wire chunks (last ++ (10 ∷ trailer_wire trailers rest))) body)
      ≡ pause (completed s h rest (body ++ contents chunks))
advance-chunked_wire s h chunks last trailers rest body buffered headed are is_last trailing small =
    chunks_decoded s buffered chunks (last ++ (10 ∷ trailer_wire trailers rest)) body are small
    ∙ last_line s buffered last (trailer_wire trailers rest) (body ++ contents chunks) is_last
        (omega (arith, small, length-append body (contents chunks)))
    ∙ trailers_decoded s buffered h trailers rest (body ++ contents chunks) 0 headed trailing
