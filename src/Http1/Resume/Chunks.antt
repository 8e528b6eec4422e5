-- ===== src/Http1/Resume/Chunks.antt =====
-- src/proto/http1.rs: a round of `advance_chunked` on the bytes received so far, and one on more
-- of them.
use native.Mathlib.Decide.{dec_lt}
use rsurl.Base.{
  ℕ, suc, ◌+◌, ◌-◌, ◌<◌, min, Bool, true, false, not, ◌&&◌, ◌||◌, Option, none, some, [], ◌∷◌, ◌++◌,
  append_assoc, length, take, drop, take-append, drop-append, length-append, take_all, drop_all,
  take-append_beyond, drop-append_beyond, ltb, ◌==◌, if◌then◌else◌, Result, ok, err, ◌≡◌, refl, sym,
  ap, ◌∙◌, inl, inr, Bool-cases, arith, ltb→lt,
}
use rsurl.Base.Bytes.{Bytes}
use rsurl.Base.Text.{trim_end_matches, is_eol, is_empty}
use rsurl.Http1.Chunked.{
  find_newline, with_chunks, on_trailer, on_data, on_size, on_size_line, chunk_part, on_crlf,
  advance_chunked,
}
use rsurl.Http1.Exchange.{step_in, advance}
use rsurl.Http1.Fuel.{resume}
use rsurl.Http1.Head.{Head, parse_chunk_size, max_header_bytes, max_body_bytes}
use rsurl.Http1.Machine.{
  ChunkState, in_chunks, Exchange, Step, again, pause, fault, emit_streaming, end_stream, respond,
  finish, suc_some,
}
use rsurl.Http1.Resume.{extend, Follows, if-Follows, or_fault-Follows, finish-Follows, from_round}
use rsurl.Http1.Scan.{Within, find_newline-Within, find_newline-append}

-- What a round of `advance_chunked` does depends on the cursor it is given alone.
respond-with_chunks :
    (h : Option Head) (cs : ChunkState) (s : Exchange) → respond h (with_chunks cs s) ≡ respond h s
unfolding respond
respond-with_chunks none cs s = refl
respond-with_chunks (some h) cs s = refl

finish-with_chunks : (cs : ChunkState) (s : Exchange) → finish (with_chunks cs s) ≡ finish s
unfolding finish end_stream emit_streaming
finish-with_chunks cs s = rw (respond-with_chunks s.head cs s) refl

on_trailer-with_chunks :
    (o : Option ℕ) (cs cs' : ChunkState) (s : Exchange)
    → on_trailer o cs (with_chunks cs' s) ≡ on_trailer o cs s
unfolding on_trailer
on_trailer-with_chunks none cs cs' s = refl
on_trailer-with_chunks (some k) cs cs' s =
    rw (finish-with_chunks cs' (record s { rx = drop (suc k) s.rx })) refl

on_size-with_chunks :
    (r : Result ℕ) (cs cs' : ChunkState) (s : Exchange)
    → on_size r cs (with_chunks cs' s) ≡ on_size r cs s
unfolding on_size
on_size-with_chunks (err e) cs cs' s = refl
on_size-with_chunks (ok k) cs cs' s = refl

on_size_line-with_chunks :
    (o : Option ℕ) (cs cs' : ChunkState) (s : Exchange)
    → on_size_line o cs (with_chunks cs' s) ≡ on_size_line o cs s
unfolding on_size_line
on_size_line-with_chunks none cs cs' s = refl
on_size_line-with_chunks (some k) cs cs' s =
    on_size-with_chunks (parse_chunk_size (take (suc k) s.rx)) cs cs'
      (record s { rx = drop (suc k) s.rx })

pub chunk_part-with_chunks :
    (cs cs' : ChunkState) (s : Exchange) → chunk_part cs (with_chunks cs' s) ≡ chunk_part cs s
unfolding chunk_part on_data
chunk_part-with_chunks cs cs' s =
    rw
      (
        on_trailer-with_chunks (find_newline s.rx) cs cs' s,
        on_size_line-with_chunks (find_newline s.rx) cs cs' s,
      )
      refl

on_crlf-with_chunks :
    (l : Bytes) (cs cs' : ChunkState) (s : Exchange)
    → on_crlf l cs (with_chunks cs' s) ≡ on_crlf l cs s
unfolding on_crlf
on_crlf-with_chunks [] cs cs' s = refl
on_crlf-with_chunks (a ∷ []) cs cs' s = refl
on_crlf-with_chunks (a ∷ b ∷ rest) cs cs' s =
    rw (chunk_part-with_chunks (record cs { crlf_pending = false }) cs' (record s { rx = rest }))
      refl

advance_chunked-with_chunks :
    (cs cs' : ChunkState) (s : Exchange)
    → advance_chunked cs (with_chunks cs' s) ≡ advance_chunked cs s
unfolding advance_chunked
advance_chunked-with_chunks cs cs' s =
    rw (on_crlf-with_chunks s.rx cs cs' s, chunk_part-with_chunks cs cs' s) refl

pub from_in_chunks :
    (cs : ChunkState) (s : Exchange) → resume (advance_chunked cs s) ≡ advance (with_chunks cs s)
unfolding step_in
from_in_chunks cs s =
    ap resume (sym (advance_chunked-with_chunks cs cs s))
    ∙ from_round (in_chunks cs) (with_chunks cs s) refl

pub past_crlf :
    (cs : ChunkState) (s : Exchange)
    → cs.crlf_pending ≡ false
    → advance_chunked cs s ≡ chunk_part cs s
unfolding advance_chunked
past_crlf cs s past = ap (λ c. if c then on_crlf s.rx cs s else chunk_part cs s) past

pub at_crlf :
    (cs : ChunkState) (s : Exchange)
    → cs.crlf_pending ≡ true
    → advance_chunked cs s ≡ on_crlf s.rx cs s
unfolding advance_chunked
at_crlf cs s pending = ap (λ c. if c then on_crlf s.rx cs s else chunk_part cs s) pending

pub from_chunk_part :
    (cs : ChunkState) (s : Exchange)
    → cs.crlf_pending ≡ false
    → resume (chunk_part cs s) ≡ advance (with_chunks cs s)
from_chunk_part cs s past = ap resume (sym (past_crlf cs s past)) ∙ from_in_chunks cs s

on_trailer-Follows :
    (more : Bytes) (o : Option ℕ) (cs : ChunkState) (s : Exchange)
    → find_newline s.rx ≡ o
    → Within 1 (length s.rx) (suc_some o)
    → resume (on_trailer (find_newline (s.rx ++ more)) cs (extend more s))
      ≡ advance (with_chunks cs (extend more s))
    → Follows more (on_trailer o cs s) (on_trailer (find_newline (s.rx ++ more)) cs (extend more s))
unfolding on_trailer
on_trailer-Follows more none cs s found within from =
    or_fault-Follows more (ltb max_header_bytes (length s.rx)) "trailer block too large"
      (with_chunks cs s) (on_trailer (find_newline (s.rx ++ more)) cs (extend more s)) from
on_trailer-Follows more (some k) cs s found (low, high) from =
    let cut = record s { rx = drop (suc k) s.rx } in
    let seen = with_chunks (record cs { trailer_bytes = cs.trailer_bytes + suc k }) cut in
    let size = cs.trailer_bytes + suc k in
    rw
      (
        find_newline-append s.rx more k found,
        take-append (suc k) s.rx more high,
        drop-append (suc k) s.rx more high,
      )
      (if-Follows more (is_empty (trim_end_matches is_eol (take (suc k) s.rx))) (finish cut)
        (if ltb max_header_bytes size then fault "trailer block too large" else again seen)
        (finish (extend more cut))
        (if ltb max_header_bytes size
          then fault "trailer block too large"
          else again (extend more seen))
        (finish-Follows more cut)
        (if-Follows more (ltb max_header_bytes size) (fault "trailer block too large") (again seen)
          (fault "trailer block too large") (again (extend more seen)) tt refl))

on_size-Follows :
    (more : Bytes) (r : Result ℕ) (cs : ChunkState) (s : Exchange)
    → Follows more (on_size r cs s) (on_size r cs (extend more s))
unfolding on_size
on_size-Follows more (err e) cs s = tt
on_size-Follows more (ok k) cs s =
    let large = fault "body too large" in
    let ends = with_chunks (record cs { in_trailers = true }) s in
    let begins = with_chunks (record cs { remaining = k }) s in
    if-Follows more (not s.streaming && ltb max_body_bytes (s.body_total + k)) large
      (if k == 0 then again ends else again begins) large
      (if k == 0 then again (extend more ends) else again (extend more begins)) tt
      (if-Follows more (k == 0) (again ends) (again begins) (again (extend more ends))
        (again (extend more begins)) refl refl)

on_size_line-Follows :
    (more : Bytes) (o : Option ℕ) (cs : ChunkState) (s : Exchange)
    → find_newline s.rx ≡ o
    → Within 1 (length s.rx) (suc_some o)
    → resume (on_size_line (find_newline (s.rx ++ more)) cs (extend more s))
      ≡ advance (with_chunks cs (extend more s))
    → Follows more
        (on_size_line o cs s)
        (on_size_line (find_newline (s.rx ++ more)) cs (extend more s))
unfolding on_size_line
on_size_line-Follows more none cs s found within from =
    or_fault-Follows more (ltb max_header_bytes (length s.rx)) "chunk size line too large"
      (with_chunks cs s) (on_size_line (find_newline (s.rx ++ more)) cs (extend more s)) from
on_size_line-Follows more (some k) cs s found (low, high) from =
    rw
      (
        find_newline-append s.rx more k found,
        take-append (suc k) s.rx more high,
        drop-append (suc k) s.rx more high,
      )
      (on_size-Follows more (parse_chunk_size (take (suc k) s.rx)) cs
        (record s { rx = drop (suc k) s.rx }))

-- What a round takes of the bytes of a chunk.
abbrev pub data_cursor : ℕ → ChunkState → ChunkState
data_cursor n cs = record cs {
  remaining = cs.remaining - n;
  crlf_pending = cs.crlf_pending || cs.remaining - n == 0;
}

abbrev pub take_data : ℕ → Exchange → Exchange
take_data n s = record s {
  body = s.body ++ take n s.rx;
  rx = drop n s.rx;
  body_total = s.body_total + n;
}

pub on_data_some :
    (n : ℕ) (cs : ChunkState) (s : Exchange)
    → min cs.remaining (length s.rx) ≡ n
    → 0 < n
    → on_data cs s ≡ again (with_chunks (data_cursor n cs) (take_data n s))
unfolding on_data
on_data_some n cs s amount some_left = rw amount (ground (arith, some_left))

take_data_twice :
    (n : ℕ) (more : Bytes) (s : Exchange)
    → take_data (length s.rx + n) (extend more s)
      ≡ take_data n (extend more (take_data (length s.rx) s))
take_data_twice n more s =
    let k = length s.rx in
    let rest : k + n - k ≡ n = omega arith in
    let sum : s.body_total + (k + n) ≡ s.body_total + k + n = omega arith in
    rw
      (
        take-append_beyond (k + n) s.rx more (omega arith),
        drop-append_beyond (k + n) s.rx more (omega arith),
        rest,
        sum,
        take_all k s.rx (omega arith),
        drop_all k s.rx (omega arith),
      )
      (simp append_assoc)

or-false : (b : Bool) → (b || false) ≡ b
or-false true = refl
or-false false = refl

data_cursor_twice :
    (m n : ℕ) (cs : ChunkState)
    → m < cs.remaining
    → data_cursor (m + n) cs ≡ data_cursor n (data_cursor m cs)
data_cursor_twice m n cs h =
    let rest : cs.remaining - (m + n) ≡ cs.remaining - m - n = omega arith in
    let unfinished : (cs.remaining - m == 0) ≡ false = ground (arith, h) in
    rw (rest, unfinished, or-false cs.crlf_pending) refl

pub part_of_data :
    (cs : ChunkState) (s : Exchange)
    → cs.in_trailers ≡ false
    → 0 < cs.remaining
    → chunk_part cs s ≡ on_data cs s
unfolding chunk_part
part_of_data cs s in_data some_left = ground (arith, in_data, some_left)

-- The same bytes are taken, or all of them, and then more of those that come.
on_data_same :
    (more : Bytes) (n : ℕ) (cs : ChunkState) (s : Exchange)
    → min cs.remaining (length s.rx) ≡ n
    → min cs.remaining (length (s.rx ++ more)) ≡ n
    → 0 < n
    → Follows more (on_data cs s) (on_data cs (extend more s))
on_data_same more n cs s amount amount' some_left =
    rw
      (
        on_data_some n cs s amount some_left,
        on_data_some n cs (extend more s) amount' some_left,
        take-append n s.rx more (omega (arith, amount)),
        drop-append n s.rx more (omega (arith, amount)),
      )
      refl

on_data_more :
    (more : Bytes) (cs : ChunkState) (s : Exchange)
    → cs.crlf_pending ≡ false
    → cs.in_trailers ≡ false
    → 0 < length s.rx
    → length s.rx < cs.remaining
    → 0 < length more
    → Follows more (on_data cs s) (on_data cs (extend more s))
on_data_more more cs s past in_data received short some_more =
    let k = length s.rx in
    let n = min (cs.remaining - k) (length more) in
    let cs' = data_cursor k cs in
    let s' = extend more (take_data k s) in
    let past' : cs'.crlf_pending ≡ false = ground (arith, past, short) in
    let behind : drop k s.rx ++ more ≡ more = rw (drop_all k s.rx (omega arith)) refl in
    let amount : min (cs.remaining - k) (length (drop k s.rx ++ more)) ≡ n = rw behind refl in
    let next : chunk_part cs' s' ≡ again (with_chunks (data_cursor n cs') (take_data n s')) =
      part_of_data cs' s' in_data (omega arith) ∙ on_data_some n cs' s' amount (omega arith) in
    let both : with_chunks (data_cursor (k + n) cs) (take_data (k + n) (extend more s))
        ≡ with_chunks (data_cursor n cs') (take_data n s') =
      λ i. with_chunks (data_cursor_twice k n cs short i) (take_data_twice n more s i) in
    rw
      (
        on_data_some k cs s (omega arith) received,
        on_data_some (k + n) cs (extend more s) (omega (arith, length-append s.rx more))
            (omega arith),
      )
      (ap advance both ∙ ap resume (sym next) ∙ from_chunk_part cs' s' past')

on_data_waits :
    (cs : ChunkState) (s : Exchange) → length s.rx ≡ 0 → on_data cs s ≡ pause (with_chunks cs s)
unfolding on_data
on_data_waits cs s empty = ground (arith, empty)

on_data-Follows :
    (more : Bytes) (cs : ChunkState) (s : Exchange)
    → cs.crlf_pending ≡ false
    → cs.in_trailers ≡ false
    → 0 < cs.remaining
    → resume (on_data cs (extend more s)) ≡ advance (with_chunks cs (extend more s))
    → Follows more (on_data cs s) (on_data cs (extend more s))
on_data-Follows more cs s past in_data some_left from = elim (dec_lt 0 (length s.rx)) [
  | no nothing ↦ rw (on_data_waits cs s (omega arith)) from
  | yes received ↦ elim (dec_lt (length s.rx) cs.remaining) [
    | no enough ↦
        on_data_same more cs.remaining cs s (omega arith) (omega (arith, length-append s.rx more))
          some_left
    | yes short ↦ elim (dec_lt 0 (length more)) [
      | no nothing ↦
          on_data_same more (length s.rx) cs s (omega arith)
            (omega (arith, length-append s.rx more)) received
      | yes some_more ↦ on_data_more more cs s past in_data received short some_more
    ]
  ]
]

pub part_of_trailer :
    (cs : ChunkState) (s : Exchange)
    → cs.in_trailers ≡ true
    → chunk_part cs s ≡ on_trailer (find_newline s.rx) cs s
unfolding chunk_part
part_of_trailer cs s in_trailer = rw in_trailer refl

pub part_of_size :
    (cs : ChunkState) (s : Exchange)
    → cs.in_trailers ≡ false
    → ltb 0 cs.remaining ≡ false
    → chunk_part cs s ≡ on_size_line (find_newline s.rx) cs s
unfolding chunk_part
part_of_size cs s in_data over = rw (in_data, over) refl

-- A part of a chunk, where the loop on more bytes begins with that part too.
with_part :
    (more : Bytes) (cs : ChunkState) (s : Exchange) (part part' : Step)
    → cs.crlf_pending ≡ false
    → chunk_part cs s ≡ part
    → chunk_part cs (extend more s) ≡ part'
    → (resume part' ≡ advance (with_chunks cs (extend more s)) → Follows more part part')
    → Follows more (chunk_part cs s) (chunk_part cs (extend more s))
with_part more cs s part part' past this that follows =
    rw (this, that) (follows (ap resume (sym that) ∙ from_chunk_part cs (extend more s) past))

pub chunk_part-Follows :
    (more : Bytes) (cs : ChunkState) (s : Exchange)
    → cs.crlf_pending ≡ false
    → Follows more (chunk_part cs s) (chunk_part cs (extend more s))
chunk_part-Follows more cs s past = elim (Bool-cases cs.in_trailers) [
  | inl e ↦
      with_part more cs s _ _ past (part_of_trailer cs s e) (part_of_trailer cs (extend more s) e)
        (on_trailer-Follows more (find_newline s.rx) cs s refl (find_newline-Within s.rx))
  | inr e ↦ elim (Bool-cases (ltb 0 cs.remaining)) [
    | inl p ↦
        let some_left = ltb→lt 0 cs.remaining p in
        with_part more cs s _ _ past (part_of_data cs s e some_left)
          (part_of_data cs (extend more s) e some_left) (on_data-Follows more cs s past e some_left)
    | inr p ↦
        with_part more cs s _ _ past (part_of_size cs s e p) (part_of_size cs (extend more s) e p)
          (on_size_line-Follows more (find_newline s.rx) cs s refl (find_newline-Within s.rx))
  ]
]

from_crlf :
    (l : Bytes) (more : Bytes) (cs : ChunkState) (s : Exchange)
    → s.rx ≡ l
    → cs.crlf_pending ≡ true
    → resume (on_crlf (l ++ more) cs (extend more s)) ≡ advance (with_chunks cs (extend more s))
from_crlf l more cs s here pending =
    ap (λ t. resume (on_crlf (t ++ more) cs (extend more s))) (sym here)
    ∙ ap resume (sym (at_crlf cs (extend more s) pending))
    ∙ from_in_chunks cs (extend more s)

on_crlf-Follows :
    (more : Bytes) (l : Bytes) (cs : ChunkState) (s : Exchange)
    → s.rx ≡ l
    → cs.crlf_pending ≡ true
    → Follows more (on_crlf l cs s) (on_crlf (l ++ more) cs (extend more s))
unfolding on_crlf
on_crlf-Follows more [] cs s here pending = from_crlf [] more cs s here pending
on_crlf-Follows more (a ∷ []) cs s here pending = from_crlf (a ∷ []) more cs s here pending
on_crlf-Follows more (a ∷ b ∷ rest) cs s here pending =
    let cs' = record cs { crlf_pending = false } in
    let s' = record s { rx = rest } in
    let missing = fault "missing CRLF after chunk" in
    if-Follows more (a == 13 && b == 10) (chunk_part cs' s') missing
      (chunk_part cs' (extend more s')) missing (chunk_part-Follows more cs' s' refl) tt

pub advance_chunked-Follows :
    (more : Bytes) (cs : ChunkState) (s : Exchange)
    → Follows more (advance_chunked cs s) (advance_chunked cs (extend more s))
advance_chunked-Follows more cs s = elim (Bool-cases cs.crlf_pending) [
  | inl e ↦
      rw (at_crlf cs s e, at_crlf cs (extend more s) e) (on_crlf-Follows more s.rx cs s refl e)
  | inr e ↦ rw (past_crlf cs s e, past_crlf cs (extend more s) e) (chunk_part-Follows more cs s e)
]
