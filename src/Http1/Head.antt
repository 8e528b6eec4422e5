-- ===== src/Http1/Head.antt =====
-- src/http.rs and src/proto/http1.rs: the response head, and what it says of the framing of the
-- body. Texts are their bytes.
use rsurl.Base.{
  ℕ, ◌+◌, Bool, false, not, ◌&&◌, ◌||◌, Option, none, some, List, [], ◌∷◌, ◌++◌, length, ltb, leb,
  ◌==◌, if◌then◌else◌, Result, ok, bad, ◌>>=◌,
}
use rsurl.Base.Bytes.{Bytes, codes}
use rsurl.Base.Text.{
  lossy, trim, trim_end_matches, is_cr, is_eol, split, split_once, eq_ignore_case, starts_with,
  is_digit, all_of, is_empty, parse_unsigned, is_hex_digit, hex_from,
}

abbrev pub max_header_bytes : ℕ
max_header_bytes = 65536

abbrev pub max_body_bytes : ℕ
max_body_bytes = 268435456

abbrev pub u16_max : ℕ
u16_max = 65535

abbrev pub u64_max : ℕ
u64_max = 18446744073709551615

abbrev pub Header : Type 0
Header = Bytes × Bytes

-- `ResponseHead`.
pub record Head : Type 0 where
  pub status : ℕ
  pub reason : Bytes
  pub version : Bytes
  pub headers : List Header

abbrev pub or_else : {A : Type 0} → Option A → Result A → Result A
or_else none e = e
or_else (some a) e = ok a

-- What is left of the status line behind the version: the status, and the reason if there is one.
unfoldable pub parse_status : Bytes → Option (Bytes × Bytes) → Result (ℕ × Bytes)
parse_status rest none =
    (or_else (parse_unsigned u16_max rest) (bad "bad status") >>= λ status. ok (status, []))
parse_status rest (some p) =
    (or_else (parse_unsigned u16_max p.0) (bad "bad status") >>= λ status. ok (status, p.1))

unfoldable pub version_and_rest : Bytes → Option (Bytes × Bytes) → Result (Bytes × ℕ × Bytes)
unfolding parse_status
version_and_rest line none =
    if not (starts_with (codes "HTTP/") line) then bad "not HTTP" else bad "missing status"
version_and_rest line (some p) =
    if not (starts_with (codes "HTTP/") p.0)
    then bad "not HTTP"
    else (parse_status p.1 (split_once 32 p.1) >>= λ s. ok (p.0, s.0, s.1))

unfoldable pub parse_status_line : Bytes → Result (Bytes × ℕ × Bytes)
unfolding version_and_rest
parse_status_line line = version_and_rest line (split_once 32 line)

-- Append to the value of the last header: a folded line.
unfoldable pub fold_line : List Header → Bytes → Result (List Header)
fold_line [] cont = bad "folded header line with no field to continue"
fold_line ((k, v) ∷ []) cont =
    if is_empty cont
    then ok ((k, v) ∷ [])
    else ok ((k, (if is_empty v then v else v ++ (32 ∷ [])) ++ cont) ∷ [])
fold_line (h ∷ h' ∷ more) cont = (fold_line (h' ∷ more) cont >>= λ hs. ok (h ∷ hs))

abbrev starts_with_blank : Bytes → Bool
starts_with_blank [] = false
starts_with_blank (b ∷ bs) = b == 32 || b == 9

unfoldable pub push_field : List Header → Option (Bytes × Bytes) → Result (List Header)
push_field headers none = bad "malformed header line"
push_field headers (some p) = ok (headers ++ ((trim p.0, trim p.1) ∷ []))

unfoldable pub push_header_line : List Header → Bytes → Result (List Header)
unfolding fold_line push_field
push_header_line headers line =
    if starts_with_blank line
    then fold_line headers (trim line)
    else push_field headers (split_once 58 line)

-- The loop over the lines, with the bytes counted so far.
unfoldable pub header_lines : ℕ → List Header → List Bytes → Result (List Header)
unfolding push_header_line
header_lines count headers [] = ok headers
header_lines count headers (raw ∷ lines) =
    let line = trim_end_matches is_cr raw in
    let rest =
      push_header_line headers line >>= λ hs. header_lines (count + (length raw + 1)) hs lines in
    if is_empty line
    then ok headers
    else if ltb max_header_bytes (count + (length raw + 1))
    then bad "headers exceed 64 KiB"
    else rest

unfoldable pub parse_lines : List Bytes → Result Head
unfolding parse_status_line header_lines
parse_lines [] = bad "unreachable: split is never empty"
parse_lines (first ∷ lines) =
    (parse_status_line (trim_end_matches is_cr first) >>= λ s.
    header_lines 0 [] lines >>= λ headers.
    ok (record { status = s.1; reason = s.2; version = s.0; headers = headers }))

unfoldable pub parse_head : Bytes → Result Head
unfolding parse_lines lossy split
parse_head block = parse_lines (split 10 (lossy block))

unfoldable pub is_interim_status : ℕ → Bool
is_interim_status status = (leb 100 status && ltb status 200) && not (status == 101)

abbrev pub any_named : Bytes → List Header → Bool
any_named name [] = false
any_named name ((k, v) ∷ more) = eq_ignore_case k name || any_named name more

abbrev pub any_chunked : List Header → Bool
any_chunked [] = false
any_chunked ((k, v) ∷ more) =
    (eq_ignore_case k (codes "transfer-encoding") && eq_ignore_case v (codes "chunked"))
    || any_chunked more

-- A value, and the one seen before.
unfoldable pub agree : Option ℕ → ℕ → Result (Option ℕ)
agree none n = ok (some n)
agree (some prev) n =
    if not (prev == n) then bad "conflicting Content-Length values" else ok (some n)

unfoldable pub length_part : Option ℕ → Bytes → Result (Option ℕ)
unfolding agree
length_part seen t =
    if is_empty t || not (all_of is_digit t)
    then bad "bad Content-Length"
    else (or_else (parse_unsigned u64_max t) (bad "bad Content-Length") >>= λ n. agree seen n)

-- The parts of one value, and the headers.
unfoldable pub length_parts : Option ℕ → List Bytes → Result (Option ℕ)
unfolding length_part
length_parts seen [] = ok seen
length_parts seen (part ∷ parts) = (length_part seen (trim part) >>= λ s. length_parts s parts)

unfoldable pub content_length_from : Option ℕ → List Header → Result (Option ℕ)
unfolding length_parts
content_length_from seen [] = ok seen
content_length_from seen ((k, v) ∷ more) =
    let other = content_length_from seen more in
    let this = length_parts seen (split 44 v) >>= λ s. content_length_from s more in
    if not (eq_ignore_case k (codes "content-length")) then other else this

unfoldable pub parse_content_length : List Header → Result (Option ℕ)
unfolding content_length_from
parse_content_length headers = content_length_from none headers

pub data BodyMode : Type 0 where
  no_body : BodyMode
  sized : ℕ → BodyMode
  chunks : BodyMode
  until_eof : BodyMode

unfoldable pub sized_mode : Bool → Option ℕ → Result BodyMode
sized_mode streaming none = ok until_eof
sized_mode streaming (some len) =
    if not streaming && ltb max_body_bytes len then bad "body too large" else ok (sized len)

unfoldable pub body_mode : Bytes → Head → Bool → Result BodyMode
unfolding sized_mode parse_content_length
body_mode method head streaming =
    let has_te = any_named (codes "transfer-encoding") head.headers in
    let has_cl = any_named (codes "content-length") head.headers in
    if eq_ignore_case method (codes "HEAD")
      || ((leb 100 head.status && ltb head.status 200)
          || (head.status == 204 || head.status == 304))
    then ok no_body
    else if has_te && has_cl
    then bad "both Transfer-Encoding and Content-Length present"
    else if any_chunked head.headers
    then ok chunks
    else if has_te
    then bad "unsupported Transfer-Encoding"
    else (parse_content_length head.headers >>= sized_mode streaming)

abbrev before_semicolon : List Bytes → Bytes
before_semicolon [] = []
before_semicolon (s ∷ more) = s

unfoldable pub parse_chunk_size : Bytes → Result ℕ
parse_chunk_size line =
    let s = trim (before_semicolon (split 59 (trim_end_matches is_eol (lossy line)))) in
    if is_empty s || not (all_of is_hex_digit s)
    then bad "bad chunk size"
    else if ltb u64_max (hex_from 0 s)
    then bad "bad chunk size"
    else ok (hex_from 0 s)

abbrev pub any_framing : List Header → Bool
any_framing [] = false
any_framing ((k, v) ∷ more) =
    (eq_ignore_case k (codes "transfer-encoding") || eq_ignore_case k (codes "content-length"))
    || any_framing more

unfoldable pub body_is_close_delimited : Bytes → ℕ → List Header → Bool
body_is_close_delimited method status headers =
    not (
      eq_ignore_case method (codes "HEAD")
      || ((leb 100 status && ltb status 200) || (status == 204 || status == 304)))
    && not (any_framing headers)
