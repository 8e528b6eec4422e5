-- ===== src/Http1/Resume.antt =====
-- src/proto/http1.rs: a round on the bytes received so far, and one on more of them.
pub mod Chunks
pub mod Pieces
use rsurl.Base.{
  String, leb→le, leb→lt, ℕ, zero, suc, ◌+◌, ◌-◌, ◌≤◌, ◌<◌, min, Bool, true, false, not, ◌&&◌, ◌||◌,
  Option, none, some, List, [], ◌∷◌, ◌++◌, append-nil, append_assoc, length, take, drop,
  take-append, drop-append, length-append, take-append_beyond, drop-append_beyond, ltb, leb, ◌==◌,
  if◌then◌else◌, Result, ok, err, ◌≡◌, refl, sym, ap, ◌∙◌, inl, inr, Bool-cases, Option-cases,
  arith,
}
use rsurl.Base.Bytes.{Bytes}
use rsurl.Http1.Chunked.{
  find_newline, with_chunks, on_trailer, on_data, on_size, on_size_line, chunk_part, on_crlf,
  advance_chunked,
}
use rsurl.Http1.Exchange.{
  find_header_end, enter, on_mode, on_parsed, on_head, on_length, on_eof_body, step_in, step,
  advance,
}
use rsurl.Http1.Fuel.{resume, advance-step}
use rsurl.Http1.Head.{
  Head, BodyMode, body_mode, is_interim_status, max_header_bytes, parse_head, max_body_bytes,
  no_body, sized, chunks, until_eof,
}
use rsurl.Http1.Machine.{
  ChunkState, State, in_head, in_length, in_chunks, in_eof, finished, Exchange, Step, again, pause,
  fail, panicked, emit_streaming, end_stream, respond, finish, fault, max_interim_responses,
}
use rsurl.Http1.Scan.{
  Within, find_header_end-Within, find_newline-Within, find_header_end-append, find_newline-append,
}

-- More bytes have been received.
abbrev pub extend : Bytes → Exchange → Exchange
extend more s = record s { rx = s.rx ++ more }

-- The loop behind the round `r'` on more bytes is the loop on more bytes behind the round `r`.
abbrev pub Follows : Bytes → Step → Step → Type 0
Follows more (again s) r' = resume r' ≡ advance (extend more s)
Follows more (pause s) r' = resume r' ≡ advance (extend more s)
Follows more (fail e) r' = Unit
Follows more panicked r' = Unit

pub if-Follows :
    (more : Bytes) (c : Bool) (a b a' b' : Step)
    → Follows more a a'
    → Follows more b b'
    → Follows more (if c then a else b) (if c then a' else b')
if-Follows more true a b a' b' h h' = h
if-Follows more false a b a' b' h h' = h'

pub or_fault-Follows :
    (more : Bytes) (c : Bool) (m : String) (s : Exchange) (r' : Step)
    → resume r' ≡ advance (extend more s)
    → Follows more (if c then fault m else pause s) r'
or_fault-Follows more true m s r' h = tt
or_fault-Follows more false m s r' h = h

respond-Follows :
    (more : Bytes) (h : Option Head) (s : Exchange)
    → Follows more (respond h s) (respond h (extend more s))
unfolding respond
respond-Follows more none s = tt
respond-Follows more (some h) s = refl

pub finish-Follows :
    (more : Bytes) (s : Exchange) → Follows more (finish s) (finish (extend more s))
unfolding finish end_stream emit_streaming
finish-Follows more s =
    if-Follows more s.streaming (again (end_stream s)) (respond s.head s)
      (again (end_stream (extend more s))) (respond s.head (extend more s)) refl
      (respond-Follows more s.head s)

enter-Follows :
    (more : Bytes) (m : BodyMode) (s : Exchange)
    → Follows more (enter m s) (enter m (extend more s))
unfolding enter
enter-Follows more no_body s = finish-Follows more s
enter-Follows more (sized k) s = elim (Bool-cases (k == 0)) [
  | inl e ↦ rw e (finish-Follows more s)
  | inr e ↦ rw e refl
]
enter-Follows more chunks s = refl
enter-Follows more until_eof s = refl

on_mode-Follows :
    (more : Bytes) (h : Head) (m : Result BodyMode) (s : Exchange)
    → Follows more (on_mode h m s) (on_mode h m (extend more s))
unfolding on_mode
on_mode-Follows more h (err e) s = tt
on_mode-Follows more h (ok m) s = enter-Follows more m (record s { head = some h })

on_parsed-Follows :
    (more : Bytes) (p : Result Head) (s : Exchange)
    → Follows more (on_parsed p s) (on_parsed p (extend more s))
unfolding on_parsed
on_parsed-Follows more (err e) s = tt
on_parsed-Follows more (ok h) s = elim (Bool-cases (is_interim_status h.status)) [
  | inl e ↦ rw e (
      if-Follows more (ltb max_interim_responses (s.interim + 1))
        (fault "too many interim (1xx) responses") (again (record s { interim = s.interim + 1 }))
        (fault "too many interim (1xx) responses")
        (again (record (extend more s) { interim = s.interim + 1 })) tt refl)
  | inr e ↦ rw e (on_mode-Follows more h (body_mode s.method h s.streaming) s)
]

-- The loop may begin with the round of the state that it is in.
pub from_round : (st : State) (s : Exchange) → s.state ≡ st → resume (step_in st s) ≡ advance s
unfolding step
from_round st s at_st = ap (λ t. resume (step_in t s)) (sym at_st) ∙ sym (advance-step s)

from_in_head :
    (more : Bytes) (s : Exchange)
    → s.state ≡ in_head
    → resume (on_head (find_header_end (s.rx ++ more)) (extend more s)) ≡ advance (extend more s)
unfolding step_in
from_in_head more s at_head = from_round in_head (extend more s) at_head

length_more :
    (more : Bytes) (k : ℕ) (s : Exchange)
    → leb k (s.body_total + length s.rx) ≡ true
    → leb k (s.body_total + length (s.rx ++ more)) ≡ true
length_more more k s h = ground (arith, length-append s.rx more, h)

pub on_head-Follows :
    (more : Bytes) (o : Option ℕ) (s : Exchange)
    → s.state ≡ in_head
    → find_header_end s.rx ≡ o
    → Within 2 (length s.rx) o
    → Follows more (on_head o s) (on_head (find_header_end (s.rx ++ more)) (extend more s))
unfolding on_head
on_head-Follows more none s at_head found within =
    or_fault-Follows more (ltb max_header_bytes (length s.rx)) "headers exceed 64 KiB" s
      (on_head (find_header_end (s.rx ++ more)) (extend more s)) (from_in_head more s at_head)
on_head-Follows more (some k) s at_head found (low, high) =
    rw
      (
        find_header_end-append s.rx more k found,
        take-append k s.rx more high,
        drop-append k s.rx more high,
      )
      (on_parsed-Follows more (parse_head (take k s.rx)) (record s { rx = drop k s.rx }))

abbrev pub absorb : Exchange → Exchange
absorb s = record s { body = s.body ++ s.rx; rx = []; body_total = s.body_total + length s.rx }

on_length_later :
    (more : Bytes) (k : ℕ) (s : Exchange)
    → leb k (s.body_total + length s.rx) ≡ false
    → on_length k (extend more s) ≡ on_length k (extend more (absorb s))
unfolding on_length
on_length_later more k s e =
    let t = s.body_total in
    let n = length s.rx in
    let later : t + n < k = omega (arith, leb→lt k (t + n) e) in
    let rest : k - t - n ≡ k - (t + n) = omega arith in
    let sum : t + (n + length more) ≡ t + n + length more = omega arith in
    let total : t + (k - t) ≡ t + n + (k - (t + n)) = omega arith in
    rw
      (
        length-append s.rx more,
        take-append_beyond (k - t) s.rx more (omega arith),
        drop-append_beyond (k - t) s.rx more (omega arith),
        rest,
        sum,
        total,
      )
      (simp append_assoc)

from_in_length : (s : Exchange) (k : ℕ) → s.state ≡ in_length k → resume (on_length k s) ≡ advance s
unfolding step_in
from_in_length s k at_st = from_round (in_length k) s at_st

pub on_length-Follows :
    (more : Bytes) (k : ℕ) (s : Exchange)
    → s.state ≡ in_length k
    → Follows more (on_length k s) (on_length k (extend more s))
unfolding on_length
on_length-Follows more k s at_st = elim (Bool-cases (leb k (s.body_total + length s.rx))) [
  | inl e ↦
      let fits : k - s.body_total ≤ length s.rx =
        omega (arith, leb→le k (s.body_total + length s.rx) e) in
      rw
        (
          e,
          length_more more k s e,
          take-append (k - s.body_total) s.rx more fits,
          drop-append (k - s.body_total) s.rx more fits,
        )
        (finish-Follows more (record s {
          body = s.body ++ take (k - s.body_total) s.rx;
          rx = drop (k - s.body_total) s.rx;
          body_total = s.body_total + (k - s.body_total);
        }))
  | inr e ↦
      rw e
        (ap resume (on_length_later more k s e) ∙ from_in_length (extend more (absorb s)) k at_st)
]

from_in_eof : (s : Exchange) → s.state ≡ in_eof → resume (on_eof_body s) ≡ advance s
unfolding step_in
from_in_eof s at_st = from_round in_eof s at_st

on_eof_body_later :
    (more : Bytes) (s : Exchange)
    → on_eof_body (extend more s) ≡ on_eof_body (extend more (absorb s))
unfolding on_eof_body
on_eof_body_later more s =
    let sum : s.body_total + (length s.rx + length more)
        ≡ s.body_total + length s.rx + length more =
      omega arith in
    rw (length-append s.rx more, sum) (simp append_assoc)

pub on_eof_body-Follows :
    (more : Bytes) (s : Exchange)
    → s.state ≡ in_eof
    → Follows more (on_eof_body s) (on_eof_body (extend more s))
unfolding on_eof_body
on_eof_body-Follows more s at_st =
    or_fault-Follows more (not s.streaming && ltb max_body_bytes (s.body_total + length s.rx))
      "body too large" (absorb s) (on_eof_body (extend more s))
      (ap resume (on_eof_body_later more s) ∙ from_in_eof (extend more (absorb s)) at_st)
