-- ===== src/Http1/Bounds.antt =====
-- src/proto/http1.rs: a buffered exchange keeps at most `MAX_BODY_BYTES` of body, queues one
-- response, and does not panic.
mod Chunks
pub mod Input
pub mod Calls
use mathlib.Core.Path.{subst}
use rsurl.Base.{
  String, ℕ, zero, suc, ◌+◌, ◌-◌, ◌≤◌, ◌<◌, min, Bool, true, false, not, ◌&&◌, Option, none, some,
  List, [], ◌∷◌, ◌++◌, length, take, drop, length-append, length-take, ltb, leb, ltb→le, leb→le,
  leb→lt, ◌==◌, if◌then◌else◌, Result, ok, err, ◌>>=◌, ◌≡◌, refl, sym, ap, ◌∙◌, inl, inr,
  Bool-cases, arith,
}
use rsurl.Base.Bytes.{Bytes}
use rsurl.Http1.Chunked.{
  find_newline, with_chunks, on_trailer, on_data, on_size, on_size_line, chunk_part, on_crlf,
  advance_chunked,
}
use rsurl.Http1.Exchange.{
  is_done, find_header_end, enter, on_mode, on_parsed, on_head, on_length, on_eof_body, step_in,
  step, advance, handle_input, handle_eof,
}
use rsurl.Http1.Fuel.{resume, advance-step, size, Drains, step-Drains}
use rsurl.Http1.Head.{
  Head, BodyMode, no_body, sized, chunks, until_eof, body_mode, is_interim_status, parse_chunk_size,
  sized_mode, content_length_from, max_body_bytes,
}
use rsurl.Http1.Resume.{absorb}
use rsurl.Http1.Machine.{
  Event, response, ChunkState, State, in_head, in_length, in_chunks, in_eof, finished, Exchange,
  Step, again, pause, fail, panicked, respond, end_stream, finish, emit_streaming, fault,
  max_interim_responses, suc_some,
}

abbrev pub HasHead : Option Head → Type 0
HasHead none = ⊥
HasHead (some h) = Unit

-- Nothing is queued, or the one response.
abbrev pub Delivered : List Event → Type 0
Delivered [] = Unit
Delivered (response h body ∷ []) = length body ≤ max_body_bytes
Delivered _ = ⊥

-- The head is there, nothing is queued yet, and `body_total` is the length of the body.
abbrev pub Counts : Exchange → Type 0
Counts s = (length s.body ≡ s.body_total) × (s.events ≡ []) × HasHead s.head

abbrev pub Valid : State → Exchange → Type 0
Valid in_head s = (s.body ≡ []) × (s.body_total ≡ 0) × (s.events ≡ [])
Valid (in_length n) s = Counts s × (s.body_total < n) × (n ≤ max_body_bytes)
Valid (in_chunks cs) s = Counts s × (s.body_total + cs.remaining ≤ max_body_bytes)
Valid in_eof s = Counts s × (s.body_total ≤ max_body_bytes)
Valid finished s = Delivered s.events

-- What holds of a buffered exchange in each of its states.
abbrev pub Buffered : Exchange → Type 0
Buffered s = (s.streaming ≡ false) × Valid s.state s

-- Between calls, a body that ends with the connection has taken all the bytes received.
abbrev pub Drained : State → Bytes → Type 0
Drained in_eof rx = rx ≡ []
Drained _ rx = Unit

abbrev pub Resting : Exchange → Type 0
Resting s = (s.streaming ≡ false) × Valid s.state s × Drained s.state s.rx

-- It holds behind a round that does not fail, and the round does not panic.
abbrev pub Round : Step → Type 0
Round (again s) = Buffered s
Round (pause s) = Resting s
Round (fail e) = Unit
Round panicked = ⊥

pub stays :
    (st : State) (s : Exchange) → s.state ≡ st → s.streaming ≡ false → Valid st s → Buffered s
stays st s at_st buffered valid = (buffered, subst (λ t. Valid t s) (sym at_st) valid)

pub rests :
    (st : State) (s : Exchange)
    → s.state ≡ st
    → s.streaming ≡ false
    → Valid st s
    → Drained st s.rx
    → Resting s
rests st s at_st buffered valid drained = (
  buffered,
  subst (λ t. Valid t s) (sym at_st) valid,
  subst (λ t. Drained t s.rx) (sym at_st) drained,
)

pub or_fault-Round :
    (c : Bool) (m : String) (r : Step) → (c ≡ false → Round r) → Round (if c then fault m else r)
or_fault-Round true m r h = tt
or_fault-Round false m r h = h refl

pub within_cap :
    (s : Exchange) (n : ℕ)
    → s.streaming ≡ false
    → (not s.streaming && ltb max_body_bytes n) ≡ false
    → n ≤ max_body_bytes
within_cap s n buffered small =
    ltb→le max_body_bytes n (ap (λ b. not b && ltb max_body_bytes n) (sym buffered) ∙ small)

pub if-Round : (c : Bool) (a b : Step) → Round a → Round b → Round (if c then a else b)
if-Round true a b h h' = h
if-Round false a b h h' = h'

respond-Round :
    (h : Option Head) (s : Exchange)
    → HasHead h
    → s.streaming ≡ false
    → s.events ≡ []
    → length s.body ≤ max_body_bytes
    → Round (respond h s)
unfolding respond
respond-Round none s has buffered quiet small = has
respond-Round (some h) s has buffered quiet small = (buffered, rw quiet small)

pub finish_buffered : (s : Exchange) → s.streaming ≡ false → finish s ≡ respond s.head s
unfolding finish
finish_buffered s buffered = ap (λ b. if b then again (end_stream s) else respond s.head s) buffered

pub finish-Round :
    (s : Exchange)
    → s.streaming ≡ false
    → Counts s
    → s.body_total ≤ max_body_bytes
    → Round (finish s)
finish-Round s buffered (counted, quiet, has) small =
    subst Round (sym (finish_buffered s buffered))
      (respond-Round s.head s has buffered quiet (omega (arith, counted)))

-- What `body_mode` allows a buffered exchange.
abbrev Fits : BodyMode → Type 0
Fits (sized n) = n ≤ max_body_bytes
Fits _ = Unit

abbrev FitsMode : Result BodyMode → Type 0
FitsMode (ok m) = Fits m
FitsMode (err e) = Unit

enter-Round :
    (m : BodyMode) (s : Exchange)
    → s.streaming ≡ false
    → Counts s
    → s.body_total ≡ 0
    → Fits m
    → Round (enter m s)
unfolding enter
enter-Round no_body s buffered counts start fits = finish-Round s buffered counts (omega arith)
enter-Round (sized k) s buffered counts start fits = elim (Bool-cases (k == 0)) [
  | inl e ↦ rw e (finish-Round s buffered counts (omega arith))
  | inr e ↦ rw e (buffered, (counts, ground (arith, e, start), fits))
]
enter-Round chunks s buffered counts start fits = (buffered, (counts, omega (arith, start)))
enter-Round until_eof s buffered counts start fits = (buffered, (counts, omega (arith, start)))

sized_mode-Fits : (o : Option ℕ) → FitsMode (sized_mode false o)
unfolding sized_mode
sized_mode-Fits none = tt
sized_mode-Fits (some n) = ground arith

length_mode-Fits : (r : Result (Option ℕ)) → FitsMode (r >>= sized_mode false)
length_mode-Fits (err e) = tt
length_mode-Fits (ok o) = sized_mode-Fits o

body_mode-Fits : (method : Bytes) (h : Head) → FitsMode (body_mode method h false)
unfolding body_mode
body_mode-Fits method h = ground (arith, length_mode-Fits (content_length_from none h.headers))

on_mode-Round :
    (h : Head) (m : Result BodyMode) (s : Exchange)
    → s.streaming ≡ false
    → Valid in_head s
    → FitsMode m
    → Round (on_mode h m s)
unfolding on_mode
on_mode-Round h (err e) s buffered valid fits = tt
on_mode-Round h (ok m) s buffered (empty, start, quiet) fits =
    enter-Round m (record s { head = some h }) buffered (rw (empty, start) (refl, quiet, tt)) start
      fits

pub on_parsed-Round :
    (p : Result Head) (s : Exchange)
    → s.state ≡ in_head
    → s.streaming ≡ false
    → Valid in_head s
    → Round (on_parsed p s)
unfolding on_parsed
on_parsed-Round (err e) s at_head buffered valid = tt
on_parsed-Round (ok h) s at_head buffered valid =
    let fits =
      subst (λ b. FitsMode (body_mode s.method h b)) (sym buffered) (body_mode-Fits s.method h) in
    elim (Bool-cases (is_interim_status h.status)) [
      | inl e ↦ rw e (
          or_fault-Round (ltb max_interim_responses (s.interim + 1))
            "too many interim (1xx) responses" (again (record s { interim = s.interim + 1 }))
            (λ few. stays in_head (record s { interim = s.interim + 1 }) at_head buffered valid))
      | inr e ↦ rw e (on_mode-Round h (body_mode s.method h s.streaming) s buffered valid fits)
    ]

absorbed :
    (s : Exchange)
    → length s.body ≡ s.body_total
    → length (s.body ++ s.rx) ≡ s.body_total + length s.rx
absorbed s counted = omega (arith, length-append s.body s.rx, counted)

pub on_length-Round :
    (n : ℕ) (s : Exchange)
    → s.state ≡ in_length n
    → s.streaming ≡ false
    → Valid (in_length n) s
    → Round (on_length n s)
unfolding on_length
on_length-Round n s at_st buffered ((counted, quiet, has), low, high) =
    elim (Bool-cases (leb n (s.body_total + length s.rx))) [
      | inl e ↦ rw e (
          finish-Round
            (record s {
              body = s.body ++ take (n - s.body_total) s.rx;
              rx = drop (n - s.body_total) s.rx;
              body_total = s.body_total + (n - s.body_total);
            })
            buffered
            (
              omega (
                arith,
                counted,
                leb→le n (s.body_total + length s.rx) e,
                length-append s.body (take (n - s.body_total) s.rx),
                length-take (n - s.body_total) s.rx,
              ),
              quiet,
              has,
            )
            (omega arith))
      | inr e ↦ rw e (
          rests (in_length n) (absorb s) at_st buffered
            ((absorbed s counted, quiet, has), leb→lt n (s.body_total + length s.rx) e, high) tt)
    ]

pub on_eof_body-Round :
    (s : Exchange) → s.state ≡ in_eof → s.streaming ≡ false → Valid in_eof s → Round (on_eof_body s)
unfolding on_eof_body
on_eof_body-Round s at_st buffered ((counted, quiet, has), high) =
    or_fault-Round (not s.streaming && ltb max_body_bytes (s.body_total + length s.rx))
      "body too large" (pause (absorb s))
      (λ small.
        rests in_eof (absorb s) at_st buffered
          (
            (absorbed s counted, quiet, has),
            within_cap s (s.body_total + length s.rx) buffered small,
          )
          refl)
