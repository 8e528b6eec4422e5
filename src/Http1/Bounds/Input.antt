-- ===== src/Http1/Bounds/Input.antt =====
-- src/proto/http1.rs: what holds of a buffered exchange holds behind `handle_input` and `handle_eof`.
use mathlib.Core.Path.{subst}
use rsurl.Base.{
  ℕ, zero, suc, ◌≤◌, ◌<◌, Bool, true, false, Option, none, some, [], ◌++◌, length, take, drop,
  length-append, ltb, if◌then◌else◌, ◌≡◌, refl, sym, ap, arith,
}
use rsurl.Base.Bytes.{Bytes}
use rsurl.Http1.Exchange.{
  is_done, find_header_end, on_head, step_in, step, advance, handle_input, handle_eof, eof_in,
  emit_if_streaming, settle,
}
use rsurl.Http1.Fuel.{resume, advance-step, size, Drains, step-Drains}
use rsurl.Http1.Head.{Head, max_body_bytes, max_header_bytes, parse_head}
use rsurl.Http1.Resume.{extend}
use rsurl.Http1.Machine.{
  State, in_head, in_length, in_chunks, in_eof, finished, Exchange, Step, again, pause, fail,
  panicked, respond, emit_streaming,
}
use rsurl.Http1.Bounds.{
  HasHead, Drained, finish_buffered, Valid, Buffered, Resting, Round, rests, or_fault-Round,
  on_parsed-Round, on_length-Round, on_eof_body-Round,
}
use rsurl.Http1.Bounds.Chunks.{advance_chunked-Round}

on_head-Round :
    (o : Option ℕ) (s : Exchange)
    → s.state ≡ in_head
    → s.streaming ≡ false
    → Valid in_head s
    → Round (on_head o s)
unfolding on_head
on_head-Round none s at_st buffered valid =
    or_fault-Round (ltb max_header_bytes (length s.rx)) "headers exceed 64 KiB" (pause s)
      (λ small. rests in_head s at_st buffered valid tt)
on_head-Round (some k) s at_st buffered valid =
    on_parsed-Round (parse_head (take k s.rx)) (record s { rx = drop k s.rx }) at_st buffered valid

step_in-Round :
    (st : State) (s : Exchange)
    → s.state ≡ st
    → s.streaming ≡ false
    → Valid st s
    → Round (step_in st s)
unfolding step_in
step_in-Round in_head s at_st buffered valid =
    on_head-Round (find_header_end s.rx) s at_st buffered valid
step_in-Round (in_length n) s at_st buffered valid = on_length-Round n s at_st buffered valid
step_in-Round (in_chunks cs) s at_st buffered valid = advance_chunked-Round cs s buffered valid
step_in-Round in_eof s at_st buffered valid = on_eof_body-Round s at_st buffered valid
step_in-Round finished s at_st buffered valid = rests finished s at_st buffered valid tt

step-Round : (s : Exchange) → Buffered s → Round (step s)
unfolding step
step-Round s (buffered, valid) = step_in-Round s.state s refl buffered valid

-- A call that comes to its end, without a panic: what holds of the exchange holds behind it.
abbrev pub Settled : Step → Type 0
Settled (again s) = ⊥
Settled (pause s) = Resting s
Settled (fail e) = Unit
Settled panicked = ⊥

resume-Settled :
    (n : ℕ) (r : Step)
    → ((s : Exchange) → size s < n → Buffered s → Settled (advance s))
    → Drains n r
    → Round r
    → Settled (resume r)
resume-Settled n (again s) ih shorter round = ih s shorter round
resume-Settled n (pause s) ih shorter round = round
resume-Settled n (fail e) ih shorter round = tt
resume-Settled n panicked ih shorter round = round

advance-Settled_below : (n : ℕ) (s : Exchange) → size s < n → Buffered s → Settled (advance s)
advance-Settled_below zero s small valid = absurd (omega arith)
advance-Settled_below (suc n) s small valid = subst Settled (sym (advance-step s)) (
    resume-Settled (size s) (step s)
      (λ t shorter valid'. advance-Settled_below n t (omega arith) valid') (step-Drains s)
      (step-Round s valid))

pub advance-Settled : (s : Exchange) → Buffered s → Settled (advance s)
advance-Settled s valid = advance-Settled_below (suc (size s)) s (omega arith) valid

emit_if_streaming-Settled : (r : Step) → Settled r → Settled (emit_if_streaming r)
emit_if_streaming-Settled (again s) h = h
emit_if_streaming-Settled (pause s) (buffered, valid, drained) =
    subst (λ b. Resting (if b then emit_streaming s else s)) (sym buffered)
      (buffered, valid, drained)
emit_if_streaming-Settled (fail e) h = tt
emit_if_streaming-Settled panicked h = h

if-Settled : (c : Bool) (a b : Step) → Settled a → Settled b → Settled (if c then a else b)
if-Settled true a b h h' = h
if-Settled false a b h h' = h'

-- More bytes change none of what holds between rounds.
pub extend-Buffered :
    (wire : Bytes) (st : State) (s : Exchange) → Valid st s → Valid st (extend wire s)
extend-Buffered wire in_head s h = h
extend-Buffered wire (in_length n) s h = h
extend-Buffered wire (in_chunks cs) s h = h
extend-Buffered wire in_eof s h = h
extend-Buffered wire finished s h = h

pub handle_input-Settled : (wire : Bytes) (s : Exchange) → Resting s → Settled (handle_input wire s)
unfolding handle_input
handle_input-Settled wire s (buffered, valid, drained) =
    if-Settled (is_done s.state) (pause s) (emit_if_streaming (advance (extend wire s)))
      (buffered, valid, drained)
      (emit_if_streaming-Settled (advance (extend wire s))
        (advance-Settled (extend wire s) (buffered, extend-Buffered wire s.state s valid)))

settle-respond-Settled :
    (h : Option Head) (s : Exchange)
    → HasHead h
    → s.streaming ≡ false
    → s.events ≡ []
    → length s.body ≤ max_body_bytes
    → Settled (settle (respond h s))
unfolding respond
settle-respond-Settled none s has buffered quiet small = has
settle-respond-Settled (some h) s has buffered quiet small = (buffered, rw quiet small, tt)

eof_in-Settled : (st : State) (s : Exchange) → s.state ≡ st → Resting s → Settled (eof_in st s)
unfolding eof_in
eof_in-Settled in_head s at_st h = tt
eof_in-Settled (in_length n) s at_st h = tt
eof_in-Settled (in_chunks cs) s at_st h = tt
eof_in-Settled in_eof s at_st (buffered, valid, drained) =
    let ((counted, quiet, has), high) = subst (λ t. Valid t s) at_st valid in
    let empty = subst (λ t. Drained t s.rx) at_st drained in
    let last = record s { body = s.body ++ s.rx; rx = [] } in
    subst (λ r. Settled (settle r)) (sym (finish_buffered last buffered))
      (settle-respond-Settled s.head last has buffered quiet
        (omega (arith, length-append s.body s.rx, ap length empty, counted, high)))
eof_in-Settled finished s at_st h = h

pub handle_eof-Settled : (s : Exchange) → Resting s → Settled (handle_eof s)
unfolding handle_eof
handle_eof-Settled s h = eof_in-Settled s.state s refl h
