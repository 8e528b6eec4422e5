-- ===== src/Http1/Resume/Pieces.antt =====
-- src/proto/http1.rs: however the bytes of a response are cut into pieces, a buffered exchange does
-- the same.
use mathlib.Core.Path.{subst}
use rsurl.Base.{
  ℕ, zero, suc, ◌<◌, true, false, List, [], ◌∷◌, ◌++◌, append-nil, append_assoc, ◌≡◌, refl, sym, ap,
  ◌∙◌, if◌then◌else◌, inl, inr, Bool-cases, arith,
}
use rsurl.Base.Bytes.{Bytes}
use rsurl.Http1.Bounds.{Resting}
use rsurl.Http1.Bounds.Calls.{then_call}
use rsurl.Http1.Bounds.Input.{Settled, advance-Settled, extend-Buffered, handle_input-Settled}
use rsurl.Http1.Exchange.{
  emit_if_streaming, find_header_end, step_in, step, advance, handle_input, is_done,
}
use rsurl.Http1.Fuel.{resume, advance-step, size, Drains, step-Drains}
use rsurl.Http1.Machine.{
  State, in_head, in_length, in_chunks, in_eof, finished, Exchange, Step, again, pause, fail,
  panicked, emit_streaming,
}
use rsurl.Http1.Resume.{
  extend, Follows, from_round, on_head-Follows, on_length-Follows, on_eof_body-Follows,
}
use rsurl.Http1.Resume.Chunks.{advance_chunked-Follows}
use rsurl.Http1.Scan.{find_header_end-Within}

step_in-Follows :
    (more : Bytes) (st : State) (s : Exchange)
    → s.state ≡ st
    → Follows more (step_in st s) (step_in st (extend more s))
unfolding step_in
step_in-Follows more in_head s at_st =
    on_head-Follows more (find_header_end s.rx) s at_st refl (find_header_end-Within s.rx)
step_in-Follows more (in_length k) s at_st = on_length-Follows more k s at_st
step_in-Follows more (in_chunks cs) s at_st = advance_chunked-Follows more cs s
step_in-Follows more in_eof s at_st = on_eof_body-Follows more s at_st
step_in-Follows more finished s at_st = from_round finished (extend more s) at_st

step-Follows : (more : Bytes) (s : Exchange) → Follows more (step s) (step (extend more s))
unfolding step
step-Follows more s = step_in-Follows more s.state s refl

-- The loop on more bytes goes on where the loop on the first ones stopped.
resume-extend :
    (more : Bytes) (n : ℕ) (r r' : Step) (s' : Exchange)
    → ((s : Exchange)
        → size s < n
        → advance s ≡ pause s'
        → advance (extend more s) ≡ advance (extend more s'))
    → Drains n r
    → Follows more r r'
    → resume r ≡ pause s'
    → resume r' ≡ advance (extend more s')
resume-extend more n (again s) r' s' ih small follows stops = follows ∙ ih s small stops
resume-extend more n (pause s) r' s' ih small follows stops = follows ∙ cc
resume-extend more n (fail e) r' s' ih small follows stops = cc
resume-extend more n panicked r' s' ih small follows stops = cc

advance-extend_below :
    (more : Bytes) (n : ℕ) (s s' : Exchange)
    → size s < n
    → advance s ≡ pause s'
    → advance (extend more s) ≡ advance (extend more s')
advance-extend_below more zero s s' small stops = absurd (omega arith)
advance-extend_below more (suc n) s s' small stops =
    advance-step (extend more s)
    ∙ resume-extend more (size s) (step s) (step (extend more s)) s'
        (λ t shorter. advance-extend_below more n t s' (omega arith)) (step-Drains s)
        (step-Follows more s) (sym (advance-step s) ∙ stops)

-- The loop on more bytes goes on where the loop on the first ones paused.
pub advance-extend :
    (more : Bytes) (s s' : Exchange)
    → advance s ≡ pause s'
    → advance (extend more s) ≡ advance (extend more s')
advance-extend more s s' stops = advance-extend_below more (suc (size s)) s s' (omega arith) stops

emit_buffered : (r : Step) → Settled r → emit_if_streaming r ≡ r
emit_buffered (again s) h = refl
emit_buffered (pause s) (buffered, valid, drained) =
    ap (λ b. pause (if b then emit_streaming s else s)) buffered
emit_buffered (fail e) h = refl
emit_buffered panicked h = refl

-- A buffered exchange that is not finished: `handle_input` is the loop.
pub handle_input_buffered :
    (wire : Bytes) (s : Exchange)
    → Resting s
    → is_done s.state ≡ false
    → handle_input wire s ≡ advance (extend wire s)
unfolding handle_input
handle_input_buffered wire s (buffered, valid, drained) going =
    ap (λ c. if c then pause s else emit_if_streaming (advance (extend wire s))) going
    ∙ emit_buffered (advance (extend wire s))
        (advance-Settled (extend wire s) (buffered, extend-Buffered wire s.state s valid))

done-finished : (st : State) → is_done st ≡ true → st ≡ finished
done-finished in_head ended = cc
done-finished (in_length n) ended = cc
done-finished (in_chunks cs) ended = cc
done-finished in_eof ended = cc
done-finished finished ended = refl

-- The next bytes, or the end of the exchange, which takes no more.
next_input :
    (wire : Bytes) (s : Exchange)
    → Resting s
    → advance (extend wire s)
      ≡ (if is_done s.state then pause (extend wire s) else handle_input wire s)
unfolding step_in
next_input wire s h = elim (Bool-cases (is_done s.state)) [
  | inl ended ↦ rw ended (sym (from_round finished (extend wire s) (done-finished s.state ended)))
  | inr going ↦ rw going (sym (handle_input_buffered wire s h going))
]

-- The bytes `b` behind the bytes `a`.
handle_input-append :
    (a b : Bytes) (s s' : Exchange)
    → Resting s
    → is_done s.state ≡ false
    → handle_input a s ≡ pause s'
    → handle_input (a ++ b) s
      ≡ (if is_done s'.state then pause (extend b s') else handle_input b s')
handle_input-append a b s s' h going stops =
    handle_input_buffered (a ++ b) s h going
    ∙ ap (λ l. advance (record s { rx = l })) (sym (append_assoc s.rx a b))
    ∙ advance-extend b (extend a s) s' (sym (handle_input_buffered a s h going) ∙ stops)
    ∙ next_input b s' (subst Settled stops (handle_input-Settled a s h))

-- `handle_input` for each piece, up to one that fails.
abbrev pub feed : Bytes → List Bytes → Exchange → Step
feed piece [] s = handle_input piece s
feed piece (next ∷ pieces) s = then_call (feed next pieces) (handle_input piece s)

abbrev pub join : List Bytes → Bytes
join [] = []
join (piece ∷ pieces) = piece ++ join pieces

feed_done :
    (piece : Bytes) (pieces : List Bytes) (s : Exchange)
    → is_done s.state ≡ true
    → feed piece pieces s ≡ pause s
unfolding handle_input
feed_done piece [] s ended = rw ended refl
feed_done piece (next ∷ pieces) s ended = rw ended (feed_done next pieces s ended)

then_call-eq-pause :
    (next : Exchange → Step) (r : Step) (s' : Exchange)
    → then_call next r ≡ pause s'
    → (t : Exchange) × (r ≡ pause t) × (next t ≡ pause s')
then_call-eq-pause next (again s) s' paused = cc
then_call-eq-pause next (pause s) s' paused = (s, refl, paused)
then_call-eq-pause next (fail e) s' paused = cc
then_call-eq-pause next panicked s' paused = cc

still_going : (t s : Exchange) → t ≡ s → is_done t.state ≡ true → is_done s.state ≡ false → ⊥
still_going t s same ended going =
    let both : is_done t.state ≡ is_done s.state = ap (λ x. is_done x.state) same in cc

-- The pieces of a response to a buffered exchange, however they are cut, do what all of them do at
-- once: where none of them fails, the whole input does not fail, and leaves the same state, events
-- and body, and the same bytes unread. Bytes behind the end of the response, which `handle_input`
-- drops when they come in a piece of their own, are then left unread too.
pub feed-join :
    (piece : Bytes) (pieces : List Bytes) (s s' : Exchange)
    → Resting s
    → is_done s.state ≡ false
    → feed piece pieces s ≡ pause s'
    → (left : Bytes) × (handle_input (piece ++ join pieces) s ≡ pause (extend left s'))
      × (is_done s'.state ≡ false → left ≡ [])
feed-join piece [] s s' h going fed = (
  [],
  ap (λ wire. handle_input wire s) (append-nil piece)
      ∙ fed
      ∙ ap (λ rx. pause (record s' { rx = rx })) (sym (append-nil s'.rx)),
  λ more. refl,
)
feed-join piece (next ∷ pieces) s s' h going fed =
    let (t, first, rest) = then_call-eq-pause (feed next pieces) (handle_input piece s) s' fed in
    let here = handle_input-append piece (next ++ join pieces) s t h going first in
    elim (Bool-cases (is_done t.state)) [
      | inl ended ↦
          let all = next ++ join pieces in
          let stopped : pause t ≡ pause s' = sym (feed_done next pieces t ended) ∙ rest in
          let same : t ≡ s' = cc in
          (
            all,
            here
                ∙ ap (λ c. if c then pause (extend all t) else handle_input all t) ended
                ∙ ap (λ x. pause (extend all x)) same,
            λ more. absurd (still_going t s' same ended more),
          )
      | inr more ↦
          let rests = subst Settled first (handle_input-Settled piece s h) in
          let (left, whole, none) = feed-join next pieces t s' rests more rest in
          let all = next ++ join pieces in
          (
            left,
            here ∙ ap (λ c. if c then pause (extend all t) else handle_input all t) more ∙ whole,
            none,
          )
    ]
