-- ===== src/Http1/Bounds/Calls.antt =====
-- src/proto/http1.rs: what holds of a buffered exchange through all its calls.
use mathlib.Core.Path.{subst}
use rsurl.Base.{false, List, [], ◌∷◌, ◌≡◌, refl}
use rsurl.Base.Bytes.{Bytes}
use rsurl.Http1.Exchange.{handle_input, handle_eof, poll_event, pop_front}
use rsurl.Http1.Machine.{
  Event, response, head_event, body_event, end_event, State, in_head, in_length, in_chunks, in_eof,
  finished, Exchange, Step, again, pause, fail, panicked, build,
}
use rsurl.Http1.Bounds.{Delivered, Valid, Resting}
use rsurl.Http1.Bounds.Input.{Settled, handle_input-Settled, handle_eof-Settled}

-- A call of the code that drives the exchange.
pub data Call : Type 0 where
  input : Bytes → Call
  eof : Call
  poll : Call

abbrev pub call : Call → Exchange → Step
call (input wire) s = handle_input wire s
call eof s = handle_eof s
call poll s = pause (poll_event s).1

abbrev pub then_call : (Exchange → Step) → Step → Step
then_call next (pause s) = next s
then_call next (again s) = again s
then_call next (fail e) = fail e
then_call next panicked = panicked

abbrev pub drive : List Call → Exchange → Step
drive [] s = pause s
drive (c ∷ calls) s = then_call (drive calls) (call c s)

Delivered-tail : (e : Event) (events : List Event) → Delivered (e ∷ events) → Delivered events
Delivered-tail e [] h = tt
Delivered-tail (response head body) (x ∷ events) h = absurd h
Delivered-tail (head_event head) (x ∷ events) h = absurd h
Delivered-tail (body_event body) (x ∷ events) h = absurd h
Delivered-tail end_event (x ∷ events) h = absurd h

pop-Valid :
    (st : State) (e : Event) (events : List Event) (s : Exchange)
    → s.events ≡ e ∷ events
    → Valid st s
    → Valid st (record s { events = events })
pop-Valid in_head e events s queued (empty, start, quiet) = cc
pop-Valid (in_length n) e events s queued (counts, low, high) = let quiet = counts.1 in cc
pop-Valid (in_chunks cs) e events s queued (counts, valid) = let quiet = counts.1 in cc
pop-Valid in_eof e events s queued (counts, valid) = let quiet = counts.1 in cc
pop-Valid finished e events s queued h = Delivered-tail e events (subst Delivered queued h)

pop_front-Resting :
    (events : List Event) (s : Exchange)
    → s.events ≡ events
    → Resting s
    → Resting (pop_front events s).1
pop_front-Resting [] s queued h = h
pop_front-Resting (e ∷ events) s queued (buffered, valid, drained) =
    (buffered, pop-Valid s.state e events s queued valid, drained)

poll_event-Resting : (s : Exchange) → Resting s → Resting (poll_event s).1
unfolding poll_event
poll_event-Resting s h = pop_front-Resting s.events s refl h

call-Settled : (c : Call) (s : Exchange) → Resting s → Settled (call c s)
call-Settled (input wire) s h = handle_input-Settled wire s h
call-Settled eof s h = handle_eof-Settled s h
call-Settled poll s h = poll_event-Resting s h

then_call-Settled :
    (r : Step) (next : Exchange → Step)
    → ((s : Exchange) → Resting s → Settled (next s))
    → Settled r
    → Settled (then_call next r)
then_call-Settled (again s) next h settled = settled
then_call-Settled (pause s) next h settled = h s settled
then_call-Settled (fail e) next h settled = tt
then_call-Settled panicked next h settled = settled

drive-Settled_from : (calls : List Call) (s : Exchange) → Resting s → Settled (drive calls s)
drive-Settled_from [] s h = h
drive-Settled_from (c ∷ calls) s h =
    then_call-Settled (call c s) (drive calls) (λ t rest. drive-Settled_from calls t rest)
      (call-Settled c s h)

-- Whatever calls of `handle_input`, `handle_eof` and `poll_event` follow each other on a new
-- buffered exchange, until one fails: every call ends, the `expect` of `finish` does not panic, the
-- body held is as long as `body_total` says and no longer than `MAX_BODY_BYTES` until the exchange
-- is finished, and at most one event is ever queued: a response with such a body, once it is
-- finished.
pub drive-Settled :
    (method request : Bytes) (calls : List Call)
    → Settled (drive calls (build method request false))
unfolding build
drive-Settled method request calls =
    drive-Settled_from calls (build method request false) (refl, (refl, refl, refl), tt)
