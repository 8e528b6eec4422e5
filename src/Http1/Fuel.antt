-- ===== src/Http1/Fuel.antt =====
-- src/proto/http1.rs: each round of the loop in `advance` takes a byte or finishes, so the loop
-- ends, and its fuel is enough.
use mathlib.Core.Path.{subst}
use rsurl.Base.{
  ℕ, zero, suc, ◌+◌, ◌-◌, ◌≤◌, ◌<◌, min, Bool, true, false, Option, none, some, [], ◌∷◌, ◌++◌,
  length, take, drop, length-drop, ◌==◌, if◌then◌else◌, Result, ok, err, ◌≡◌, refl, sym, ◌∙◌, arith,
}
use rsurl.Base.Bytes.{Bytes}
use rsurl.Http1.Chunked.{
  find_newline, on_trailer, on_data, on_size, on_size_line, chunk_part, on_crlf, advance_chunked,
}
use rsurl.Http1.Exchange.{
  find_header_end, enter, on_mode, on_parsed, on_head, on_length, on_eof_body, step_in, step, run,
  advance,
}
use rsurl.Http1.Head.{
  Head, body_mode, parse_chunk_size, BodyMode, no_body, sized, chunks, until_eof,
}
use rsurl.Http1.Machine.{
  ChunkState, State, in_head, in_length, in_chunks, in_eof, finished, Exchange, Step, again, pause,
  fail, panicked, end_stream, emit_streaming, respond, finish, suc_some,
}
use rsurl.Http1.Scan.{Within, find_header_end-Within, find_newline-Within}

-- Rounds left: one for each byte, and one to finish.
abbrev still : State → ℕ
still finished = 0
still _ = 1

abbrev pub size : Exchange → ℕ
size s = length s.rx + still s.state

still_bound : (st : State) → still st ≤ 1
still_bound in_head = omega arith
still_bound (in_length n) = omega arith
still_bound (in_chunks cs) = omega arith
still_bound in_eof = omega arith
still_bound finished = omega arith

-- A round that is followed by another one has fewer left than `n`.
abbrev pub Drains : ℕ → Step → Type 0
Drains n (again s) = size s < n
Drains n (pause s) = Unit
Drains n (fail e) = Unit
Drains n panicked = Unit

if-Drains :
    (c : Bool) (n : ℕ) (a b : Step) → Drains n a → Drains n b → Drains n (if c then a else b)
if-Drains true n a b ha hb = ha
if-Drains false n a b ha hb = hb

respond-Drains : (h : Option Head) (s : Exchange) (n : ℕ) → length s.rx < n → Drains n (respond h s)
unfolding respond
respond-Drains none s n h = tt
respond-Drains (some x) s n h = omega arith

finish-Drains : (s : Exchange) (n : ℕ) → length s.rx < n → Drains n (finish s)
unfolding finish end_stream emit_streaming
finish-Drains s n h =
    if-Drains s.streaming n (again (end_stream s)) (respond s.head s) (omega arith)
      (respond-Drains s.head s n h)

enter-Drains : (m : BodyMode) (s : Exchange) (n : ℕ) → length s.rx + 1 < n → Drains n (enter m s)
unfolding enter
enter-Drains no_body s n h = finish-Drains s n (omega arith)
enter-Drains (sized k) s n h =
    if-Drains (k == 0) n _ _ (finish-Drains s n (omega arith)) (omega arith)
enter-Drains chunks s n h = omega arith
enter-Drains until_eof s n h = omega arith

on_mode-Drains :
    (h : Head) (m : Result BodyMode) (s : Exchange) (n : ℕ)
    → length s.rx + 1 < n
    → Drains n (on_mode h m s)
unfolding on_mode
on_mode-Drains h (err e) s n small = tt
on_mode-Drains h (ok m) s n small = enter-Drains m _ n small

on_parsed-Drains :
    (p : Result Head) (s : Exchange) (n : ℕ)
    → s.state ≡ in_head
    → length s.rx + 1 < n
    → Drains n (on_parsed p s)
unfolding on_parsed
on_parsed-Drains (err e) s n at_head small = tt
on_parsed-Drains (ok h) s n at_head small =
    ground (arith, at_head, small, on_mode-Drains h (body_mode s.method h s.streaming) s n small)

on_head-Drains :
    (o : Option ℕ) (s : Exchange)
    → s.state ≡ in_head
    → Within 2 (length s.rx) o
    → Drains (length s.rx + 1) (on_head o s)
unfolding on_head
on_head-Drains none s at_head h = ground arith
on_head-Drains (some k) s at_head (h, h') =
    on_parsed-Drains _ _ _ at_head (omega (arith, length-drop k s.rx))

on_length-Drains : (k : ℕ) (s : Exchange) → Drains (length s.rx + 1) (on_length k s)
unfolding on_length
on_length-Drains k s =
    let taken = record s {
      body = s.body ++ take (k - s.body_total) s.rx;
      rx = drop (k - s.body_total) s.rx;
      body_total = s.body_total + (k - s.body_total);
    } in
    let n = length s.rx + 1 in
    ground (arith, finish-Drains taken n (omega (arith, length-drop (k - s.body_total) s.rx)))

on_trailer-Drains :
    (o : Option ℕ) (cs : ChunkState) (s : Exchange) (n : ℕ)
    → Within 1 (length s.rx) (suc_some o)
    → length s.rx < n
    → Drains n (on_trailer o cs s)
unfolding on_trailer
on_trailer-Drains none cs s n h small = ground arith
on_trailer-Drains (some k) cs s n (h, h') small =
    let shorter : length (drop (suc k) s.rx) < n = omega (arith, length-drop (suc k) s.rx) in
    let ended = finish-Drains (record s { rx = drop (suc k) s.rx }) n shorter in
    ground (arith, length-drop (suc k) s.rx)

on_data-Drains :
    (cs : ChunkState) (s : Exchange) (n : ℕ) → length s.rx < n → Drains n (on_data cs s)
unfolding on_data
on_data-Drains cs s n small = ground (arith, length-drop (min cs.remaining (length s.rx)) s.rx)

on_size-Drains :
    (r : Result ℕ) (cs : ChunkState) (s : Exchange) (n : ℕ)
    → length s.rx + 1 < n
    → Drains n (on_size r cs s)
unfolding on_size
on_size-Drains (err e) cs s n small = tt
on_size-Drains (ok k) cs s n small = ground arith

on_size_line-Drains :
    (o : Option ℕ) (cs : ChunkState) (s : Exchange) (n : ℕ)
    → Within 1 (length s.rx) (suc_some o)
    → length s.rx < n
    → Drains n (on_size_line o cs s)
unfolding on_size_line
on_size_line-Drains none cs s n h small = ground arith
on_size_line-Drains (some k) cs s n (h, h') small =
    on_size-Drains (parse_chunk_size (take (suc k) s.rx)) cs (record s { rx = drop (suc k) s.rx }) n
      (omega (arith, length-drop (suc k) s.rx))

chunk_part-Drains :
    (cs : ChunkState) (s : Exchange) (n : ℕ) → length s.rx < n → Drains n (chunk_part cs s)
unfolding chunk_part
chunk_part-Drains cs s n small =
    let found = find_newline-Within s.rx in
    ground (
      arith,
      on_trailer-Drains (find_newline s.rx) cs s n found small,
      on_data-Drains cs s n small,
      on_size_line-Drains (find_newline s.rx) cs s n found small,
    )

on_crlf-Drains :
    (l : Bytes) (cs : ChunkState) (s : Exchange) (n : ℕ) → length l < n → Drains n (on_crlf l cs s)
unfolding on_crlf
on_crlf-Drains [] cs s n small = tt
on_crlf-Drains (a ∷ []) cs s n small = tt
on_crlf-Drains (a ∷ b ∷ rest) cs s n small =
    let behind = record s { rx = rest } in
    ground (arith, chunk_part-Drains (record cs { crlf_pending = false }) behind n (omega arith))

advance_chunked-Drains :
    (cs : ChunkState) (s : Exchange) → Drains (length s.rx + 1) (advance_chunked cs s)
unfolding advance_chunked
advance_chunked-Drains cs s =
    if-Drains cs.crlf_pending _ _ _ (on_crlf-Drains s.rx cs s _ (omega arith))
      (chunk_part-Drains cs s _ (omega arith))

step_in-Drains :
    (st : State) (s : Exchange) → s.state ≡ st → Drains (length s.rx + still st) (step_in st s)
unfolding step_in on_eof_body
step_in-Drains in_head s at_st =
    on_head-Drains (find_header_end s.rx) s at_st (find_header_end-Within s.rx)
step_in-Drains (in_length k) s at_st = on_length-Drains k s
step_in-Drains (in_chunks cs) s at_st = advance_chunked-Drains cs s
step_in-Drains in_eof s at_st = ground arith
step_in-Drains finished s at_st = tt

pub step-Drains : (s : Exchange) → Drains (size s) (step s)
unfolding step
step-Drains s = step_in-Drains s.state s refl

-- The rest of a run, behind a round.
abbrev pub next_run : ℕ → Step → Step
next_run fuel (again s) = run fuel s
next_run fuel (pause s) = pause s
next_run fuel (fail e) = fail e
next_run fuel panicked = panicked

pub run-suc : (fuel : ℕ) (s : Exchange) → run (suc fuel) s ≡ next_run fuel (step s)
unfolding run
run-suc fuel s = elim (step s) [
  | again s' ↦ refl
  | pause s' ↦ refl
  | fail e ↦ refl
  | panicked ↦ refl
]

next_run_enough :
    (f g n : ℕ) (r : Step)
    → ((s : Exchange) → size s < n → run f s ≡ run g s)
    → Drains n r
    → next_run f r ≡ next_run g r
next_run_enough f g n (again s) ih h = ih s h
next_run_enough f g n (pause s) ih h = refl
next_run_enough f g n (fail e) ih h = refl
next_run_enough f g n panicked ih h = refl

-- Behind a round, the loop goes on as if it began there.
abbrev pub resume : Step → Step
resume (again s) = advance s
resume (pause s) = pause s
resume (fail e) = fail e
resume panicked = panicked

-- More fuel than the rounds left changes nothing.
pub run_enough : (f g : ℕ) (s : Exchange) → size s < f → size s < g → run f s ≡ run g s
run_enough zero g s h h' = absurd (omega arith)
run_enough (suc f) zero s h h' = absurd (omega arith)
run_enough (suc f) (suc g) s h h' =
    rw (run-suc f s, run-suc g s)
      (next_run_enough f g (size s) (step s)
        (λ s' small. run_enough f g s' (omega arith) (omega arith)) (step-Drains s))

next_run-resume : (f n : ℕ) (r : Step) → n ≤ f → Drains n r → next_run f r ≡ resume r
unfolding advance
next_run-resume f n (again s) h h' =
    run_enough f (suc (suc (length s.rx))) s (omega arith) (omega (arith, still_bound s.state))
next_run-resume f n (pause s) h h' = refl
next_run-resume f n (fail e) h h' = refl
next_run-resume f n panicked h h' = refl

-- The loop runs the next round, whatever that is, and goes on behind it.
pub advance-step : (s : Exchange) → advance s ≡ resume (step s)
unfolding advance
advance-step s =
    run-suc (suc (length s.rx)) s
    ∙ next_run-resume (suc (length s.rx)) (size s) (step s) (omega (arith, still_bound s.state))
        (step-Drains s)

-- A loop that has come to its end.
abbrev pub Returned : Step → Type 0
Returned (again s) = ⊥
Returned _ = Unit

resume-Returned :
    (n : ℕ) (r : Step)
    → ((s : Exchange) → size s < n → Returned (advance s))
    → Drains n r
    → Returned (resume r)
resume-Returned n (again s) ih h = ih s h
resume-Returned n (pause s) ih h = tt
resume-Returned n (fail e) ih h = tt
resume-Returned n panicked ih h = tt

advance-Returned_below : (n : ℕ) (s : Exchange) → size s < n → Returned (advance s)
advance-Returned_below zero s small = absurd (omega arith)
advance-Returned_below (suc n) s small = subst Returned (sym (advance-step s)) (
    resume-Returned (size s) (step s) (λ t shorter. advance-Returned_below n t (omega arith))
      (step-Drains s))

-- The loop of `advance` comes to its end on every state of the exchange, buffered or streaming, and
-- with any fuel above one round for each byte received and one to finish it ends in the same way.
pub run-Returned :
    (fuel : ℕ) (s : Exchange) → size s < fuel → (run fuel s ≡ advance s) × Returned (run fuel s)
unfolding advance
run-Returned fuel s enough =
    let same =
      run_enough fuel (suc (suc (length s.rx))) s enough (omega (arith, still_bound s.state)) in
    (same, subst Returned (sym same) (advance-Returned_below (suc (size s)) s (omega arith)))
