-- ===== src/Websocket/Stream.antt =====
-- src/websocket.rs: `read_frame`, which reads until a whole frame is buffered. A read of the
-- transport is an input: bytes (none of them at the end of the stream) or an error.
pub mod Chunks
use rsurl.Base.{
  ℕ, Option, none, some, List, [], ◌∷◌, ◌++◌, drop, IoKind, Result, ok, err, io, unexpected_eof,
}
use rsurl.Base.Bytes.{Bytes}
use rsurl.Websocket.Frame.{Frame, try_parse_frame}

pub data Read : Type 0 where
  chunk : Bytes → Read
  read_error : IoKind → Read

-- The result, the buffer `rx` after the call, and the reads that the call did not make. `waiting`
-- means that the inputs ran out while the call still waits for one.
pub data Outcome : Type 0 where
  returned : Result Frame → Bytes → List Read → Outcome
  waiting : Bytes → Outcome

-- The round that has parsed `rx`, and goes on by `again` if no frame is there.
unfoldable pub on_parse : Result (Option (Frame × ℕ)) → Bytes → List Read → Outcome → Outcome
on_parse (err e) rx reads again = returned (err e) rx reads
on_parse (ok (some (frame, consumed))) rx reads again = returned (ok frame) (drop consumed rx) reads
on_parse (ok none) rx reads again = again

unfoldable pub read_frame : Bytes → List Read → Outcome
unfolding on_parse
read_frame rx [] = on_parse (try_parse_frame rx) rx [] (waiting rx)
read_frame rx (chunk [] ∷ reads) =
    on_parse (try_parse_frame rx) rx (chunk [] ∷ reads) (returned (err unexpected_eof) rx reads)
read_frame rx (chunk (b ∷ bs) ∷ reads) =
    let again = read_frame (rx ++ (b ∷ bs)) reads in
    on_parse (try_parse_frame rx) rx (chunk (b ∷ bs) ∷ reads) again
read_frame rx (read_error e ∷ reads) =
    on_parse (try_parse_frame rx) rx (read_error e ∷ reads) (returned (err (io e)) rx reads)
