-- ===== src/Websocket/Stream/Chunks.antt =====
-- src/websocket.rs: the frames that `read_frame` returns do not depend on how the transport cuts
-- the stream into reads, nor on read errors between them.
use rsurl.Base.{ℕ, none, some, List, [], ◌∷◌, ◌++◌, drop, ok, err, ◌≡◌}
use rsurl.Base.Bytes.{Bytes}
use rsurl.Websocket.Frame.{Frame, try_parse_frame}
use rsurl.Websocket.Stream.{Read, chunk, read_error, Outcome, returned, waiting}

-- The bytes that reads deliver.
abbrev pub delivered : List Read → Bytes
delivered [] = []
delivered (chunk bytes ∷ reads) = bytes ++ delivered reads
delivered (read_error e ∷ reads) = delivered reads

-- What a call may do with the bytes `all` that are buffered or still to come: it returns the frame
-- at their front and leaves the rest; it fails and leaves all of them; or it waits, and no whole
-- frame is there.
abbrev pub Keeps : Bytes → Outcome → Type 0
Keeps all (returned (ok f) rx left) =
    (n : ℕ) × (try_parse_frame all ≡ ok (some (f, n))) × (rx ++ delivered left ≡ drop n all)
Keeps all (returned (err e) rx left) = rx ++ delivered left ≡ all
Keeps all (waiting rx) = (rx ≡ all) × (try_parse_frame all ≡ ok none)
