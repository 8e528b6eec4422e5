-- ===== src/Lib.antt =====
-- rsurl: a client for many protocols, in the manner of curl. This library models parts of it that
-- keep a protocol's state or parse what a peer sends.
--
-- The parts, and their files:
-- - Base: bytes, bits, big-endian words, lists over the native numbers, UTF-8, and results with
--   the errors of src/error.rs. A message keeps the fixed part of its format string; the message
--   `out_of_fuel` is none of the code, and marks where the fuel of a model is used up.
--   `read_exact` is the reader that returns `UnexpectedEof` at the end of its bytes.
-- - Tftp: src/tftp.rs. `Packet` has the packet codec; `Transport` says what one round of a loop
--   meets (the deadline, an error, a datagram) and what it sends; `Fetch` and `Store` are the
--   loops of `fetch_with` and `store_with`, one `step` a round, each guard in the order of the
--   code. A loop runs over the list of what its rounds meet and stops where the code returns; if
--   the list ends first, the result is the state with which the code waits for more. So no fuel is
--   needed. An address is an IP address and a port, without the flow and the scope that an IPv6
--   `SocketAddr` has besides.
-- - Peer: src/bittorrent/peer.rs, the handshake and the messages between two peers.
-- - Websocket: src/websocket.rs. `Frame` has `try_parse_frame` and `build_client_frame_inner`;
--   `Close` the payloads of close frames and the checks of control frames; `Stream` is
--   `read_frame`, over a list of reads; `Control` and `Reader` are `next_event`, one round for
--   each frame that is read. Inflation is a third-party package and a parameter; the random bytes
--   of a mask and the results of writes are inputs of a round.
-- - Mqtt: src/mqtt.rs. `Packet` builds the packets and takes bodies apart; `Wire` reads a packet
--   from a list of reads, one byte or an error each, retrying timeouts as `PatientReader` does;
--   `Session` is `run_publish` and `run_session` over a stream that records what is sent. Their
--   loops have fuel for one packet more than there are reads, and each packet takes a read. The
--   random client id is an argument.
-- - Picker: src/bittorrent/picker.rs, the bitfield and the picker. The availability of a piece
--   is a number without the width of a u32. `has` reads 0 behind the bytes of a bitfield, where
--   the source would panic: the length that its constructors give never lets it.
-- - Http1: src/proto/http1.rs, with the head parsing of src/http.rs. `Head` has the response
--   head and the framing of the body; `Machine` the state of `ClientExchange`; `Chunked` and
--   `Exchange` its methods, a `step` for each round of the loop in `advance` or in
--   `advance_chunked`. The loop has fuel for one round more than there are bytes received, and one
--   more: each round but the last takes a byte. The count of bytes consumed that `handle_input`
--   returns is left out: it is the length of the input, or 0 where the exchange was done before.
--   `Base.Text` has what the parsers use of Rust's strings, over UTF-8 bytes.
-- - Bencode: src/bittorrent/bencode.rs. The cursor of `Decoder` is the bytes before it. The
--   recursion has fuel, two calls for each byte: an item of a list is two calls, and takes a byte
--   at least. `Base.Decimal` has the decimal numbers that the encoder prints.
-- - Cookies: src/cookie.rs, the jar and what changes it. What `parse_set_cookie` makes of a
--   header and whether a host is an IP literal are parameters; whether the origin is a secure
--   context is an input of `ingest_response` and of `cookie_header`, which `Header` has.
--   `sort_by_key` is an insertion that keeps the order of equal keys. `Match` and `Header.Target`
--   have what RFC 6265 asks of a host and a path, in words of their own.
--
-- Bytes are natural numbers; a machine word keeps its wrap-around, written `% 65536` and so on.
--
-- Not modelled: sockets, name resolution, clocks and locks, whose answers are inputs where the code
-- branches on them; the opening handshake and the write half of the websocket; and the parts of the
-- repository that are not named above.
pub mod Base
pub mod Bencode
pub mod Cookies
pub mod Http1
pub mod Mqtt
pub mod Peer
pub mod Picker
pub mod Tftp
pub mod Websocket
