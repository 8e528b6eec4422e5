-- ===== src/Tftp/Store.antt =====
-- src/tftp.rs: the upload loop of `store_with`, one `step` a round.
pub mod Sending
pub mod Safety
use rsurl.Base.{
  ℕ, ◌+◌, ◌-◌, ◌*◌, ◌%◌, min, Bool, true, false, Option, none, some, List, [], ◌∷◌, ◌++◌, ◌&&◌,
  length, take, drop, ltb, leb, ◌==◌, if◌then◌else◌, IoKind, Result, ok, err, Error, io,
  unexpected_eof, bad_response, fixed,
}
use rsurl.Base.Bytes.{Bytes}
use rsurl.Tftp.Fetch.{refusal}
use rsurl.Tftp.Packet.{
  op_ack, op_error, block_size, max_total_bytes, build_wrq, write_data, parse_opcode, parse_ack,
  parse_error,
}
use rsurl.Tftp.Transport.{
  Addr, Arrival, deadline_passed, wait_refused, no_datagram, datagram, Input, Round, continue_with,
  finished, failed, panicked, send, after, run, is_timeout, accepts, latch, max_retries,
}

pub record Store : Type 0 where
  pub peer : Option Addr
  pub last_packet : Bytes
  pub last_dest : Addr
  pub retries : ℕ
  pub block : ℕ
  pub blocks_sent : ℕ
  pub sent_final : Bool

abbrev pub StoreRound : Type 0
StoreRound = Round Store (Unit {0})

-- The state before the loop, with the WRQ sent.
unfoldable pub start : Addr → Bytes → Store
start server filename = record {
  peer = none;
  last_packet = build_wrq filename;
  last_dest = server;
  retries = 0;
  block = 0;
  blocks_sent = 0;
  sent_final = false;
}

-- `&data[from..to]`, which panics unless `from <= to <= data.len()`.
abbrev pub slice : Bytes → ℕ → ℕ → Option Bytes
slice bytes from to =
    if leb from to && leb to (length bytes) then some (take (to - from) (drop from bytes)) else none

unfoldable pub on_silence : Store → Option IoKind → IoKind → StoreRound
on_silence s sent e =
    if is_timeout e
    then (if leb max_retries s.retries
        then failed unexpected_eof []
        else send sent s.last_packet s.last_dest
            (continue_with (record s { retries = s.retries + 1 })))
    else failed (io e) []

-- Send the next block; the payload is the slice, or the slice was out of range.
unfoldable pub send_block : Option Bytes → Store → Option IoKind → Addr → StoreRound
send_block none s sent from = panicked
send_block (some payload) s sent from =
    let packet = write_data [] ((s.block + 1) % 65536) payload in
    send sent packet from (
      continue_with (record {
        peer = latch s.peer from;
        last_packet = packet;
        last_dest = from;
        retries = 0;
        block = (s.block + 1) % 65536;
        blocks_sent = s.blocks_sent + 1;
        sent_final = ltb (length payload) block_size;
      }))

unfoldable pub on_ack : Bytes → Store → Option IoKind → Result ℕ → Addr → StoreRound
unfolding send_block
on_ack bytes s sent (err e) from = failed e []
on_ack bytes s sent (ok acked) from =
    if acked == s.block
    then (if s.sent_final
        then finished tt []
        else send_block
            (slice bytes (s.blocks_sent * block_size)
              (min (s.blocks_sent * block_size + block_size) (length bytes)))
            s sent from)
    else continue_with s []

unfoldable pub on_packet : Option ℕ → Bytes → Store → Option IoKind → Bytes → Addr → StoreRound
unfolding on_ack
on_packet none bytes s sent pkt from = failed (bad_response (fixed "tftp: packet too short")) []
on_packet (some op) bytes s sent pkt from =
    if op == op_ack
    then on_ack bytes s sent (parse_ack pkt) from
    else if op == op_error
    then failed (refusal (parse_error pkt)) []
    else failed (bad_response (fixed "tftp: unexpected opcode")) []

unfoldable pub on_arrival : Bytes → Addr → Arrival → Option IoKind → Store → StoreRound
unfolding on_silence on_packet
on_arrival bytes server deadline_passed sent s =
    failed (bad_response (fixed "tftp: transfer exceeded deadline")) []
on_arrival bytes server (wait_refused e) sent s = failed e []
on_arrival bytes server (no_datagram e) sent s = on_silence s sent e
on_arrival bytes server (datagram pkt from) sent s =
    if accepts s.peer server from
    then on_packet (parse_opcode pkt) bytes s sent pkt from
    else continue_with s []

unfoldable pub step : Bytes → Addr → Input → Store → StoreRound
unfolding on_arrival
step bytes server i s = on_arrival bytes server i.arrival i.send_result s

-- The whole upload after the name and the address are known: the size check, the WRQ, the loop.
unfoldable pub store_with : Addr → Bytes → Bytes → Option IoKind → List Input → StoreRound
store_with server filename bytes first inputs =
    if ltb max_total_bytes (length bytes)
    then failed (bad_response (fixed "tftp: upload exceeds the size limit")) []
    else send first (build_wrq filename) server
        (λ sent. after sent (run (step bytes server) inputs (start server filename)))
