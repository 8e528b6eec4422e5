-- ===== src/Tftp/Fetch.antt =====
-- src/tftp.rs: the download loop of `fetch_with`, one `step` a round.
pub mod Delivery
pub mod Safety
use rsurl.Base.{
  ℕ, ◌+◌, ◌%◌, Bool, true, false, Option, none, some, List, [], ◌∷◌, ◌++◌, length, ltb, leb, ◌==◌,
  if◌then◌else◌, IoKind, Result, ok, err, Error, io, unexpected_eof, bad_response, fixed, quoted,
}
use rsurl.Base.Bytes.{Bytes}
use rsurl.Tftp.Packet.{
  op_data, op_error, block_size, max_total_bytes, DataPacket, build_rrq, build_ack, parse_opcode,
  parse_data, parse_error,
}
use rsurl.Tftp.Transport.{
  Addr, Arrival, deadline_passed, wait_refused, no_datagram, datagram, Input, Datagram, Round,
  continue_with, finished, failed, send, after, run, is_timeout, accepts, latch, max_retries,
}

pub record Fetch : Type 0 where
  pub peer : Option Addr
  pub out : Bytes
  pub expected_block : ℕ
  pub last_packet : Bytes
  pub last_dest : Addr
  pub retries : ℕ

abbrev pub FetchRound : Type 0
FetchRound = Round Fetch Bytes

-- The state before the loop, with the RRQ sent.
unfoldable pub start : Addr → Bytes → Fetch
start server filename = record {
  peer = none;
  out = [];
  expected_block = 1;
  last_packet = build_rrq filename;
  last_dest = server;
  retries = 0;
}

-- `recv_from` returned an error.
unfoldable pub on_silence : Fetch → Option IoKind → IoKind → FetchRound
on_silence s sent e =
    if is_timeout e
    then (if leb max_retries s.retries
        then failed unexpected_eof []
        else send sent s.last_packet s.last_dest
            (continue_with (record s { retries = s.retries + 1 })))
    else failed (io e) []

-- A block other than the one expected: re-acknowledge the one before, to the latched peer only.
unfoldable pub on_other_block : Option Addr → Fetch → Option IoKind → ℕ → FetchRound
on_other_block none s sent block = continue_with s []
on_other_block (some p) s sent block =
    if (block + 1) % 65536 == s.expected_block
    then send sent (build_ack block) p (continue_with s)
    else continue_with s []

-- The block that is expected: append it, acknowledge it, and stop at a short one.
unfoldable pub on_block : Fetch → Option IoKind → DataPacket → Addr → FetchRound
on_block s sent d from =
    if ltb max_total_bytes (length s.out + length d.payload)
    then failed (bad_response (fixed "tftp: transfer exceeds the size limit")) []
    else send sent (build_ack d.block) from (
        if ltb (length d.payload) block_size
        then finished (s.out ++ d.payload)
        else continue_with (record {
          peer = latch s.peer from;
          out = s.out ++ d.payload;
          expected_block = (s.expected_block + 1) % 65536;
          last_packet = build_ack d.block;
          last_dest = from;
          retries = 0;
        }))

unfoldable pub on_data : Fetch → Option IoKind → Result DataPacket → Addr → FetchRound
unfolding on_other_block on_block
on_data s sent (err e) from = failed e []
on_data s sent (ok d) from =
    if d.block == s.expected_block
    then on_block s sent d from
    else on_other_block s.peer s sent d.block

abbrev pub refusal : Result Bytes → Error
refusal (ok message) = bad_response (quoted "tftp: " message)
refusal (err e) = e

-- The match on the opcode.
unfoldable pub on_packet : Option ℕ → Fetch → Option IoKind → Bytes → Addr → FetchRound
unfolding on_data
on_packet none s sent pkt from = failed (bad_response (fixed "tftp: packet too short")) []
on_packet (some op) s sent pkt from =
    if op == op_data
    then on_data s sent (parse_data pkt) from
    else if op == op_error
    then failed (refusal (parse_error pkt)) []
    else failed (bad_response (fixed "tftp: unexpected opcode")) []

unfoldable pub on_arrival : Addr → Arrival → Option IoKind → Fetch → FetchRound
unfolding on_silence on_packet
on_arrival server deadline_passed sent s =
    failed (bad_response (fixed "tftp: transfer exceeded deadline")) []
on_arrival server (wait_refused e) sent s = failed e []
on_arrival server (no_datagram e) sent s = on_silence s sent e
on_arrival server (datagram pkt from) sent s =
    if accepts s.peer server from
    then on_packet (parse_opcode pkt) s sent pkt from
    else continue_with s []

unfoldable pub step : Addr → Input → Fetch → FetchRound
unfolding on_arrival
step server i s = on_arrival server i.arrival i.send_result s

-- The whole transfer after the name and the address are known: the RRQ, and the loop.
unfoldable pub fetch_with : Addr → Bytes → Option IoKind → List Input → FetchRound
fetch_with server filename first inputs =
    send first (build_rrq filename) server
      (λ sent. after sent (run (step server) inputs (start server filename)))
