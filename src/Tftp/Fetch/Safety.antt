-- ===== src/Tftp/Fetch/Safety.antt =====
-- The download loop of src/tftp.rs on any network: what it keeps, to whom it sends, what it returns.
use rsurl.Base.{
  ℕ, ◌≤◌, ◌<◌, Option, none, some, List, [], ◌∷◌, length, length-append, ◌≡◌, refl, arith, IoKind,
  Result, ok, err, ◌==◌, Bool-cases, inl, inr,
}
use rsurl.Base.Bytes.{Bytes}
use rsurl.Tftp.Fetch.{
  Fetch, FetchRound, on_silence, on_other_block, on_block, on_data, on_packet, on_arrival, step,
  start, fetch_with,
}
use rsurl.Tftp.Packet.{max_total_bytes, build_rrq, DataPacket, parse_opcode, parse_data}
use rsurl.Tftp.Transport.{
  Addr, Arrival, deadline_passed, wait_refused, no_datagram, datagram, Input, accepts, accepts-ip,
  latch-PeerIs, max_retries, PeerIs, ToServer, Holds, Holds-after, run-Holds,
}

pub record IsValid (server : Addr) (s : Fetch) : Type 0 where
  pub block_fits : s.expected_block < 65536
  pub tries : s.retries ≤ max_retries
  pub size : length s.out ≤ max_total_bytes
  pub peer_at_server : PeerIs server s.peer
  pub resends_to_server : s.last_dest.ip ≡ server.ip

-- What holds of every way in which a round, or the whole loop, can end.
abbrev pub Safe : Addr → FetchRound → Type 0
Safe server = Holds (IsValid server) (λ out. length out ≤ max_total_bytes) (ToServer server)

module _ (server from : Addr) (s : Fetch) (sent : Option IoKind) (v : IsValid server s) where
  on_silence-Safe : (e : IoKind) → Safe server (on_silence s sent e)
  unfolding on_silence
  on_silence-Safe e = ground arith

  on_other_block-Safe :
      (latched : Option Addr) (block : ℕ)
      → PeerIs server latched
      → Safe server (on_other_block latched s sent block)
  unfolding on_other_block
  on_other_block-Safe none block h = (v, tt)
  on_other_block-Safe (some p) block h = ground arith

  on_block-Safe : (d : DataPacket) → from.ip ≡ server.ip → Safe server (on_block s sent d from)
  unfolding on_block
  on_block-Safe d at =
      ground
        (arith, length-append s.out d.payload, latch-PeerIs server from s.peer v.peer_at_server at)

  on_data-Safe : (r : Result DataPacket) → from.ip ≡ server.ip → Safe server (on_data s sent r from)
  unfolding on_data
  on_data-Safe (err e) at = tt
  on_data-Safe (ok d) at = elim (Bool-cases (d.block == s.expected_block)) [
    | inl e ↦ rw e (on_block-Safe d at)
    | inr e ↦ rw e (on_other_block-Safe s.peer d.block v.peer_at_server)
  ]

  on_packet-Safe :
      (o : Option ℕ) (pkt : Bytes) → from.ip ≡ server.ip → Safe server (on_packet o s sent pkt from)
  unfolding on_packet
  on_packet-Safe none pkt at = tt
  on_packet-Safe (some op) pkt at = ground (arith, on_data-Safe (parse_data pkt) at)

module _ (server : Addr) where
  on_arrival-Safe :
      (a : Arrival) (sent : Option IoKind) (s : Fetch)
      → IsValid server s
      → Safe server (on_arrival server a sent s)
  unfolding on_arrival
  on_arrival-Safe deadline_passed sent s v = tt
  on_arrival-Safe (wait_refused e) sent s v = tt
  on_arrival-Safe (no_datagram e) sent s v = on_silence-Safe server server s sent v e
  on_arrival-Safe (datagram pkt from) sent s v = elim (Bool-cases (accepts s.peer server from)) [
    | inr other ↦ rw other (v, tt)
    | inl mine ↦ rw mine (
        on_packet-Safe server from s sent v (parse_opcode pkt) pkt
          (accepts-ip s.peer server from v.peer_at_server mine))
  ]

  step-Safe : (i : Input) (s : Fetch) → IsValid server s → Safe server (step server i s)
  unfolding step
  step-Safe i s v = on_arrival-Safe i.arrival i.send_result s v

-- Whatever the clock and the network do, the download sends to no address but the
-- server's, returns at most 256 MiB, and keeps its state valid while it goes on: a latched peer is
-- at the server's address, the block number is a u16, and the retries are within their limit.
pub fetch_with-Safe :
    (server : Addr) (filename : Bytes) (first : Option IoKind) (is : List Input)
    → Safe server (fetch_with server filename first is)
unfolding fetch_with start
fetch_with-Safe server filename (some e) is = tt
fetch_with-Safe server filename none is =
    let begun : IsValid server (start server filename) = record {
      block_fits = omega arith;
      tries = omega arith;
      size = omega arith;
      peer_at_server = tt;
      resends_to_server = refl;
    } in
    Holds-after _ _ _ ((build_rrq filename, server) ∷ []) _ (refl, tt)
      (run-Holds _ _ _ (step server) (step-Safe server) is (start server filename) begun)
