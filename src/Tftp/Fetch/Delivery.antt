-- ===== src/Tftp/Fetch/Delivery.antt =====
-- The download loop of src/tftp.rs against a server that sends the blocks of a file one by one, on
-- a network that repeats packets, loses them and carries packets of others.
use rsurl.Base.{
  ℕ, suc, ◌+◌, ◌%◌, ◌≤◌, ◌<◌, true, false, Option, none, List, [], ◌∷◌, ◌++◌, append-nil,
  append_assoc, length, length-append, ◌≡◌, refl, ap, ◌∙◌, arith, IoKind, Bool-cases, Option-cases,
  inl, inr,
}
use rsurl.Base.Bytes.{Bytes, be16_of_bytes}
use rsurl.Tftp.Blocks.{concat}
use rsurl.Tftp.Fetch.{Fetch, step, start, fetch_with}
use rsurl.Tftp.Packet.{
  block_size, max_total_bytes, write_data, build_ack, build_rrq, parse_opcode, parse_data,
}
use rsurl.Tftp.Transport.{
  Addr, Input, datagram, no_datagram, Datagram, continue_with, finished, accepts, latch, is_timeout,
  max_retries, run, run_continue, run_finished,
}

abbrev pub arrives : Bytes → Addr → Input
arrives packet from = record { arrival = datagram packet from; send_result = none }

-- The DATA packet of block number `j`, as it stands on the wire.
abbrev pub block_packet : ℕ → Bytes → Bytes
block_packet j c = write_data [] (j % 65536) c

-- What the loop may meet while a server sends the blocks from number `j` on. `latched` is the peer
-- so far, and `r` the timeouts since the last block.
pub data Delivery (server peer : Addr)
    : Option Addr → ℕ → ℕ → List Bytes → List Input → Type 0 where
  last_block :
      {latched : Option Addr} {j r : ℕ} (c : Bytes) {is : List Input}
      → accepts latched server peer ≡ true
      → length c < block_size
      → Delivery server peer latched j r (c ∷ []) (arrives (block_packet j c) peer ∷ is)
  full_block :
      {latched : Option Addr} {j r : ℕ} (c : Bytes) {cs : List Bytes} {is : List Input}
      → accepts latched server peer ≡ true
      → length c ≡ block_size
      → Delivery server peer (latch latched peer) (suc j) 0 cs is
      → Delivery server peer latched j r (c ∷ cs) (arrives (block_packet j c) peer ∷ is)
  foreign :
      {latched : Option Addr} {j r : ℕ} {cs : List Bytes} {is : List Input} (packet : Bytes)
      (from : Addr)
      → accepts latched server from ≡ false
      → Delivery server peer latched j r cs is
      → Delivery server peer latched j r cs (arrives packet from ∷ is)
  repeated :
      {latched : Option Addr} {j k r : ℕ} (c : Bytes) {cs : List Bytes} {is : List Input}
      → j ≡ suc k
      → Delivery server peer latched j r cs is
      → Delivery server peer latched j r cs (arrives (block_packet k c) peer ∷ is)
  silent :
      {latched : Option Addr} {j r : ℕ} {cs : List Bytes} {is : List Input} (e : IoKind)
      → is_timeout e ≡ true
      → r < max_retries
      → Delivery server peer latched j (suc r) cs is
      → Delivery server peer latched j r cs
          (record { arrival = no_datagram e; send_result = none } ∷ is)

abbrev after_block : Fetch → ℕ → Bytes → Addr → Fetch
after_block s j c peer = record {
  peer = latch s.peer peer;
  out = s.out ++ c;
  expected_block = (s.expected_block + 1) % 65536;
  last_packet = build_ack (j % 65536);
  last_dest = peer;
  retries = 0;
}

module _ (server peer : Addr) (s : Fetch) (j : ℕ) (c : Bytes) where
  step_full :
      accepts s.peer server peer ≡ true
      → s.expected_block ≡ j % 65536
      → length s.out + length c ≤ max_total_bytes
      → length c ≡ block_size
      → step server (arrives (block_packet j c) peer) s
        ≡ continue_with (after_block s j c peer) ((build_ack (j % 65536), peer) ∷ [])
  unfolding step write_data parse_opcode parse_data
  step_full a e fits full = ground (arith, be16_of_bytes (j % 65536) (omega arith))

  step_last :
      accepts s.peer server peer ≡ true
      → s.expected_block ≡ j % 65536
      → length s.out + length c ≤ max_total_bytes
      → length c < block_size
      → step server (arrives (block_packet j c) peer) s
        ≡ finished (s.out ++ c) ((build_ack (j % 65536), peer) ∷ [])
  unfolding step write_data parse_opcode parse_data
  step_last a e fits short = ground (arith, be16_of_bytes (j % 65536) (omega arith))

-- A datagram of another sender is dropped.
step_foreign :
    (server : Addr) (s : Fetch) (packet : Bytes) (from : Addr)
    → accepts s.peer server from ≡ false
    → step server (arrives packet from) s ≡ continue_with s []
unfolding step
step_foreign server s packet from h = rw h

step_silent :
    (server : Addr) (s : Fetch) (e : IoKind)
    → is_timeout e ≡ true
    → s.retries < max_retries
    → step server (record { arrival = no_datagram e; send_result = none }) s
      ≡ continue_with (record s { retries = s.retries + 1 }) ((s.last_packet, s.last_dest) ∷ [])
unfolding step
step_silent server s e h lt = rw h (ground arith)

-- The block before the expected one changes nothing, whether it is acknowledged again or not.
step_repeated :
    (server peer : Addr) (s : Fetch) (k : ℕ) (c : Bytes)
    → s.expected_block ≡ suc k % 65536
    → (sent : List Datagram) × (step server (arrives (block_packet k c) peer) s
        ≡ continue_with s sent)
unfolding step write_data parse_opcode parse_data
step_repeated server peer s k c e = elim (Bool-cases (accepts s.peer server peer)) [
  | inr other ↦ ([], rw other)
  | inl mine ↦ elim (Option-cases s.peer) [
    | inl fresh ↦ ([], ground (arith, be16_of_bytes (k % 65536) (omega arith)))
    | inr (p, latched) ↦
        ((build_ack (k % 65536), p) ∷ [], ground (arith, be16_of_bytes (k % 65536) (omega arith)))
  ]
]

-- The loop returns `out`, whatever it has sent.
abbrev pub Finishes : Addr → List Input → Fetch → Bytes → Type 0
Finishes server is s out = (sent : List Datagram) × (run (step server) is s ≡ finished out sent)

Finishes-continue :
    (server : Addr) (i : Input) (is : List Input) (s : Fetch) {s' : Fetch} {sent : List Datagram}
    {out : Bytes}
    → step server i s ≡ continue_with s' sent
    → Finishes server is s' out
    → Finishes server (i ∷ is) s out
Finishes-continue server i is s {sent} h (later, r) =
    (sent ++ later, run_continue (step server) i is s h ∙ rw r)

run-Delivery :
    {server peer : Addr} {latched : Option Addr} {j r : ℕ} {cs : List Bytes} {is : List Input}
    (s : Fetch)
    → Delivery server peer latched j r cs is
    → s.peer ≡ latched
    → s.expected_block ≡ j % 65536
    → s.retries ≡ r
    → length s.out + length (concat cs) ≤ max_total_bytes
    → Finishes server is s (s.out ++ concat cs)
run-Delivery {server} {peer} {j} s (last_block c {is} a short) p e n fits = rw append-nil (
  (build_ack (j % 65536), peer) ∷ [],
  run_finished (step server) _ is s
      (step_last server peer s j c (rw p a) e (omega (arith, length-append c [])) short),
)
run-Delivery {server} {peer} {j} s (full_block c {cs} {is} a full d) p e n fits =
    rw (← append_assoc s.out c (concat cs)) (
      Finishes-continue server _ is s
        (step_full server peer s j c (rw p a) e (omega (arith, length-append c (concat cs))) full)
        (run-Delivery (after_block s j c peer) d (ap (λ l. latch l peer) p) (omega arith) refl
          (omega (arith, length-append c (concat cs), length-append s.out c))))
run-Delivery {server} s (foreign {is} packet from a d) p e n fits =
    Finishes-continue server _ is s (step_foreign server s packet from (rw p a))
      (run-Delivery s d p e n fits)
run-Delivery {server} {peer} s (repeated {k} c {is} h d) p e n fits =
    let (sent, r) = step_repeated server peer s k c (rw h at e) in
    Finishes-continue server _ is s r (run-Delivery s d p e n fits)
run-Delivery {server} s (silent {is} k t lt d) p e n fits =
    Finishes-continue server _ is s (step_silent server s k t (omega arith))
      (run-Delivery (record s { retries = s.retries + 1 }) d p e (omega arith) fits)

-- If a server that answers the request delivers the blocks of a file that is not over the limit, in
-- order, and the loop meets besides only repeats of the last block, datagrams of other senders and,
-- before each new block, at most three timeouts, however those datagrams lie between them, then
-- `fetch_with` returns the file. Block numbers may wrap.
pub fetch_with-Delivery :
    (server peer : Addr) (filename : Bytes) (cs : List Bytes) (is : List Input)
    → Delivery server peer none 1 0 cs is
    → length (concat cs) ≤ max_total_bytes
    → (sent : List Datagram) × (fetch_with server filename none is ≡ finished (concat cs) sent)
unfolding fetch_with start
fetch_with-Delivery server peer filename cs is d fits =
    let (sent, r) = run-Delivery (start server filename) d refl refl refl (omega arith) in
    ((build_rrq filename, server) ∷ sent, rw r)
