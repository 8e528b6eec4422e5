-- ===== src/Tftp/Store/Safety.antt =====
-- The upload loop of src/tftp.rs on any network: what it keeps, and to whom it sends what.
use rsurl.Base.{
  ℕ, ◌+◌, ◌-◌, ◌*◌, ◌%◌, ◌≤◌, min, false, Option, none, some, List, [], ◌∷◌, length, length-take,
  take, drop, ◌≡◌, refl, arith, IoKind, Result, ok, err, ◌==◌, ltb, ltb→le, length-drop, Bool-cases,
  inl, inr,
}
use rsurl.Base.Bytes.{Bytes}
use rsurl.Tftp.Store.{
  Store, StoreRound, slice, on_silence, send_block, on_ack, on_packet, on_arrival, step, start,
  store_with,
}
use rsurl.Tftp.Packet.{block_size, max_total_bytes, build_wrq, parse_opcode, parse_ack}
use rsurl.Tftp.Transport.{
  Addr, Arrival, deadline_passed, wait_refused, no_datagram, datagram, Input, accepts, accepts-ip,
  latch-PeerIs, max_retries, PeerIs, ToServer, Holds, Holds-after, run-Holds,
}

-- `blocks_sent` blocks start within the file until the short block is sent, and the block number
-- on the wire is their count modulo 2^16.
pub record IsValid (server : Addr) (bytes : Bytes) (s : Store) : Type 0 where
  pub number : s.block ≡ s.blocks_sent % 65536
  pub within : s.sent_final ≡ false → s.blocks_sent * block_size ≤ length bytes
  pub tries : s.retries ≤ max_retries
  pub peer_at_server : PeerIs server s.peer
  pub resends_to_server : s.last_dest.ip ≡ server.ip

abbrev pub Safe : Addr → Bytes → StoreRound → Type 0
Safe server bytes = Holds (IsValid server bytes) (λ _. Unit {0}) (ToServer server)

-- The slice of the next block is in range while the block starts within the file.
slice_block :
    (bytes : Bytes) (at : ℕ)
    → at ≤ length bytes
    → slice bytes at (min (at + block_size) (length bytes))
      ≡ some (take (min (at + block_size) (length bytes) - at) (drop at bytes))
slice_block bytes at h = ground arith

module _ (server from : Addr) (bytes : Bytes) (s : Store) (sent : Option IoKind) where
  on_silence-Safe : IsValid server bytes s → (e : IoKind) → Safe server bytes (on_silence s sent e)
  unfolding on_silence
  on_silence-Safe v e = ground arith

  send_block-Safe :
      (payload : Bytes)
      → IsValid server bytes s
      → from.ip ≡ server.ip
      → (ltb (length payload) block_size ≡ false → (s.blocks_sent + 1) * block_size ≤ length bytes)
      → Safe server bytes (send_block (some payload) s sent from)
  unfolding send_block
  send_block-Safe payload v at more =
      ground (arith, latch-PeerIs server from s.peer v.peer_at_server at)

  -- The block that an acknowledgement asks for.
  abbrev next_payload : Bytes
  next_payload =
      let at = s.blocks_sent * block_size in
      take (min (at + block_size) (length bytes) - at) (drop at bytes)

  on_ack-Safe :
      IsValid server bytes s
      → (r : Result ℕ) → from.ip ≡ server.ip
      → Safe server bytes (on_ack bytes s sent r from)
  unfolding on_ack
  on_ack-Safe v (err e) at = tt
  on_ack-Safe v (ok acked) at = elim (Bool-cases (acked == s.block)) [
    | inr stale ↦ rw stale (v, tt)
    | inl mine ↦ rw mine (elim (Bool-cases s.sent_final) [
      | inl final ↦ rw final (tt, tt)
      | inr more ↦
          rw (more, slice_block bytes (s.blocks_sent * block_size) (v.within more))
            (send_block-Safe next_payload v at (λ long. omega (
              arith,
              ltb→le _ _ long,
              v.within more,
              length-take
                  (min (s.blocks_sent * block_size + block_size) (length bytes)
                    - s.blocks_sent * block_size)
                  (drop (s.blocks_sent * block_size) bytes),
              length-drop (s.blocks_sent * block_size) bytes,
            )))
    ])
  ]

  on_packet-Safe :
      IsValid server bytes s
      → (o : Option ℕ) (pkt : Bytes) → from.ip ≡ server.ip
      → Safe server bytes (on_packet o bytes s sent pkt from)
  unfolding on_packet
  on_packet-Safe v none pkt at = tt
  on_packet-Safe v (some op) pkt at = ground (arith, on_ack-Safe v (parse_ack pkt) at)

module _ (server : Addr) (bytes : Bytes) where
  on_arrival-Safe :
      (a : Arrival) (sent : Option IoKind) (s : Store)
      → IsValid server bytes s
      → Safe server bytes (on_arrival bytes server a sent s)
  unfolding on_arrival
  on_arrival-Safe deadline_passed sent s v = tt
  on_arrival-Safe (wait_refused e) sent s v = tt
  on_arrival-Safe (no_datagram e) sent s v = on_silence-Safe server server bytes s sent v e
  on_arrival-Safe (datagram pkt from) sent s v = elim (Bool-cases (accepts s.peer server from)) [
    | inr other ↦ rw other (v, tt)
    | inl mine ↦ rw mine (
        on_packet-Safe server from bytes s sent v (parse_opcode pkt) pkt
          (accepts-ip s.peer server from v.peer_at_server mine))
  ]

  step-Safe :
      (i : Input) (s : Store) → IsValid server bytes s → Safe server bytes (step bytes server i s)
  unfolding step
  step-Safe i s v = on_arrival-Safe i.arrival i.send_result s v

-- Whatever the clock and the network do, the upload never panics (each block that it slices out of
-- the data is in range), sends to no address but the server's, and keeps its state valid while it
-- goes on: the block number on the wire is the count of blocks sent modulo 2^16.
pub store_with-Safe :
    (server : Addr) (filename bytes : Bytes) (first : Option IoKind) (is : List Input)
    → Safe server bytes (store_with server filename bytes first is)
unfolding store_with start
store_with-Safe server filename bytes (some e) is =
    elim (Bool-cases (ltb max_total_bytes (length bytes))) [
      | inl big ↦ rw big tt
      | inr fits ↦ rw fits tt
    ]
store_with-Safe server filename bytes none is =
    elim (Bool-cases (ltb max_total_bytes (length bytes))) [
      | inl big ↦ rw big tt
      | inr fits ↦ rw fits (
          Holds-after _ _ _ ((build_wrq filename, server) ∷ []) _ (refl, tt)
            (run-Holds _ _ _ (step bytes server) (step-Safe server bytes) is (start server filename)
              (record {
                number = refl;
                within = λ _. omega arith;
                tries = omega arith;
                peer_at_server = tt;
                resends_to_server = refl;
              })))
    ]
