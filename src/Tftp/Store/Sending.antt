-- ===== src/Tftp/Store/Sending.antt =====
-- The upload loop of src/tftp.rs against a server that acknowledges each block in order: the packets
-- it sends are the blocks of the file.
use rsurl.Base.{
  ℕ, zero, suc, ◌+◌, ◌-◌, ◌*◌, ◌/◌, ◌%◌, ◌≤◌, min, true, false, none, some, List, [], ◌∷◌, length,
  length-take, length-drop, take, drop, ◌≡◌, refl, sym, ap, ◌∙◌, arith, ltb, leb, leb→le, leb→lt,
  take_all, drop-drop, lt→ltb, le→ltb, Bool-cases, inl, inr,
}
use rsurl.Base.Bytes.{Bytes, be16_of_bytes}
use rsurl.Tftp.Blocks.{blocks, file_blocks}
use rsurl.Tftp.Packet.{
  block_size, max_total_bytes, write_data, build_ack, build_wrq, parse_opcode, parse_ack,
}
use rsurl.Tftp.Store.{Store, slice, step, start, store_with}
use rsurl.Tftp.Transport.{
  Addr, Input, datagram, Datagram, continue_with, finished, accepts, accepts-latch, latch, after,
  run, run_continue, run_finished,
}

abbrev pub acks : ℕ → Addr → Input
acks n from = record { arrival = datagram (build_ack (n % 65536)) from; send_result = none }

-- The acknowledgements of `n` blocks from number `k` on, each from the peer.
abbrev pub acks_from : ℕ → ℕ → Addr → List Input
acks_from zero k peer = []
acks_from (suc n) k peer = acks k peer ∷ acks_from n (suc k) peer

-- The DATA packets of blocks that are numbered from `k` on.
abbrev pub packets_from : ℕ → List Bytes → Addr → List Datagram
packets_from k [] peer = []
packets_from k (c ∷ cs) peer = (write_data [] (k % 65536) c, peer) ∷ packets_from (suc k) cs peer

abbrev after_ack : Store → ℕ → Bytes → Addr → Store
after_ack s k c peer = record {
  peer = latch s.peer peer;
  last_packet = write_data [] (suc k % 65536) c;
  last_dest = peer;
  retries = 0;
  block = suc k % 65536;
  blocks_sent = suc k;
  sent_final = ltb (length c) block_size;
}

-- The code's slice is the next block: 512 bytes, or what is left.
take_to_end :
    (bytes : Bytes) (at : ℕ)
    → at ≤ length bytes
    → take (min (at + block_size) (length bytes) - at) (drop at bytes)
      ≡ take block_size (drop at bytes)
take_to_end bytes at h = elim (Bool-cases (leb (at + block_size) (length bytes))) [
  | inl whole ↦
      let e : min (at + block_size) (length bytes) - at ≡ block_size =
        omega (arith, leb→le _ _ whole) in
      rw e
  | inr part ↦
      let e : length (drop at bytes) ≡ min (at + block_size) (length bytes) - at =
        omega (arith, leb→lt _ _ part, length-drop at bytes) in
      take_all _ (drop at bytes) (omega (arith, e))
      ∙ sym (
          take_all block_size (drop at bytes)
            (omega (arith, leb→lt _ _ part, length-drop at bytes)))
]

slice_block :
    (bytes : Bytes) (at : ℕ)
    → at ≤ length bytes
    → slice bytes at (min (at + block_size) (length bytes)) ≡ some (take block_size (drop at bytes))
slice_block bytes at h = ground (arith, take_to_end bytes at h)

module _ (bytes : Bytes) (server peer : Addr) (s : Store) (k : ℕ) where
  step_ack :
      accepts s.peer server peer ≡ true
      → s.block ≡ k % 65536
      → s.blocks_sent ≡ k
      → s.sent_final ≡ false
      → k * block_size ≤ length bytes
      → step bytes server (acks k peer) s
        ≡ continue_with (after_ack s k (take block_size (drop (k * block_size) bytes)) peer) (
            (write_data [] (suc k % 65536) (take block_size (drop (k * block_size) bytes)), peer)
            ∷ [])
  unfolding step build_ack parse_opcode parse_ack
  step_ack a b n f h =
      ground (arith, be16_of_bytes (k % 65536) (omega arith), slice_block bytes (k * block_size) h)

  step_final :
      accepts s.peer server peer ≡ true
      → s.block ≡ k % 65536
      → s.sent_final ≡ true
      → step bytes server (acks k peer) s ≡ finished tt []
  unfolding step build_ack parse_opcode parse_ack
  step_final a b f = ground (arith, be16_of_bytes (k % 65536) (omega arith))

-- The loop from the acknowledgement of block `k` on, when the rest has `n` full blocks.
run-acks :
    (n k : ℕ) (bytes : Bytes) (server peer : Addr) (s : Store)
    → n ≡ length (drop (k * block_size) bytes) / block_size
    → accepts s.peer server peer ≡ true
    → s.block ≡ k % 65536
    → s.blocks_sent ≡ k
    → s.sent_final ≡ false
    → k * block_size ≤ length bytes
    → run (step bytes server) (acks_from (suc (suc n)) k peer) s
      ≡ finished tt (packets_from (suc k) (blocks n (drop (k * block_size) bytes)) peer)
unfolding blocks
run-acks zero k bytes server peer s h a b c f w =
    let rest : Bytes = drop (k * block_size) bytes in
    let whole : take block_size rest ≡ rest = take_all block_size rest (omega arith) in
    let last = after_ack s k rest peer in
    run_continue (step bytes server) _ _ s (rw whole at (step_ack bytes server peer s k a b c f w))
    ∙ ap (after ((write_data [] (suc k % 65536) rest, peer) ∷ [])) (
        run_finished (step bytes server) _ _ last (
          step_final bytes server peer last (suc k) (accepts-latch s.peer server peer a) refl
            (lt→ltb _ _ (omega arith))))
run-acks (suc n) k bytes server peer s h a b c f w =
    let rest : Bytes = drop (k * block_size) bytes in
    let next = after_ack s k (take block_size rest) peer in
    let size : length rest ≡ length bytes - k * block_size = length-drop (k * block_size) bytes in
    let onward : drop block_size rest ≡ drop (suc k * block_size) bytes =
      drop-drop block_size (k * block_size) bytes ∙ ap (λ m. drop m bytes) (omega arith) in
    run_continue (step bytes server) _ _ s (step_ack bytes server peer s k a b c f w)
    ∙ ap (after ((write_data [] (suc k % 65536) (take block_size rest), peer) ∷ [])) (
        run-acks n (suc k) bytes server peer next
          (omega (arith, length-drop (suc k * block_size) bytes))
          (accepts-latch s.peer server peer a) refl refl
          (le→ltb _ _ (omega (arith, length-take block_size rest))) (omega arith))
    ∙ rw onward

-- If the acknowledgements of the request and of every block arrive in order from one port of the
-- server, an upload that is not over the limit succeeds, and what it sends is the request and then
-- the blocks of the data, each once and in order, numbered from 1 modulo 2^16.
pub store_with-acks :
    (server peer : Addr) (filename bytes : Bytes)
    → peer.ip ≡ server.ip
    → length bytes ≤ max_total_bytes
    → store_with server filename bytes none
        (acks_from (suc (suc (length bytes / block_size))) 0 peer)
      ≡ finished tt ((build_wrq filename, server) ∷ packets_from 1 (file_blocks bytes) peer)
unfolding store_with start file_blocks
store_with-acks server peer filename bytes at fits =
    rw (le→ltb max_total_bytes (length bytes) fits) (
      ap (after ((build_wrq filename, server) ∷ [])) (
        run-acks (length bytes / block_size) 0 bytes server peer (start server filename) refl
          (ground arith) refl refl refl (omega arith)))
