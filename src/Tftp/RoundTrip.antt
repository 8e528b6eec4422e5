-- ===== src/Tftp/RoundTrip.antt =====
-- An upload and a download of src/tftp.rs together: the loops agree on the protocol.
use mathlib.Core.List.{map}
use rsurl.Base.{ℕ, suc, ◌/◌, ◌≤◌, true, Option, none, List, ◌∷◌, length, ◌≡◌, arith}
use rsurl.Base.Bytes.{Bytes}
use rsurl.Tftp.Blocks.{
  Framed, last, full, concat, file_blocks, concat-file_blocks, file_blocks-Framed,
}
use rsurl.Tftp.Fetch.{fetch_with}
use rsurl.Tftp.Fetch.Delivery.{Delivery, last_block, full_block, arrives, fetch_with-Delivery}
use rsurl.Tftp.Packet.{block_size, max_total_bytes, build_wrq}
use rsurl.Tftp.Store.{store_with}
use rsurl.Tftp.Store.Sending.{acks_from, packets_from, store_with-acks}
use rsurl.Tftp.Transport.{Addr, Input, Datagram, finished, accepts, accepts-latch, latch}

-- The datagrams, handed to a receiver as sent by `peer`.
abbrev pub relayed : Addr → List Datagram → List Input
relayed peer = map (λ d. arrives d.0 peer)

packets_from-Delivery :
    (server peer to : Addr) (latched : Option Addr) (k : ℕ) {cs : List Bytes}
    → accepts latched server peer ≡ true
    → Framed cs
    → Delivery server peer latched k 0 cs (relayed peer (packets_from k cs to))
packets_from-Delivery server peer to latched k a (last {c} short) = last_block c a short
packets_from-Delivery server peer to latched k a (full {c} size more) = full_block c a size (
    packets_from-Delivery server peer to (latch latched peer) (suc k)
      (accepts-latch latched server peer a) more)

-- What an upload sends behind its request, relayed to a download, is read back as the same data:
-- for every file up to the limit, on a network that delivers in order.
pub fetch_with-store_with :
    (server peer origin relay : Addr) (filename name bytes : Bytes)
    → peer.ip ≡ server.ip
    → relay.ip ≡ origin.ip
    → length bytes ≤ max_total_bytes
    → (sends : List Datagram) × (store_with server filename bytes none
          (acks_from (suc (suc (length bytes / block_size))) 0 peer)
        ≡ finished tt ((build_wrq filename, server) ∷ sends))
      × (replies : List Datagram) × (fetch_with origin name none (relayed relay sends)
          ≡ finished bytes replies)
fetch_with-store_with server peer origin relay filename name bytes at from fits =
    let sends = packets_from 1 (file_blocks bytes) peer in
    let whole : concat (file_blocks bytes) ≡ bytes = concat-file_blocks bytes in
    let (replies, fetched) =
      fetch_with-Delivery origin relay name (file_blocks bytes) (relayed relay sends)
        (packets_from-Delivery origin relay peer none 1 (ground arith) (file_blocks-Framed bytes))
        (rw whole fits) in
    (sends, store_with-acks server peer filename bytes at fits, replies, rw whole at fetched)
