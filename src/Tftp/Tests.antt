-- ===== src/Tftp/Tests.antt =====
-- src/tftp.rs: runs of the two loops, and the theorems at concrete inputs.
use rsurl.Base.{
  ℕ, ◌/◌, ◌≤◌, ◌≡◌, refl, arith, none, List, [], ◌∷◌, length, replicate, length-replicate, suc,
  would_block, timed_out,
}
use rsurl.Base.Bytes.{Bytes}
use rsurl.Tftp.Blocks.{concat, file_blocks}
use rsurl.Tftp.Packet.{max_total_bytes, block_size, build_wrq, write_data}
use rsurl.Tftp.Transport.{Addr, Input, Datagram, finished, no_datagram}
use rsurl.Tftp.Fetch.{fetch_with}
use rsurl.Tftp.Fetch.Delivery.{Delivery, last_block, foreign, silent, arrives, fetch_with-Delivery}
use rsurl.Tftp.Fetch.Safety.{Safe, fetch_with-Safe}
use rsurl.Tftp.Store.{store_with}
use rsurl.Tftp.Store.Sending.{acks_from, packets_from, store_with-acks}
use rsurl.Tftp.Store.Safety.{store_with-Safe}
use rsurl.Tftp.RoundTrip.{relayed, fetch_with-store_with}

abbrev server : Addr
server = record { ip = 7; port = 69 }

abbrev peer : Addr
peer = record { ip = 7; port = 4001 }

abbrev stranger : Addr
stranger = record { ip = 8; port = 4001 }

abbrev name : Bytes
name = 102 ∷ 46 ∷ 98 ∷ []

-- A file of two blocks.
abbrev file : Bytes
file = replicate 600 65

file_within : length file ≤ max_total_bytes
file_within = omega (arith, length-replicate {A = ℕ} 600 65)

fetch_with-store_with_example :
    (sends : List Datagram) × (store_with server name file none
        (acks_from (suc (suc (length file / block_size))) 0 peer)
      ≡ finished tt ((build_wrq name, server) ∷ sends))
    × (replies : List Datagram) × (fetch_with server name none (relayed peer sends)
        ≡ finished file replies)
fetch_with-store_with_example =
    fetch_with-store_with server peer server peer name name file refl refl file_within

store_with-acks_example :
    store_with server name file none (acks_from (suc (suc (length file / block_size))) 0 peer)
    ≡ finished tt ((build_wrq name, server) ∷ packets_from 1 (file_blocks file) peer)
store_with-acks_example = store_with-acks server peer name file refl file_within

abbrev hi : Bytes
hi = 104 ∷ 105 ∷ []

-- A silence, a stranger's datagram, and the only block.
abbrev noisy : List Input
noisy =
    record { arrival = no_datagram timed_out; send_result = none }
    ∷ arrives (0 ∷ 3 ∷ []) stranger
    ∷ arrives (write_data [] 1 hi) peer
    ∷ []

noisy-Delivery : Delivery server peer none 1 0 (hi ∷ []) noisy
noisy-Delivery =
    silent timed_out refl (omega arith)
      (foreign (0 ∷ 3 ∷ []) stranger refl (last_block hi refl (omega arith)))

fetch_with-Delivery_example :
    (sent : List Datagram) × (fetch_with server name none noisy ≡ finished (concat (hi ∷ [])) sent)
fetch_with-Delivery_example =
    fetch_with-Delivery server peer name (hi ∷ []) noisy noisy-Delivery (omega arith)

fetch_with-Safe_example : Safe server (fetch_with server name none noisy)
fetch_with-Safe_example = fetch_with-Safe server name none noisy

-- Two silences, a stray acknowledgement, an acknowledgement of the request.
abbrev slow : List Input
slow =
    record { arrival = no_datagram timed_out; send_result = none }
    ∷ record { arrival = no_datagram would_block; send_result = none }
    ∷ arrives (0 ∷ 4 ∷ 0 ∷ 9 ∷ []) peer
    ∷ arrives (0 ∷ 4 ∷ 0 ∷ 0 ∷ []) peer
    ∷ []

store_with-Safe_example :
    rsurl.Tftp.Store.Safety.Safe server hi (store_with server name hi none slow)
store_with-Safe_example = store_with-Safe server name hi none slow
