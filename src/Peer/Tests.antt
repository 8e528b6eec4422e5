-- ===== src/Peer/Tests.antt =====
-- src/bittorrent/peer.rs: the theorems at concrete messages.
use rsurl.Base.{
  ℕ, ◌+◌, ◌≤◌, ◌≡◌, refl, arith, [], ◌∷◌, ◌++◌, length, replicate, ok, err, unexpected_eof,
}
use rsurl.Base.Stream.{read_exact}
use rsurl.Peer.{Message, piece, choke, have, read_message, write_message, max_msg_payload}
use rsurl.Peer.Handshake.{
  Handshake, handshake_bytes, read_handshake, read_handshake-handshake_bytes,
}
use rsurl.Peer.RoundTrip.{read_message-write_message}
use rsurl.Peer.Bounds.{read_message_truncated, read_message_bounds}

abbrev block_message : Message
block_message = piece 3 16384 (1 ∷ 2 ∷ 3 ∷ [])

read_message-write_message_example :
    read_message (write_message block_message ++ (0 ∷ 0 ∷ [])) ≡ ok (block_message, 0 ∷ 0 ∷ [])
read_message-write_message_example =
    read_message-write_message block_message (0 ∷ 0 ∷ []) (omega arith, omega arith, omega arith)

have_bytes : write_message (have 258) ≡ 0 ∷ 0 ∷ 0 ∷ 5 ∷ 4 ∷ 0 ∷ 0 ∷ 1 ∷ 2 ∷ []
unfolding write_message
have_bytes = refl

read_message_truncated_example : read_message (0 ∷ 0 ∷ 0 ∷ 5 ∷ 4 ∷ 0 ∷ []) ≡ err unexpected_eof
read_message_truncated_example =
    read_message_truncated (have 258) (0 ∷ 0 ∷ 0 ∷ 5 ∷ 4 ∷ 0 ∷ []) (1 ∷ 2 ∷ []) 0 (omega arith)
      have_bytes

have_read : read_message (0 ∷ 0 ∷ 0 ∷ 1 ∷ 0 ∷ 9 ∷ []) ≡ ok (choke, 9 ∷ [])
unfolding read_message read_exact
have_read = refl

read_message_bounds_example :
    (length {A = ℕ} (9 ∷ []) + 4 ≤ length {A = ℕ} (0 ∷ 0 ∷ 0 ∷ 1 ∷ 0 ∷ 9 ∷ []))
    × (length {A = ℕ} (0 ∷ 0 ∷ 0 ∷ 1 ∷ 0 ∷ 9 ∷ []) ≤ length {A = ℕ} (9 ∷ []) + 4 + max_msg_payload)
read_message_bounds_example =
    read_message_bounds (0 ∷ 0 ∷ 0 ∷ 1 ∷ 0 ∷ 9 ∷ []) (9 ∷ []) choke have_read

abbrev greeting : Handshake
greeting = record {
  reserved = replicate 8 0;
  info_hash = replicate 20 7;
  peer_id = replicate 20 45;
}

read_handshake-handshake_bytes_example :
    read_handshake (handshake_bytes greeting ++ (0 ∷ [])) ≡ ok (greeting, 0 ∷ [])
read_handshake-handshake_bytes_example =
    read_handshake-handshake_bytes greeting (0 ∷ [])
      (record { reserved_eight = refl; info_hash_twenty = refl; peer_id_twenty = refl })
