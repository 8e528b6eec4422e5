-- ===== src/Mqtt/Session.antt =====
-- src/mqtt.rs: the two sessions, `run_publish` and `run_session`, over an open stream.
pub mod Fuel
pub mod Relay
pub mod Confirm
use rsurl.Base.{
  ℕ, zero, suc, ◌*◌, Bool, true, false, Option, none, some, List, [], ◌∷◌, ◌++◌, length, ltb, ◌==◌,
  not, if◌then◌else◌, IoKind, timed_out, Result, ok, err, bad, exhausted, Error, io,
}
use rsurl.Base.Bytes.{Bytes}
use rsurl.Mqtt.Packet.{
  pkt_connack, pkt_publish, pkt_puback, pkt_suback, pkt_pingreq, pkt_pingresp, pkt_disconnect,
  keep_alive_secs, build_connect, build_subscribe, build_publish, parse_puback,
  extract_publish_payload,
}
use rsurl.Mqtt.Wire.{Read, read_packet, read_packet_or_idle}

-- What the stream will deliver, the results of the writes to come (those behind the list succeed),
-- and what was written.
pub record Stream : Type 0 where
  pub incoming : List Read
  pub write_results : List (Option IoKind)
  pub sent : List Bytes

abbrev pub Session : Type 0 → Type 0
Session A = Stream → Result A × Stream

infixl 5 ◌>>=◌ ◌>>◌
abbrev pub and_then : {A B : Type 0} → Result A × Stream → (A → Session B) → Result B × Stream
and_then (ok a, s) k = k a s
and_then (err e, s) k = (err e, s)

abbrev pub ◌>>=◌ : {A B : Type 0} → Session A → (A → Session B) → Session B
(m >>= k) s = and_then (m s) k

abbrev pub ◌>>◌ : {A B : Type 0} → Session A → Session B → Session B
m >> k = m >>= λ _. k

abbrev pub lift : {A : Type 0} → Result A → Session A
lift r s = (r, s)

abbrev take_read : {A : Type 0} → Result (A × List Read) → Stream → Result A × Stream
take_read (ok (a, rest)) s = (ok a, record s { incoming = rest })
take_read (err e) s = (err e, s)

abbrev pub receive : {A : Type 0} → (List Read → Result (A × List Read)) → Session A
receive read s = take_read (read s.incoming) s

abbrev pub write_with : List (Option IoKind) → Bytes → Stream → Result (Unit {0}) × Stream
write_with [] bytes s = (ok tt, record s { sent = s.sent ++ (bytes ∷ []) })
write_with (none ∷ later) bytes s =
    (ok tt, record s { write_results = later; sent = s.sent ++ (bytes ∷ []) })
write_with (some e ∷ later) bytes s = (err (io e), record s { write_results = later })

-- `write_all(..)?` and `flush()?`, as one write.
abbrev pub transmit : Bytes → Session (Unit {0})
transmit bytes s = write_with s.write_results bytes s

-- `let _ = stream.write_all(..)`.
abbrev pub attempt : Bytes → Session (Unit {0})
attempt bytes s = (ok tt, (transmit bytes s).1)

abbrev pub disconnect : Session (Unit {0})
disconnect = attempt (pkt_disconnect * 16 ∷ 0 ∷ [])

unfoldable pub check_connack : ℕ × Bytes → Result (Unit {0})
check_connack (ctype, body) =
    if not (ctype == pkt_connack) then bad "mqtt: expected CONNACK" else on_body body
  where
    on_body : Bytes → Result (Unit {0})
    on_body (flags ∷ code ∷ rest) = if code == 0 then ok tt else bad "mqtt: connack"
    on_body _ = bad "mqtt: short CONNACK"

-- `client_id` is the answer of `random_client_id`.
unfoldable pub connect_handshake : Bytes → Option Bytes → Option Bytes → Session (Unit {0})
unfolding check_connack
connect_handshake client_id user pass = do
  connect ← lift (build_connect client_id user pass keep_alive_secs)
  transmit connect
  answer ← receive read_packet
  lift (check_connack answer)

unfoldable pub on_acked : ℕ → ℕ → Result (Unit {0})
on_acked packet_id acked = if acked == packet_id then ok tt else bad "mqtt: PUBACK packet id"

-- A packet while the PUBACK is awaited, and how the loop goes on.
unfoldable pub on_ack_packet : ℕ → Session (Unit {0}) → ℕ × Bytes → Session (Unit {0})
unfolding on_acked
on_ack_packet packet_id again p =
    if p.0 == pkt_puback
    then (lift (parse_puback p.1) >>= λ acked. lift (on_acked packet_id acked))
    else if p.0 == pkt_pingresp
    then again
    else lift (bad "mqtt: unexpected packet type while awaiting PUBACK")

-- The loop that waits for the PUBACK; `fuel` bounds the packets that are read.
unfoldable pub await_puback : ℕ → ℕ → Session (Unit {0})
unfolding on_ack_packet
await_puback zero packet_id s = (exhausted, s)
await_puback (suc fuel) packet_id s =
    and_then (receive read_packet s) (on_ack_packet packet_id (λ t. await_puback fuel packet_id t))

abbrev pub enough : Stream → ℕ
enough s = suc (length s.incoming)

unfoldable pub run_publish :
    Bytes → Bytes → Bytes → ℕ → Option Bytes → Option Bytes → Session (Unit {0})
unfolding connect_handshake await_puback
run_publish client_id topic payload qos user pass = do
  connect_handshake client_id user pass
  publish ← lift (build_publish topic payload qos 1)
  transmit publish
  if qos == 1 then (λ s. await_puback (enough s) 1 s) else (λ s. (ok tt, s))
  disconnect

unfoldable pub check_suback : ℕ × Bytes → Result (Unit {0})
check_suback (ctype, body) =
    if not (ctype == pkt_suback) then bad "mqtt: expected SUBACK" else on_body body
  where
    on_body : Bytes → Result (Unit {0})
    on_body (a ∷ b ∷ code ∷ rest) =
        if code == 0x80 then bad "mqtt: suback failure (0x80)" else ok tt
    on_body _ = bad "mqtt: short SUBACK"

-- A packet, or an idle period, while a PUBLISH is awaited, and how the loop goes on.
unfoldable pub on_publish_packet :
    Bool → (Bool → Session Bytes) → Option (ℕ × Bytes) → Session Bytes
on_publish_packet outstanding again none =
    if outstanding
    then lift (err (io timed_out))
    else (transmit (pkt_pingreq * 16 ∷ 0 ∷ []) >> again true)
on_publish_packet outstanding again (some p) =
    if p.0 == pkt_publish
    then lift (extract_publish_payload p.1)
    else if p.0 == pkt_pingresp
    then again false
    else lift (bad "mqtt: unexpected packet type before PUBLISH")

-- The loop that waits for a PUBLISH; an idle period sends a PINGREQ, a second one fails.
unfoldable pub await_publish : ℕ → Bool → Session Bytes
unfolding on_publish_packet
await_publish zero outstanding s = (exhausted, s)
await_publish (suc fuel) outstanding s =
    and_then (receive read_packet_or_idle s)
      (on_publish_packet outstanding (λ ping t. await_publish fuel ping t))

unfoldable pub run_session : Bytes → Bytes → Option Bytes → Option Bytes → Session Bytes
unfolding connect_handshake check_suback await_publish
run_session client_id topic user pass = do
  connect_handshake client_id user pass
  subscribe ← lift (build_subscribe 1 topic)
  transmit subscribe
  answer ← receive read_packet
  lift (check_suback answer)
  payload ← (λ s. await_publish (enough s) false s)
  disconnect
  lift (ok payload)
