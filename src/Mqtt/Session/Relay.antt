-- ===== src/Mqtt/Session/Relay.antt =====
-- src/mqtt.rs: a publisher and a subscriber of the same message, behind a broker.
use rsurl.Base.{
  ℕ, zero, suc, ◌+◌, ◌%◌, ◌≤◌, ◌<◌, ◌≡◌, refl, ap, arith, Bool, true, false, Option, List, [], ◌∷◌,
  ◌++◌, append_assoc, append-nil, length, length-append, drop-length_append, ◌==◌, le→ltb, IoKind,
  ok,
}
use rsurl.Base.Bytes.{Bytes, be16_bytes, be16_of_bytes}
use rsurl.Mqtt.Packet.{
  keep_alive_secs, max_packet_bytes, max_remaining, length_bytes, push_str, write_remaining_length,
  build_connect, build_subscribe, build_publish, extract_publish_payload,
}
use rsurl.Mqtt.Wire.{Read, refused, is_timeout, read_packet_or_idle}
use rsurl.Mqtt.Wire.Length.{arriving}
use rsurl.Mqtt.Wire.Framing.{framed, read_packet-framed, read_packet_or_idle-framed}
use rsurl.Mqtt.Session.{
  Stream, connect_handshake, check_connack, check_suback, on_publish_packet, await_publish,
  run_publish, run_session,
}

-- The body of a PUBLISH at QoS 0.
abbrev pub publish_body : Bytes → Bytes → Bytes
publish_body topic payload = be16_bytes (length topic) ++ (topic ++ payload)

extract_publish_payload-publish_body :
    (topic payload : Bytes)
    → length topic ≤ 65535
    → extract_publish_payload (publish_body topic payload) ≡ ok payload
unfolding extract_publish_payload
extract_publish_payload-publish_body topic payload fits =
    rw (be16_of_bytes (length topic) (omega arith)) (
      rw
        (
          le→ltb (length (topic ++ payload)) (length topic)
              (omega (arith, length-append topic payload)),
          drop-length_append topic payload,
        )
        refl)

regroup :
    (first : ℕ) (field size topic payload : Bytes)
    → (((((first ∷ []) ++ field) ++ size) ++ topic) ++ []) ++ payload
      ≡ first ∷ (field ++ (size ++ (topic ++ payload)))
regroup first field size topic payload = simp (append_assoc)

-- The PUBLISH on the wire.
abbrev pub published : Bytes → Bytes → Bytes
published topic payload = framed 48 (publish_body topic payload)

-- What is built at QoS 0, when nothing is too long.
build_publish-framed :
    (topic payload : Bytes) (packet_id : ℕ)
    → length topic ≤ 65535
    → length (publish_body topic payload) ≤ max_packet_bytes
    → build_publish topic payload 0 packet_id ≡ ok (framed 48 (publish_body topic payload))
unfolding build_publish write_remaining_length push_str
build_publish-framed topic payload packet_id short fits =
    let n = length (publish_body topic payload) in
    let size : 2 + length topic + 0 + length payload ≡ n =
      omega (arith, length-append topic payload) in
    let same : length topic % 65536 ≡ length topic = omega arith in
    rw (size, le→ltb max_remaining n (omega arith), le→ltb 65535 (length topic) short, same)
      (ap (λ l. ok l) (regroup 48 (length_bytes 4 n) (be16_bytes (length topic)) topic payload))

abbrev pub pingreq : Bytes
pingreq = 192 ∷ 0 ∷ []

-- Reads in which no message arrives: idle periods, each answered by a PINGRESP before the next, and
-- PINGRESPs; then the rest. The list is what the client sends meanwhile.
pub data Quiet : Bool → List Read → List Bytes → List Read → Type 0 where
  over : {outstanding : Bool} {rest : List Read} → Quiet outstanding rest [] rest
  idle :
      {reads rest : List Read} {pings : List Bytes}
      → (e : IoKind) → is_timeout e false ≡ true
      → Quiet true reads pings rest
      → Quiet false (refused e false ∷ reads) (pingreq ∷ pings) rest
  answered :
      {outstanding : Bool} {reads rest : List Read} {pings : List Bytes}
      → Quiet false reads pings rest
      → Quiet outstanding (arriving (framed 208 []) ++ reads) pings rest

pub answered_size :
    (reads : List Read) → length (arriving (framed 208 []) ++ reads) ≡ 2 + length reads
unfolding length_bytes
answered_size reads = omega arith

-- The stream, with these reads and these packets sent; no write fails.
abbrev pub stream : List Read → List Bytes → Stream
stream incoming sent = record { incoming = incoming; write_results = []; sent = sent }

module _ (topic payload : Bytes) (rest : List Read) (short : length topic ≤ 65535)
    (fits : length (publish_body topic payload) ≤ max_packet_bytes) where
  pub await_publish-Quiet :
      (n : ℕ) {outstanding : Bool} {reads : List Read} {pings : List Bytes} (sent : List Bytes)
      → Quiet outstanding reads pings (arriving (framed 48 (publish_body topic payload)) ++ rest)
      → length reads < n
      → await_publish n outstanding (stream reads sent) ≡ (ok payload, stream rest (sent ++ pings))
  unfolding await_publish on_publish_packet read_packet_or_idle
  await_publish-Quiet zero sent q less = absurd (omega arith)
  await_publish-Quiet (suc n) sent over less =
      rw
        (
          read_packet_or_idle-framed 48 (publish_body topic payload) rest fits,
          extract_publish_payload-publish_body topic payload short,
          append-nil sent,
        )
        refl
  await_publish-Quiet (suc n) sent (idle {reads} {pings = pings} e timeout q) less =
      rw (timeout, ← append_assoc sent (pingreq ∷ []) pings)
        (await_publish-Quiet n (sent ++ (pingreq ∷ [])) q (omega arith))
  await_publish-Quiet (suc n) sent (answered {reads = reads} {pings = pings} q) less =
      rw (read_packet_or_idle-framed 208 [] reads (omega arith))
        (await_publish-Quiet n sent q (omega (arith, answered_size reads)))

-- What a broker answers that accepts: the CONNACK with code 0, and the SUBACK with a granted QoS.
abbrev pub connack : ℕ → List Read
connack flags = arriving (framed 32 (flags ∷ 0 ∷ []))

abbrev pub suback : ℕ → ℕ → ℕ → List Read
suback high low code = arriving (framed 144 (high ∷ low ∷ code ∷ []))

pub connect_handshake-connack :
    (client_id connect : Bytes) (user pass : Option Bytes) (flags : ℕ) (reads : List Read)
    (sent : List Bytes)
    → build_connect client_id user pass keep_alive_secs ≡ ok connect
    → connect_handshake client_id user pass (stream (connack flags ++ reads) sent)
      ≡ (ok tt, stream reads (sent ++ (connect ∷ [])))
unfolding connect_handshake check_connack
connect_handshake-connack client_id connect user pass flags reads sent built =
    rw (built, read_packet-framed 32 (flags ∷ 0 ∷ []) reads (omega arith)) refl

run_publish-connack :
    (client_id connect topic payload : Bytes) (user pass : Option Bytes) (flags : ℕ)
    (reads : List Read)
    → build_connect client_id user pass keep_alive_secs ≡ ok connect
    → length topic ≤ 65535
    → length (publish_body topic payload) ≤ max_packet_bytes
    → run_publish client_id topic payload 0 user pass (stream (connack flags ++ reads) []) ≡ (
      ok tt,
      stream reads (connect ∷ framed 48 (publish_body topic payload) ∷ (224 ∷ 0 ∷ []) ∷ []),
    )
unfolding run_publish
run_publish-connack client_id connect topic payload user pass flags reads built short fits =
    rw
      (
        connect_handshake-connack client_id connect user pass flags reads [] built,
        build_publish-framed topic payload 1 short fits,
      )
      refl

module _ (client_id connect filter subscribe topic payload : Bytes) (user pass : Option Bytes)
    (flags high low code : ℕ) (reads rest : List Read) (pings : List Bytes) where
  run_session-Quiet :
      build_connect client_id user pass keep_alive_secs ≡ ok connect
      → build_subscribe 1 filter ≡ ok subscribe
      → (code == 0x80) ≡ false
      → length topic ≤ 65535
      → length (publish_body topic payload) ≤ max_packet_bytes
      → Quiet false reads pings (arriving (framed 48 (publish_body topic payload)) ++ rest)
      → run_session client_id filter user pass
          (stream (connack flags ++ (suback high low code ++ reads)) [])
        ≡ (ok payload, stream rest ((connect ∷ subscribe ∷ pings) ++ ((224 ∷ 0 ∷ []) ∷ [])))
  unfolding run_session check_suback
  run_session-Quiet built subscribed granted short fits q =
      rw
        (
          connect_handshake-connack client_id connect user pass flags
              (suback high low code ++ reads) [] built,
          subscribed,
          read_packet-framed 144 (high ∷ low ∷ code ∷ []) reads (omega arith),
          granted,
          await_publish-Quiet topic payload rest short fits (suc (length reads))
              (connect ∷ subscribe ∷ []) q (omega arith),
        )
        refl

  -- If nothing is too long, and the broker accepts both connections and the subscription, then a
  -- publish at QoS 0 succeeds; and once its packet reaches a subscriber, after any idle periods that
  -- the broker answers and any PINGRESPs, the subscriber returns the payload, having sent its
  -- CONNECT, its SUBSCRIBE, one PINGREQ for each idle period and a DISCONNECT, and having read
  -- nothing behind the packet.
  pub run_session-run_publish :
      (publisher hello : Bytes) (left : List Read)
      → build_connect publisher user pass keep_alive_secs ≡ ok hello
      → build_connect client_id user pass keep_alive_secs ≡ ok connect
      → build_subscribe 1 filter ≡ ok subscribe
      → (code == 0x80) ≡ false
      → length topic ≤ 65535
      → length (publish_body topic payload) ≤ max_packet_bytes
      → Quiet false reads pings (arriving (published topic payload) ++ rest)
      → (run_publish publisher topic payload 0 user pass (stream (connack flags ++ left) [])
          ≡ (ok tt, stream left (hello ∷ published topic payload ∷ (224 ∷ 0 ∷ []) ∷ [])))
        × (run_session client_id filter user pass
              (stream (connack flags ++ (suback high low code ++ reads)) [])
            ≡ (ok payload, stream rest ((connect ∷ subscribe ∷ pings) ++ ((224 ∷ 0 ∷ []) ∷ []))))
  run_session-run_publish publisher hello left greeted built subscribed granted short fits q = (
    run_publish-connack publisher hello topic payload user pass flags left greeted short fits,
    run_session-Quiet built subscribed granted short fits q,
  )
