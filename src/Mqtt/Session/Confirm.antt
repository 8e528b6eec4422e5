-- ===== src/Mqtt/Session/Confirm.antt =====
-- src/mqtt.rs: a publish at QoS 1 waits for its PUBACK.
use rsurl.Base.{
  ℕ, zero, suc, ◌+◌, ◌≤◌, ◌<◌, ◌≡◌, refl, arith, Option, List, [], ◌∷◌, ◌++◌, length, ◌==◌, ok, bad,
  if◌then◌else◌, Bool-cases, inl, inr,
}
use rsurl.Base.Bytes.{Bytes, be16}
use rsurl.Mqtt.Packet.{
  keep_alive_secs, max_packet_bytes, build_connect, build_publish, parse_puback,
}
use rsurl.Mqtt.Wire.{Read}
use rsurl.Mqtt.Wire.Length.{arriving}
use rsurl.Mqtt.Wire.Framing.{framed, read_packet-framed}
use rsurl.Mqtt.Session.Relay.{stream, connack, answered_size, connect_handshake-connack}
use rsurl.Mqtt.Session.{await_puback, on_ack_packet, on_acked, run_publish}

-- PINGRESPs, and then the reads.
abbrev pub pingresps : ℕ → List Read → List Read
pingresps zero reads = reads
pingresps (suc k) reads = arriving (framed 208 []) ++ pingresps k reads

abbrev pub puback : ℕ → ℕ → Bytes → List Read
puback high low more = arriving (framed 64 (high ∷ low ∷ more))

module _ (high low : ℕ) (more : Bytes) (rest : List Read)
    (fits : length more + 2 ≤ max_packet_bytes) where
  await_puback-pingresps :
      (k n : ℕ) (sent : List Bytes)
      → length (pingresps k (puback high low more ++ rest)) < n
      → await_puback n 1 (stream (pingresps k (puback high low more ++ rest)) sent)
        ≡ (on_acked 1 (be16 high low), stream rest sent)
  unfolding await_puback on_ack_packet parse_puback
  await_puback-pingresps k zero sent less = absurd (omega arith)
  await_puback-pingresps zero (suc n) sent less =
      rw (read_packet-framed 64 (high ∷ low ∷ more) rest (omega arith)) refl
  await_puback-pingresps (suc k) (suc n) sent less =
      let reads : List Read = pingresps k (puback high low more ++ rest) in
      rw (read_packet-framed 208 [] reads (omega arith))
        (await_puback-pingresps k n sent (omega (arith, answered_size reads)))

  -- A publish at QoS 1, behind any number of PINGRESPs: if the PUBACK names the packet, it succeeds
  -- and sends a DISCONNECT; if it names another, it fails and sends nothing more.
  pub run_publish-puback :
      (k : ℕ) (client_id connect topic payload publish : Bytes) (user pass : Option Bytes)
      (flags : ℕ)
      → build_connect client_id user pass keep_alive_secs ≡ ok connect
      → build_publish topic payload 1 1 ≡ ok publish
      → run_publish client_id topic payload 1 user pass
          (stream (connack flags ++ pingresps k (puback high low more ++ rest)) [])
        ≡ (if be16 high low == 1
            then (ok tt, stream rest (connect ∷ publish ∷ (224 ∷ 0 ∷ []) ∷ []))
            else (bad "mqtt: PUBACK packet id", stream rest (connect ∷ publish ∷ [])))
  unfolding run_publish on_acked
  run_publish-puback k client_id connect topic payload publish user pass flags built packed =
      let reads : List Read = pingresps k (puback high low more ++ rest) in
      let waited =
        await_puback-pingresps k (suc (length reads)) (connect ∷ publish ∷ []) (omega arith) in
      elim (Bool-cases (be16 high low == 1)) [
        | inl mine ↦
            rw
              (
                connect_handshake-connack client_id connect user pass flags reads [] built,
                packed,
                waited,
                mine,
              )
              refl
        | inr other ↦
            rw
              (
                connect_handshake-connack client_id connect user pass flags reads [] built,
                packed,
                waited,
                other,
              )
              refl
      ]
