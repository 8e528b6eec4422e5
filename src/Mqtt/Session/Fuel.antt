-- ===== src/Mqtt/Session/Fuel.antt =====
-- src/mqtt.rs: the loops of the sessions read no more packets than the fuel that they are given.
use rsurl.Base.{
  ℕ, zero, suc, ◌<◌, ◌≡◌, refl, arith, Bool, true, false, inl, inr, Option, some, none, List, [],
  ◌∷◌, length, ◌*◌, Result-cases, IoKind, Bool-cases, Answers, Result, ok, err, ltb, ◌==◌,
}
use rsurl.Base.Bytes.{Bytes, be16}
use rsurl.Mqtt.Packet.{
  pkt_pingreq, pkt_puback, pkt_pingresp, pkt_publish, parse_puback, extract_publish_payload,
}
use rsurl.Mqtt.Wire.{read_packet, read_packet_or_idle}
use rsurl.Mqtt.Wire.Progress.{
  read_packet_progress, read_packet_or_idle_progress, read_packet_error, read_packet_or_idle_error,
}
use rsurl.Mqtt.Session.{
  Stream, Session, on_ack_packet, await_puback, on_publish_packet, await_publish, and_then,
  write_with, lift, on_acked,
}

on_ack_packet_same :
    (packet_id : ℕ) (again other : Session (Unit {0})) (p : ℕ × Bytes) (s : Stream)
    → again s ≡ other s
    → on_ack_packet packet_id again p s ≡ on_ack_packet packet_id other p s
unfolding on_ack_packet
on_ack_packet_same packet_id again other p s same = ground (arith, same)

await_puback_same :
    (m n packet_id : ℕ) (s : Stream)
    → length s.incoming < m
    → length s.incoming < n
    → await_puback m packet_id s ≡ await_puback n packet_id s
unfolding await_puback
await_puback_same zero n packet_id s hm hn = absurd (omega arith)
await_puback_same (suc m) zero packet_id s hm hn = absurd (omega arith)
await_puback_same (suc m) (suc n) packet_id s hm hn = elim (Result-cases (read_packet s.incoming)) [
  | inl (p, read) ↦
      let less : length p.1 < length s.incoming = read_packet_progress s.incoming read in
      rw read (
        on_ack_packet_same packet_id (λ t. await_puback m packet_id t)
          (λ t. await_puback n packet_id t) p.0 (record s { incoming = p.1 })
          (await_puback_same m n packet_id (record s { incoming = p.1 }) (omega arith)
            (omega arith)))
  | inr (e, read) ↦ rw read refl
]

parse_puback-Answers : (body : Bytes) → Answers (parse_puback body)
unfolding parse_puback
parse_puback-Answers [] = refl
parse_puback-Answers (a ∷ []) = refl
parse_puback-Answers (a ∷ b ∷ rest) = tt

on_acked-Answers : (packet_id acked : ℕ) → Answers (on_acked packet_id acked)
unfolding on_acked
on_acked-Answers packet_id acked = elim (Bool-cases (acked == packet_id)) [
  | inl e ↦ rw e tt
  | inr e ↦ rw e refl
]

acknowledged-Answers :
    (packet_id : ℕ) (r : Result ℕ) (s : Stream)
    → Answers r
    → Answers (and_then (r, s) (λ acked. lift (on_acked packet_id acked))).0
acknowledged-Answers packet_id (err e) s h = h
acknowledged-Answers packet_id (ok acked) s h = on_acked-Answers packet_id acked

on_ack_packet-Answers :
    (packet_id : ℕ) (again : Session (Unit {0})) (p : ℕ × Bytes) (s : Stream)
    → Answers (again s).0
    → Answers (on_ack_packet packet_id again p s).0
unfolding on_ack_packet
on_ack_packet-Answers packet_id again p s h = elim (Bool-cases (p.0 == pkt_puback)) [
  | inl e ↦ rw e (acknowledged-Answers packet_id (parse_puback p.1) s (parse_puback-Answers p.1))
  | inr e ↦ elim (Bool-cases (p.0 == pkt_pingresp)) [ inl f ↦ rw (e, f) h | inr f ↦ rw (e, f) refl ]
]

await_puback-Answers :
    (m packet_id : ℕ) (s : Stream) → length s.incoming < m → Answers (await_puback m packet_id s).0
unfolding await_puback
await_puback-Answers zero packet_id s hm = absurd (omega arith)
await_puback-Answers (suc m) packet_id s hm = elim (Result-cases (read_packet s.incoming)) [
  | inl (p, read) ↦
      let less : length p.1 < length s.incoming = read_packet_progress s.incoming read in
      rw read (
        on_ack_packet-Answers packet_id (λ t. await_puback m packet_id t) p.0
          (record s { incoming = p.1 })
          (await_puback-Answers m packet_id (record s { incoming = p.1 }) (omega arith)))
  | inr (e, read) ↦ rw read (read_packet_error s.incoming read)
]

-- With fuel above the number of reads that the stream holds, the wait for the PUBACK does not run
-- out of it: it ends with success or with an error of the code, and any two such fuels give the same.
pub await_puback-enough :
    (m n packet_id : ℕ) (s : Stream)
    → length s.incoming < m
    → length s.incoming < n
    → Answers (await_puback m packet_id s).0
      × (await_puback m packet_id s ≡ await_puback n packet_id s)
await_puback-enough m n packet_id s hm hn =
    (await_puback-Answers m packet_id s hm, await_puback_same m n packet_id s hm hn)

write_with_same :
    (results : List (Option IoKind)) (bytes : Bytes) (s : Stream) (again other : Session Bytes)
    → ((t : Stream) → t.incoming ≡ s.incoming → again t ≡ other t)
    → and_then (write_with results bytes s) (λ done. again)
      ≡ and_then (write_with results bytes s) (λ done. other)
write_with_same [] bytes s again other h = h _ refl
write_with_same (none ∷ later) bytes s again other h = h _ refl
write_with_same (some e ∷ later) bytes s again other h = refl

on_publish_packet_same :
    (outstanding : Bool) (again other : Bool → Session Bytes) (p : Option (ℕ × Bytes)) (s : Stream)
    → ((ping : Bool) (t : Stream) → t.incoming ≡ s.incoming → again ping t ≡ other ping t)
    → on_publish_packet outstanding again p s ≡ on_publish_packet outstanding other p s
unfolding on_publish_packet
on_publish_packet_same true again other none s h = refl
on_publish_packet_same false again other none s h =
    write_with_same s.write_results (pkt_pingreq * 16 ∷ 0 ∷ []) s (again true) (other true) (h true)
on_publish_packet_same outstanding again other (some p) s h = ground (arith, h false s refl)

await_publish_same :
    (m n : ℕ) (outstanding : Bool) (s : Stream)
    → length s.incoming < m
    → length s.incoming < n
    → await_publish m outstanding s ≡ await_publish n outstanding s
unfolding await_publish
await_publish_same zero n outstanding s hm hn = absurd (omega arith)
await_publish_same (suc m) zero outstanding s hm hn = absurd (omega arith)
await_publish_same (suc m) (suc n) outstanding s hm hn =
    elim (Result-cases (read_packet_or_idle s.incoming)) [
      | inl (p, read) ↦
          let less : length p.1 < length s.incoming =
            read_packet_or_idle_progress s.incoming read in
          rw read (
            on_publish_packet_same outstanding (λ ping t. await_publish m ping t)
              (λ ping t. await_publish n ping t) p.0 (record s { incoming = p.1 })
              (λ ping t same.
                await_publish_same m n ping t (rw same (omega arith)) (rw same (omega arith))))
      | inr (e, read) ↦ rw read refl
    ]

write_with-Answers :
    (results : List (Option IoKind)) (bytes : Bytes) (s : Stream) (again : Session Bytes)
    → ((t : Stream) → t.incoming ≡ s.incoming → Answers (again t).0)
    → Answers (and_then (write_with results bytes s) (λ done. again)).0
write_with-Answers [] bytes s again h = h _ refl
write_with-Answers (none ∷ later) bytes s again h = h _ refl
write_with-Answers (some e ∷ later) bytes s again h = refl

extract_publish_payload-Answers : (body : Bytes) → Answers (extract_publish_payload body)
unfolding extract_publish_payload
extract_publish_payload-Answers [] = refl
extract_publish_payload-Answers (a ∷ []) = refl
extract_publish_payload-Answers (a ∷ b ∷ rest) = elim (Bool-cases (ltb (length rest) (be16 a b))) [
  | inl e ↦ rw e refl
  | inr e ↦ rw e tt
]

on_publish_packet-Answers :
    (outstanding : Bool) (again : Bool → Session Bytes) (p : Option (ℕ × Bytes)) (s : Stream)
    → ((ping : Bool) (t : Stream) → t.incoming ≡ s.incoming → Answers (again ping t).0)
    → Answers (on_publish_packet outstanding again p s).0
unfolding on_publish_packet
on_publish_packet-Answers true again none s h = refl
on_publish_packet-Answers false again none s h =
    write_with-Answers s.write_results (pkt_pingreq * 16 ∷ 0 ∷ []) s (again true) (h true)
on_publish_packet-Answers outstanding again (some p) s h = elim (Bool-cases (p.0 == pkt_publish)) [
  | inl e ↦ rw e (extract_publish_payload-Answers p.1)
  | inr e ↦ elim (Bool-cases (p.0 == pkt_pingresp)) [
    | inl f ↦ rw (e, f) (h false s refl)
    | inr f ↦ rw (e, f) refl
  ]
]

await_publish-Answers :
    (m : ℕ) (outstanding : Bool) (s : Stream)
    → length s.incoming < m
    → Answers (await_publish m outstanding s).0
unfolding await_publish
await_publish-Answers zero outstanding s hm = absurd (omega arith)
await_publish-Answers (suc m) outstanding s hm =
    elim (Result-cases (read_packet_or_idle s.incoming)) [
      | inl (p, read) ↦
          let less : length p.1 < length s.incoming =
            read_packet_or_idle_progress s.incoming read in
          rw read (
            on_publish_packet-Answers outstanding (λ ping t. await_publish m ping t) p.0
              (record s { incoming = p.1 })
              (λ ping t same. await_publish-Answers m ping t (rw same (omega arith))))
      | inr (e, read) ↦ rw read (read_packet_or_idle_error s.incoming read)
    ]

-- With fuel above the number of reads that the stream holds, the wait for a PUBLISH does not run out
-- of it: it ends with the payload or with an error of the code, and any two such fuels give the same.
pub await_publish-enough :
    (m n : ℕ) (outstanding : Bool) (s : Stream)
    → length s.incoming < m
    → length s.incoming < n
    → Answers (await_publish m outstanding s).0
      × (await_publish m outstanding s ≡ await_publish n outstanding s)
await_publish-enough m n outstanding s hm hn =
    (await_publish-Answers m outstanding s hm, await_publish_same m n outstanding s hm hn)
