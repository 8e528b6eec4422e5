-- ===== src/Mqtt/Packet.antt =====
-- src/mqtt.rs: the packets that the client builds, and the bodies that it takes apart. Shifts and
-- masks of single bytes are written as arithmetic.
use rsurl.Base.{
  ℕ, zero, suc, ◌+◌, ◌*◌, ◌/◌, ◌%◌, Bool, false, ◌||◌, Option, none, some, [], ◌∷◌, ◌++◌, length,
  drop, ltb, ◌==◌, if◌then◌else◌, Result, ok, bad, ◌>>=◌, ◌>>◌,
}
use rsurl.Base.Bytes.{Bytes, codes, be16, be16_bytes}

abbrev pub pkt_connect : ℕ
pkt_connect = 1

abbrev pub pkt_connack : ℕ
pkt_connack = 2

abbrev pub pkt_publish : ℕ
pkt_publish = 3

abbrev pub pkt_puback : ℕ
pkt_puback = 4

abbrev pub pkt_subscribe : ℕ
pkt_subscribe = 8

abbrev pub pkt_suback : ℕ
pkt_suback = 9

abbrev pub pkt_pingreq : ℕ
pkt_pingreq = 12

abbrev pub pkt_pingresp : ℕ
pkt_pingresp = 13

abbrev pub pkt_disconnect : ℕ
pkt_disconnect = 14

abbrev pub max_packet_bytes : ℕ
max_packet_bytes = 67108864

abbrev pub max_remaining : ℕ
max_remaining = 268435455

abbrev pub keep_alive_secs : ℕ
keep_alive_secs = 60

-- `first_control_byte(s).is_some()`.
pub has_control_byte : Bytes → Bool
has_control_byte [] = false
has_control_byte (b ∷ bs) = (ltb b 0x20 || b == 0x7f) || has_control_byte bs

unfoldable pub reject_ctl : Bytes → Result (Unit {0})
unfolding has_control_byte
reject_ctl s = if has_control_byte s then bad "mqtt: illegal control byte" else ok tt

-- A length in 16 bits, and the text.
unfoldable pub push_str : Bytes → Bytes → Result Bytes
push_str out s =
    if ltb 65535 (length s)
    then bad "mqtt: string exceeds MQTT maximum"
    else ok ((out ++ be16_bytes (length s % 65536)) ++ s)

-- The loop of `write_remaining_length`; four rounds are enough for 28 bits.
unfoldable pub length_bytes : ℕ → ℕ → Bytes
length_bytes zero x = []
length_bytes (suc rounds) x =
    let rest = length_bytes rounds (x / 128) in
    if ltb 0 (x / 128) then (x % 128 + 128) ∷ rest else x % 128 ∷ []

unfoldable pub write_remaining_length : Bytes → ℕ → Result Bytes
unfolding length_bytes
write_remaining_length out len =
    if ltb max_remaining len
    then bad "mqtt: packet exceeds the MQTT maximum"
    else ok (out ++ length_bytes 4 len)

-- `if let Some(s) = o { f(s)? }`.
abbrev pub when_some : Option Bytes → (Bytes → Result (Unit {0})) → Result (Unit {0})
when_some none f = ok tt
when_some (some s) f = f s

abbrev pub push_some : Option Bytes → Bytes → Result Bytes
push_some none out = ok out
push_some (some s) out = push_str out s

abbrev pub flag_of : Option Bytes → ℕ → ℕ
flag_of none bit = 0
flag_of (some s) bit = bit

-- Fixed header, remaining length, and the body.
unfoldable pub packet : ℕ → Bytes → Result Bytes
unfolding write_remaining_length
packet first body = do out ← write_remaining_length (first ∷ []) (length body); ok (out ++ body)

unfoldable pub build_connect : Bytes → Option Bytes → Option Bytes → ℕ → Result Bytes
unfolding reject_ctl push_str packet
build_connect client_id user pass keep_alive = do
  when_some user reject_ctl
  when_some pass reject_ctl
  start ← push_str [] (codes "MQTT")
  let flags = 0x02 + flag_of user 0x80 + flag_of pass 0x40
  named ← push_str ((start ++ (4 ∷ flags ∷ [])) ++ be16_bytes keep_alive) client_id
  with_user ← push_some user named
  body ← push_some pass with_user
  packet (pkt_connect * 16) body

unfoldable pub build_subscribe : ℕ → Bytes → Result Bytes
unfolding push_str packet
build_subscribe packet_id topic = do
  body ← push_str (be16_bytes packet_id) topic
  packet (pkt_subscribe * 16 + 2) (body ++ (0 ∷ []))

unfoldable pub build_publish : Bytes → Bytes → ℕ → ℕ → Result Bytes
unfolding write_remaining_length push_str
build_publish topic payload qos packet_id = do
  let id_bytes : Bytes = if ltb 0 qos then be16_bytes packet_id else []
  let id_len : ℕ = if ltb 0 qos then 2 else 0
  start ←
      write_remaining_length ((pkt_publish * 16 + qos % 4 * 2) ∷ [])
        (2 + length topic + id_len + length payload)
  named ← push_str start topic
  ok ((named ++ id_bytes) ++ payload)

unfoldable pub parse_puback : Bytes → Result ℕ
parse_puback (a ∷ b ∷ rest) = ok (be16 a b)
parse_puback _ = bad "mqtt: short PUBACK"

unfoldable pub extract_publish_payload : Bytes → Result Bytes
extract_publish_payload (a ∷ b ∷ rest) =
    if ltb (length rest) (be16 a b)
    then bad "mqtt: PUBLISH topic length exceeds packet"
    else ok (drop (be16 a b) rest)
extract_publish_payload _ = bad "mqtt: short PUBLISH"
