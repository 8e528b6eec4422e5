-- ===== src/Mqtt/Tests.antt =====
-- src/mqtt.rs: the theorems at concrete packets.
use rsurl.Base.{
  Answers, ◌≡◌, refl, arith, false, none, List, [], ◌∷◌, ◌++◌, ok, bad, timed_out, if◌then◌else◌,
  ◌==◌,
}
use rsurl.Base.Bytes.{Bytes, be16}
use rsurl.Mqtt.Packet.{keep_alive_secs, build_connect, build_subscribe, build_publish, length_bytes}
use rsurl.Mqtt.Wire.{Read, refused, read_remaining_length}
use rsurl.Mqtt.Wire.Length.{arriving, read_remaining_length-length_bytes}
use rsurl.Mqtt.Wire.Framing.{framed}
use rsurl.Mqtt.Session.{await_puback, await_publish, run_publish, run_session}
use rsurl.Mqtt.Session.Fuel.{await_puback-enough, await_publish-enough}
use rsurl.Mqtt.Session.Relay.{
  Quiet, over, idle, answered, connack, suback, published, pingreq, stream, run_session-run_publish,
}
use rsurl.Mqtt.Session.Confirm.{pingresps, puback, run_publish-puback}

abbrev name : Bytes
name = 114 ∷ []

abbrev topic : Bytes
topic = 116 ∷ []

abbrev message : Bytes
message = 104 ∷ []

abbrev connect : Bytes
connect = 16 ∷ 13 ∷ 0 ∷ 4 ∷ 77 ∷ 81 ∷ 84 ∷ 84 ∷ 4 ∷ 2 ∷ 0 ∷ 60 ∷ 0 ∷ 1 ∷ 114 ∷ []

connect_built : build_connect name none none keep_alive_secs ≡ ok connect
unfolding build_connect
connect_built = refl

abbrev subscribe : Bytes
subscribe = 130 ∷ 6 ∷ 0 ∷ 1 ∷ 0 ∷ 1 ∷ 116 ∷ 0 ∷ []

subscribe_built : build_subscribe 1 topic ≡ ok subscribe
unfolding build_subscribe
subscribe_built = refl

abbrev publish : Bytes
publish = 50 ∷ 6 ∷ 0 ∷ 1 ∷ 116 ∷ 0 ∷ 1 ∷ 104 ∷ []

publish_built : build_publish topic message 1 1 ≡ ok publish
unfolding build_publish
publish_built = refl

-- An idle period, its PINGRESP, and the message.
abbrev waiting : List Read
waiting =
    refused timed_out false
    ∷ (arriving (framed 208 []) ++ (arriving (published topic message) ++ []))

waiting-Quiet : Quiet false waiting (pingreq ∷ []) (arriving (published topic message) ++ [])
unfolding rsurl.Mqtt.Wire.is_timeout
waiting-Quiet = idle timed_out refl (answered over)

run_session-run_publish_example :
    (run_publish name topic message 0 none none (stream (connack 0 ++ []) [])
      ≡ (ok tt, stream [] (connect ∷ published topic message ∷ (224 ∷ 0 ∷ []) ∷ [])))
    × (run_session name topic none none (stream (connack 0 ++ (suback 0 1 0 ++ waiting)) [])
        ≡ (ok message, stream [] ((connect ∷ subscribe ∷ pingreq ∷ []) ++ ((224 ∷ 0 ∷ []) ∷ []))))
run_session-run_publish_example =
    run_session-run_publish name connect topic subscribe topic message none none 0 0 1 0 waiting []
      (pingreq ∷ []) name connect [] connect_built connect_built subscribe_built refl (omega arith)
      (omega arith) waiting-Quiet

run_publish-puback_example :
    run_publish name topic message 1 none none
      (stream (connack 0 ++ pingresps 2 (puback 0 1 [] ++ [])) [])
    ≡ (if be16 0 1 == 1
        then (ok tt, stream [] (connect ∷ publish ∷ (224 ∷ 0 ∷ []) ∷ []))
        else (bad "mqtt: PUBACK packet id", stream [] (connect ∷ publish ∷ [])))
run_publish-puback_example =
    run_publish-puback 0 1 [] [] (omega arith) 2 name connect topic message publish none none 0
      connect_built publish_built

read_remaining_length-length_bytes_example :
    read_remaining_length 2 (arriving (length_bytes 4 321) ++ []) ≡ ok (321, 2, [])
read_remaining_length-length_bytes_example =
    read_remaining_length-length_bytes 2 [] 321 (omega arith)

await_puback-enough_example :
    Answers (await_puback 3 1 (stream (refused timed_out false ∷ []) [])).0
    × (await_puback 3 1 (stream (refused timed_out false ∷ []) [])
        ≡ await_puback 9 1 (stream (refused timed_out false ∷ []) []))
await_puback-enough_example =
    await_puback-enough 3 9 1 (stream (refused timed_out false ∷ []) []) (omega arith) (omega arith)

await_publish-enough_example :
    Answers (await_publish 3 false (stream (refused timed_out false ∷ []) [])).0
    × (await_publish 3 false (stream (refused timed_out false ∷ []) [])
        ≡ await_publish 9 false (stream (refused timed_out false ∷ []) []))
await_publish-enough_example =
    await_publish-enough 3 9 false (stream (refused timed_out false ∷ []) []) (omega arith)
      (omega arith)

largest_length : length_bytes 4 268435455 ≡ 255 ∷ 255 ∷ 255 ∷ 127 ∷ []
unfolding length_bytes
largest_length = refl
