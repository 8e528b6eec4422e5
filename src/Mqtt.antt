-- ===== src/Mqtt.antt =====
-- MQTT 3.1.1: src/mqtt.rs. `Packet` has the packets, `Wire` the reader, `Session` the two sessions.
pub mod Packet
pub mod Wire
pub mod Session
mod Tests
