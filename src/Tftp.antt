-- ===== src/Tftp.antt =====
-- TFTP: src/tftp.rs. `Packet` has the packet builders and parsers, `Transport` the datagram socket
-- as the loops see it, `Fetch` and `Store` the two transfer loops; the proofs are below them.
pub mod Packet
pub mod Transport
pub mod Blocks
pub mod Fetch
pub mod Store
pub mod RoundTrip
mod Tests
