-- ===== src/Http1.antt =====
-- src/proto/http1.rs: one HTTP/1.1 exchange, with no sockets, and the parsers of src/http.rs that
-- it uses.
pub mod Head
pub mod Machine
pub mod Chunked
pub mod Exchange
mod Scan
pub mod Fuel
pub mod Resume
pub mod Bounds
pub mod Framing
pub mod Decode
pub mod Whole
mod Tests
