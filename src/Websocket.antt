-- ===== src/Websocket.antt =====
-- WebSocket (RFC 6455): src/websocket.rs. `Frame` has the frame codec and the control-frame rules,
-- `Stream` the frame reader over a transport, `Reader` the event loop of the read half.
pub mod Frame
pub mod Close
pub mod Stream
pub mod Control
pub mod Reader
mod Tests
