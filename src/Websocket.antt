-- ===== src/Websocket.antt =====
-- websocketport/websocket_protocol.go.
pub mod Frame
pub mod Format
pub mod Ends
pub mod RoundTrip
