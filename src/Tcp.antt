-- ===== src/Tcp.antt =====
-- tcpport/assembler.go: sequence numbers, the receive window, streams, connections, the assembler.
pub mod Seq
pub mod Packet
pub mod Window
pub mod Stream
pub mod Connection
pub mod Assembler
pub mod Wildcard
