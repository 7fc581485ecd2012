-- ===== src/Mysql.antt =====
-- mysqlport/mysql_protocol.go: packets, length-encoded integers, client and server messages.
pub mod LenEnc
pub mod Message
pub mod Client
pub mod Server
pub mod Reader
pub mod Detect
pub mod Format
