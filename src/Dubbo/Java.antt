-- ===== src/Dubbo/Java.antt =====
-- dubboport/java_deserializer.go: Java's object streams.
pub mod State
pub mod Strings
pub mod Blocks
pub mod Class
pub mod Content
pub mod Args
pub mod Attachments
pub mod Runs
pub mod Moves
pub mod Ends
pub mod Nesting
pub mod Bounds
pub mod Loops
pub mod Left
pub mod Encode
pub mod Classes
pub mod Circle
pub mod Faults
