-- ===== src/App.antt =====
-- main.go: the choice of a protocol, the subcommands and the filter on the cost of a call.
pub mod Auto
pub mod Detectors
pub mod Cost
pub mod Handler
