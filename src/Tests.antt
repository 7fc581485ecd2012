-- ===== src/Tests.antt =====
-- The properties at concrete inputs.
mod Capture
mod Protocols
mod Program
mod Java
mod Output
mod Redis
mod Dubbo
mod Http
mod Mongo
mod Nacos
mod Handlers
