-- ===== src/Dubbo.antt =====
-- dubboport: the Dubbo header, the names of serializations and states, and Triple.
pub mod Names
pub mod Header
pub mod Triple
pub mod Strings
pub mod Cleaning
pub mod Words
pub mod Hessian
pub mod Java
pub mod Metadata
