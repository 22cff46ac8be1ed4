-- ===== src/Domain.antt =====
-- internal/domain: the entities that every adapter shares.
pub mod Errors
pub mod Float
pub mod Value
pub mod Tag
pub mod Validate
pub mod DataPoint
pub mod Device
pub mod Manager
