-- ===== src/Modbus.antt =====
-- internal/adapter/modbus: the Modbus adapter.
pub mod Bytes
pub mod Convert
pub mod Batch
pub mod Errors
pub mod Client
pub mod Range
pub mod Group
pub mod Single
pub mod Write
pub mod Breaker
pub mod Pool
