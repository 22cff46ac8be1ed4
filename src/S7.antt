-- ===== src/S7.antt =====
-- internal/adapter/s7: the merging of tags into byte ranges.
pub mod Batch
pub mod Address
pub mod Convert
pub mod Client
