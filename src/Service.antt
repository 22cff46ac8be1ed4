-- ===== src/Service.antt =====
-- internal/service: the services that tie the adapters together.
pub mod Command
pub mod Topic
pub mod Polling
pub mod Starting
