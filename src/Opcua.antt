-- ===== src/Opcua.antt =====
-- internal/adapter/opcua: the load shaping that its sessions share.
pub mod LoadShaping
