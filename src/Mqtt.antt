-- ===== src/Mqtt.antt =====
-- internal/adapter/mqtt: the publisher of data points.
pub mod Topics
pub mod Publisher
