-- ===== src/Clients.antt =====
-- The callers of `bridge_service_queue_control`: main/mqtt_service.c, main/web_service.c and
-- optional_components/zigbee_service/zigbee_service.c.
pub mod Names
pub mod Issue
pub mod Zigbee
pub mod Json
pub mod Mqtt
pub mod Web
pub mod Reach
