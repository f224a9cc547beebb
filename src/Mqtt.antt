-- ===== src/Mqtt.antt =====
-- The MQTT side of the server: astroplant-mqtt/src.
pub mod Topic
pub mod KitRpc
pub mod Timestamp
pub mod ServerRpc
pub mod Publications
