-- ===== src/GatewayMqtt.antt =====
-- src/services/gateway_mqtt: the MQTT client of the cloud gateway.
pub mod Protocol
pub mod Service
pub mod Lifecycle
pub mod Login
pub mod Task
pub mod Manager
