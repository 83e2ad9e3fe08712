-- ===== src/MqttClient.antt =====
-- src/services/mqtt_client: the client of the local broker.
mod Types
pub mod Options
pub mod Service
pub mod Lifecycle
pub mod Tasks
pub mod Handle
pub mod Provisioned
pub mod Manager
pub use Types.*
