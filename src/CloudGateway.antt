-- ===== src/CloudGateway.antt =====
-- src/services/cloud_gateway: the WebSocket client of the cloud gateway.
pub mod Url
pub mod Messages
pub mod Service
pub mod Lifecycle
pub mod Task
pub mod Manager
