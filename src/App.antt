-- ===== src/App.antt =====
-- src/app.rs: the node's two loops.
pub mod MessageLoop
pub mod Records
pub mod Gateways
pub mod BroadcastLoop
pub mod Services
pub mod Initialize
pub mod Startup
pub mod WithoutBroker
pub mod Trust
pub mod Broadcasts
pub mod Onboarding
