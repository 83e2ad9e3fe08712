-- ===== src/Gateway.antt =====
-- src/services/beacon_management: the HTTP gateway, which answers the requests of devices and passes
-- all others on.
pub mod Requests
pub mod Handlers
pub mod Dispatch
pub mod Service
pub mod Queue
pub mod Handshake
pub mod Admission
pub mod Recovery
pub mod Issuing
pub mod Tls
pub mod Connections
pub mod Secured
pub mod Ended
pub mod Listening
pub mod Presented
