-- ===== src/Brokerage.antt =====
-- src/services/mqtt_brokerage: the Mosquitto broker as a child process, its password file, its TLS
-- certificate and its registration with the supervisor.
pub mod Service
pub mod Passwords
pub mod Provision
pub mod Manager
pub mod Children
pub mod Lifecycle
pub mod Certificate
