-- ===== src/Config.antt =====
-- src/config.rs: the configuration that is read from the environment, and the broker's configuration
-- file. The environment is a function: `none` where `std::env::var` fails.
pub mod Types
pub mod Env
pub mod Brokerage
pub mod Agreement
