-- ===== src/Ca.antt =====
-- src/infra/ca: the node's certificate authority, which signs the certificates of devices, of the
-- broker and of the node itself, and keeps them in a database.
pub mod Operations
pub mod Tables
pub mod Service
pub mod Devices
pub mod Refinement
pub mod Revocation
pub mod Identity
pub mod Authority
