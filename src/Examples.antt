-- ===== src/Examples.antt =====
-- The theorems of the development at concrete inputs.
mod Commands
mod Services
mod Beacons
mod Devices
mod Keys
mod Tasks
mod Settings
mod Authority
mod Broker
mod Startup
mod Listeners
mod Onboarding
