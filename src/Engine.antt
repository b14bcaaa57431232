-- ===== src/Engine.antt =====
-- The engine of services/dispenser-service: the runtime state of a fuelling position and what the
-- frames of its pump and the commands of its operator do to it.
pub mod Float
pub mod Types
pub mod Runtime
pub mod Session
pub mod Meters
pub mod Nozzles
pub mod Effects
pub mod Sales
pub mod Stopped
pub mod Holster
pub mod Idle
pub mod Commands
pub mod Operator
pub mod Lift
pub mod Metering
pub mod Outside
pub mod Frames
pub mod Steps
mod Polls
mod Volume
mod Prices
mod DecelWindow
mod Tests
mod StopTwice
pub mod Unverified
pub mod Sound
