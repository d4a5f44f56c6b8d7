-- ===== src/Tests.antt =====
-- Runs at concrete inputs, one for each property.
pub mod Samples
mod Protocol
mod Relay
mod Fragment
mod Outbox
mod Sync
mod Noise
mod Handshake
mod Courier
mod Mailbox
mod Gateway
