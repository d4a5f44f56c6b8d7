-- ===== src/Protocol.antt =====
-- The wire format (src/protocol.rs): packets, their encoding, padding, and decoding.
pub mod Message
pub mod Padding
pub mod Encode
pub mod Reader
pub mod Decode
pub mod Framed
pub mod Sound
pub mod Fields
pub mod RoundTrip
pub mod Signing
pub mod Unpad
