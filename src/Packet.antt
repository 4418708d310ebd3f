-- ===== src/Packet.antt =====
-- openpgp/packet: the packet layer.
pub mod Framing
pub mod Mdc
pub mod Chunked
pub mod Encrypted
pub mod Opaque
pub mod OpaquePacket
pub mod Reader
pub mod SignatureArea
pub mod Signature
pub mod Literal
pub mod OnePass
pub mod UserId
pub mod Tests
