-- ===== src/Packet/Framing.antt =====
-- openpgp/packet/packet.go: lengths, headers, and the readers and the writer of packet bodies.
pub mod Length
pub mod Header
pub mod Readers
pub mod Writer
mod Tests
