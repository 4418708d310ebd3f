-- ===== src/Text.antt =====
-- Text: canonical line ends.
pub mod Canonical
pub mod Armor
pub mod Cleartext
mod Tests
