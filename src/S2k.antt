-- ===== src/S2k.antt =====
-- openpgp/s2k: keys from passphrases.
pub mod Hash
pub mod Count
pub mod Params
pub mod Stretch
pub mod Cache
mod Tests
