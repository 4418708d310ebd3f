-- ===== src/Crypto.antt =====
-- openpgp/aes/keywrap, ocb and openpgp/packet/ocfb.go: modes of operation over a block cipher.
pub mod Block
pub mod KeyWrap
pub mod Modes
pub mod Eax
pub mod Ciphers
pub mod Ocb
pub mod Ocfb
pub mod Tests
