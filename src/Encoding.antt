-- ===== src/Encoding.antt =====
-- openpgp/internal/encoding: the fields of keys and signatures that carry their own length.
pub mod Mpi
pub mod Oid
mod Tests
