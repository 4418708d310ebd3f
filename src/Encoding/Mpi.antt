-- ===== src/Encoding/Mpi.antt =====
-- openpgp/internal/encoding/mpi.go: multiprecision integers, with a length in bits.
pub mod Laws
use go_crypto.Base.{
  ℕ, zero, suc, ◌+◌, ◌-◌, ◌*◌, ◌/◌, ◌^◌, List, [], ◌∷◌, length, get_or, bit_or, Bytes, Result, ok,
  err, panic, stuck, ◌>>=◌, ◌==◌, if◌then◌else◌,
}
use go_crypto.Base.Words.{u8, u16}
use go_crypto.Io.{read_full, within_packet}

pub record Mpi : Type 0 where
  pub bytes : Bytes
  pub bit_length : ℕ

-- `bits.Len8`: how many bits it takes to write a byte, of which `n` are looked at.
unfoldable pub len_bits : ℕ → ℕ → ℕ
len_bits zero b = 0
len_bits (suc n) b = if b == 0 then 0 else suc (len_bits n (b / 2))

unfoldable pub strip_zeros : Bytes → Bytes
strip_zeros [] = []
strip_zeros (b ∷ bs) = if b == 0 then strip_zeros bs else b ∷ bs

unfoldable pub bit_length_of : Bytes → ℕ
bit_length_of [] = 0
bit_length_of (b ∷ bs) = u16 (u16 (8 * u16 (length bs)) + len_bits 8 b)

-- `NewMPI`
unfoldable pub new_mpi : Bytes → Mpi
unfolding strip_zeros bit_length_of
new_mpi bs =
    let stripped = strip_zeros bs in
    record { bytes = stripped; bit_length = bit_length_of stripped }

-- `EncodedBytes`
unfoldable pub encoded_bytes : Mpi → Bytes
encoded_bytes m = u8 (m.bit_length / 2 ^ 8) ∷ u8 m.bit_length ∷ m.bytes

-- `EncodedLength`
unfoldable pub encoded_length : Mpi → ℕ
encoded_length m = u16 (2 + length m.bytes)

-- `ReadFrom`: the number, how many bytes it took, and the bytes that follow.
unfoldable pub read_from : Bytes → Result (Mpi × ℕ × Bytes)
unfolding read_full within_packet
read_from src = do
  (buf, rest) ← within_packet (read_full 2 src)
  let n = bit_or (get_or buf 0 0 * 2 ^ 8) (get_or buf 1 0)
  (bytes, rest') ← within_packet (read_full ((n + 7) / 8) rest)
  ok (record { bytes = bytes; bit_length = n }, 2 + length bytes, rest')
