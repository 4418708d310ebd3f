-- ===== src/Encoding/Mpi/Laws.antt =====
-- A number is read back as it was written, below 2 ^ 65535.
use go_crypto.Base.{
  ℕ, zero, suc, ◌+◌, ◌-◌, ◌*◌, ◌/◌, ◌%◌, ◌^◌, ◌≤◌, ◌<◌, Bool-cases, inl, inr, [], ◌∷◌, ◌++◌, length,
  bit_or, Bytes, ok, ◌≡◌, refl, arith, ◌==◌, false,
}
use go_crypto.Base.Bits.{bit_or_fields}
use go_crypto.Io.Laws.{read_full-append}
use go_crypto.Encoding.Mpi.{
  Mpi, len_bits, strip_zeros, bit_length_of, new_mpi, encoded_bytes, encoded_length, read_from,
}

len_bits_bounds : (n b : ℕ) → 0 < n → 0 < b → (0 < len_bits n b) × (len_bits n b ≤ n)
unfolding len_bits
len_bits_bounds zero b h p = absurd (omega arith)
len_bits_bounds (suc zero) b h p = ground arith
len_bits_bounds (suc (suc n)) b h p = ground (arith, len_bits_bounds (suc n) (b / 2))

-- What a well-formed number is: no leading zero, and the length in bits counts its bytes.
pub record IsMpi (m : Mpi) : Type 0 where
  pub bits_lt : m.bit_length < 2 ^ 16
  pub counts : (m.bit_length + 7) / 8 ≡ length m.bytes

pos_of_ne : (b : ℕ) → (b == 0) ≡ false → 0 < b
pos_of_ne b e = ground arith

length_ne :
    (b : ℕ) (bs : Bytes)
    → (b == 0) ≡ false
    → length (strip_zeros (b ∷ bs)) < 2 ^ 13
    → length bs < 2 ^ 13 - 1
unfolding strip_zeros
length_ne b bs e h = ground arith

strip_zeros-shape :
    (bs : Bytes)
    → length (strip_zeros bs) < 2 ^ 13
    → IsMpi (record { bytes = strip_zeros bs; bit_length = bit_length_of (strip_zeros bs) })
unfolding strip_zeros bit_length_of
strip_zeros-shape [] h = omega arith
strip_zeros-shape (b ∷ bs) h = elim (Bool-cases (b == 0)) [
  | inl e ↦ rw e (strip_zeros-shape bs (rw e at h))
  | inr e ↦
      rw e (omega (arith, len_bits_bounds 8 b (omega arith) (pos_of_ne b e), length_ne b bs e h))
]

pub new_mpi-IsMpi : (bs : Bytes) → length (new_mpi bs).bytes < 2 ^ 13 → IsMpi (new_mpi bs)
unfolding new_mpi
new_mpi-IsMpi bs h = strip_zeros-shape bs h

pub read_from-encoded_bytes :
    (m : Mpi) (rest : Bytes)
    → IsMpi m
    → read_from (encoded_bytes m ++ rest) ≡ ok (m, encoded_length m, rest)
unfolding read_from encoded_bytes encoded_length
read_from-encoded_bytes m rest h =
    let whole : bit_or (m.bit_length / 2 ^ 8 % 256 * 2 ^ 8) (m.bit_length % 256) ≡ m.bit_length =
      omega (
        arith,
        bit_or_fields 8 (m.bit_length / 2 ^ 8 % 256) (m.bit_length % 256) (omega arith),
        h.bits_lt,
      ) in
    rw (whole, h.counts, read_full-append (length m.bytes) m.bytes rest refl)
      (ground (arith, h.counts, h.bits_lt))

-- The encoding of a number of fewer than 2 ^ 13 bytes behind its leading zeros is read back to that
-- number and the count of its bytes, and what follows it is left.
pub read_from-new_mpi :
    (bs rest : Bytes)
    → length (new_mpi bs).bytes < 2 ^ 13
    → read_from (encoded_bytes (new_mpi bs) ++ rest)
      ≡ ok (new_mpi bs, encoded_length (new_mpi bs), rest)
read_from-new_mpi bs rest h = read_from-encoded_bytes (new_mpi bs) rest (new_mpi-IsMpi bs h)
