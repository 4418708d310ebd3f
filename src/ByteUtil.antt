-- ===== src/ByteUtil.antt =====
-- internal/byteutil/byteutil.go: shifts and sums of byte strings. A function that writes into a slice
-- of the caller returns the new contents of that slice.
pub mod Laws
use go_crypto.Base.{
  ℕ, zero, suc, ◌+◌, ◌-◌, ◌*◌, ◌/◌, ◌%◌, ◌^◌, List, [], ◌∷◌, ◌++◌, length, take, drop, replicate,
  get_or, bit_or, bit_xor, Bytes, Result, ok, panic, ◌==◌, if◌then◌else◌,
}
use go_crypto.Base.Words.{u8}

-- `ShiftBytesLeft`: each byte takes in the top bit of the next one.
unfoldable pub shift_bytes_left : Bytes → Bytes
shift_bytes_left [] = []
shift_bytes_left (x ∷ []) = u8 (x * 2) ∷ []
shift_bytes_left (x ∷ y ∷ xs) = bit_or (u8 (x * 2)) (y / 2 ^ 7) ∷ shift_bytes_left (y ∷ xs)

-- `shifted[15] ^= v`
unfoldable pub xor_last : Bytes → ℕ → Bytes
xor_last [] v = []
xor_last (x ∷ []) v = bit_xor x v ∷ []
xor_last (x ∷ y ∷ xs) v = x ∷ xor_last (y ∷ xs) v

-- `GfnDouble` of 16 bytes. On another length Go panics, which no caller meets.
unfoldable pub gfn_double : Bytes → Bytes
unfolding shift_bytes_left xor_last
gfn_double input = xor_last (shift_bytes_left input) (u8 (get_or input 0 0 / 2 ^ 7 * 0x87))

-- The loop of `ShiftNBytesLeft` on the bytes that are left.
unfoldable pub shift_bits_left : ℕ → Bytes → Bytes
shift_bits_left bits [] = []
shift_bits_left bits (x ∷ []) = u8 (x * 2 ^ bits) ∷ []
shift_bits_left bits (x ∷ y ∷ xs) =
    bit_or (u8 (x * 2 ^ bits)) (y / 2 ^ (8 - bits)) ∷ shift_bits_left bits (y ∷ xs)

-- `copy(dst, src)`: what `dst` holds after it.
abbrev pub copy : Bytes → Bytes → Bytes
copy dst src = take (length dst) src ++ drop (length src) dst

-- `ShiftNBytesLeft`. Its last line appends zeros to a local slice, which the caller does not see.
unfoldable pub shift_n_bytes_left : Bytes → Bytes → ℕ → Bytes
unfolding shift_bits_left
shift_n_bytes_left dst x n = shift_bits_left (n % 8) (copy dst (drop (n / 8) x))

-- `XorBytesMut` and `XorBytes` on the `len(X)` bytes of `X`, where `Y` is not shorter: a shorter `Y` is an
-- index out of range in Go, and leaves the rest of `X` here.
unfoldable pub xor_bytes : Bytes → Bytes → Bytes
xor_bytes [] ys = []
xor_bytes (x ∷ xs) [] = x ∷ xs
xor_bytes (x ∷ xs) (y ∷ ys) = bit_xor x y ∷ xor_bytes xs ys

-- `RightXor`: `Y` onto the end of `X`, which is not shorter.
unfoldable pub right_xor : Bytes → Bytes → Bytes
unfolding xor_bytes
right_xor xs ys =
    let offset = length xs - length ys in take offset xs ++ xor_bytes (drop offset xs) ys
