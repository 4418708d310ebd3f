-- ===== src/Packet/Framing/Length.antt =====
-- openpgp/packet/packet.go: `readLength` and `serializeLength`. A length is below 2 ^ 32 wherever it
-- was read, so int64 does not wrap.
pub mod Laws
use go_crypto.Base.{
  ℕ, zero, suc, ◌+◌, ◌-◌, ◌*◌, ◌/◌, ◌%◌, ◌^◌, Bool, true, false, List, [], ◌∷◌, get_or, bit_and,
  bit_or, Bytes, Result, ok, err, panic, stuck, Error, eof, unexpected_eof, ◌>>=◌, ltb,
  if◌then◌else◌,
}
use go_crypto.Base.Words.{u8}
use go_crypto.Io.{read_full, within_packet}

-- `readFull` of the package.
unfoldable pub read_full_packet : ℕ → Bytes → Result (Bytes × Bytes)
unfolding read_full within_packet
read_full_packet n src = within_packet (read_full n src)

abbrev pub byte_at : Bytes → ℕ → ℕ
byte_at buf i = get_or buf i 0

-- `int64(buf[0])<<24 | int64(buf[1])<<16 | int64(buf[2])<<8 | int64(buf[3])`
unfoldable pub be_uint32 : Bytes → ℕ
be_uint32 buf =
    bit_or
      (bit_or (bit_or (byte_at buf 0 * 2 ^ 24) (byte_at buf 1 * 2 ^ 16)) (byte_at buf 2 * 2 ^ 8))
      (byte_at buf 3)

two_octets : ℕ → Bytes → Result (ℕ × Bool × Bytes)
two_octets b src = do
  (buf, rest) ← read_full_packet 1 src
  ok ((b - 192) * 2 ^ 8 + (byte_at buf 0 + 192), false, rest)

five_octets : Bytes → Result (ℕ × Bool × Bytes)
five_octets src = do (buf, rest) ← read_full_packet 4 src; ok (be_uint32 buf, false, rest)

-- The length, whether it is partial, and the bytes that follow.
unfoldable pub read_length : Bytes → Result (ℕ × Bool × Bytes)
unfolding read_full_packet two_octets five_octets
read_length src = do
  (buf, rest) ← read_full_packet 1 src
  let b = byte_at buf 0
  if ltb b 192
      then ok (b, false, rest)
      else if ltb b 224
      then two_octets b rest
      else if ltb b 255
      then ok (2 ^ bit_and b 0x1f, true, rest)
      else five_octets rest

-- `serializeLength` of an int that is not negative.
unfoldable pub serialize_length : ℕ → Bytes
serialize_length n =
    if ltb n 192
    then u8 n ∷ []
    else if ltb n 8384
    then u8 (192 + u8 ((n - 192) / 2 ^ 8)) ∷ u8 (n - 192) ∷ []
    else 255 ∷ u8 (n / 2 ^ 24) ∷ u8 (n / 2 ^ 16) ∷ u8 (n / 2 ^ 8) ∷ u8 n ∷ []
