-- ===== src/Encoding/Oid.antt =====
-- openpgp/internal/encoding/oid.go: object identifiers, and other fields with a one-octet length.
pub mod Laws
use go_crypto.Base.{
  ℕ, ◌+◌, ◌*◌, Bool, ◌||◌, List, [], ◌∷◌, length, get_or, Bytes, Result, ok, err, panic, stuck,
  unsupported, ◌>>=◌, ◌>>◌, fail_if, panic_if, ◌==◌, ltb,
}
use go_crypto.Base.Words.{u8, u16}
use go_crypto.Io.{read_full, within_packet}

abbrev pub max_oid : ℕ
max_oid = 254

abbrev pub reserved_oid_length1 : ℕ
reserved_oid_length1 = 0

abbrev pub reserved_oid_length2 : ℕ
reserved_oid_length2 = 0xff

abbrev pub is_reserved : ℕ → Bool
is_reserved n = n == reserved_oid_length1 || n == reserved_oid_length2

pub record Oid : Type 0 where
  pub bytes : Bytes

-- `NewOID`
unfoldable pub new_oid : Bytes → Result Oid
new_oid bs = do
  panic_if (is_reserved (length bs))
  panic_if (ltb max_oid (length bs))
  ok (record { bytes = bs })

-- `BitLength`
unfoldable pub bit_length : Oid → ℕ
bit_length o = u16 (length o.bytes * 8)

-- `EncodedBytes`
unfoldable pub encoded_bytes : Oid → Bytes
encoded_bytes o = u8 (length o.bytes) ∷ o.bytes

-- `EncodedLength`
unfoldable pub encoded_length : Oid → ℕ
encoded_length o = u16 (1 + length o.bytes)

-- `ReadFrom`: the identifier, how many bytes it took, and the bytes that follow.
unfoldable pub read_from : Bytes → Result (Oid × ℕ × Bytes)
unfolding read_full within_packet
read_from src = do
  (buf, rest) ← within_packet (read_full 1 src)
  let n = get_or buf 0 0
  fail_if (is_reserved n) (unsupported "reserved for future extensions")
  (bytes, rest') ← within_packet (read_full n rest)
  ok (record { bytes = bytes }, 1 + length bytes, rest')
