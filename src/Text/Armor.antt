-- ===== src/Text/Armor.antt =====
-- openpgp/armor: ASCII armor. Base64 is Go's: what the code calls of it is an argument.
pub mod Breaker
pub mod Breaks
pub mod Broken
pub mod Encode
pub mod Encoded
pub mod Reader
pub mod Lines
pub mod Base64
pub mod RoundTrip
mod Tests
use go_crypto.Base.{
  ℕ, zero, suc, ◌+◌, ◌*◌, ◌^◌, bit_and, bit_xor, not, List, [], ◌∷◌, Bytes, ◌==◌, if◌then◌else◌,
}
use go_crypto.Base.Words.{u32}

abbrev pub crc24_init : ℕ
crc24_init = 0xb704ce

abbrev pub crc24_poly : ℕ
crc24_poly = 0x1864cfb

abbrev pub crc24_mask : ℕ
crc24_mask = 0xffffff

-- The rounds for the bits of a byte.
unfoldable pub crc24_rounds : ℕ → ℕ → ℕ
crc24_rounds zero crc = crc
crc24_rounds (suc n) crc =
    let shifted = u32 (crc * 2) in
    crc24_rounds n
      (if not (bit_and shifted 0x1000000 == 0) then bit_xor shifted crc24_poly else shifted)

-- `crc24`
unfoldable pub crc24 : ℕ → Bytes → ℕ
unfolding crc24_rounds
crc24 crc [] = crc
crc24 crc (b ∷ d) = crc24 (crc24_rounds 8 (bit_xor crc (u32 (b * 2 ^ 16)))) d

-- "-----BEGIN "
abbrev pub armor_start : Bytes
armor_start = 45 ∷ 45 ∷ 45 ∷ 45 ∷ 45 ∷ 66 ∷ 69 ∷ 71 ∷ 73 ∷ 78 ∷ 32 ∷ []

-- "-----END "
abbrev pub armor_end : Bytes
armor_end = 45 ∷ 45 ∷ 45 ∷ 45 ∷ 45 ∷ 69 ∷ 78 ∷ 68 ∷ 32 ∷ []

-- ": "
abbrev pub armor_header_sep : Bytes
armor_header_sep = 58 ∷ 32 ∷ []

-- "\n="
abbrev pub block_end : Bytes
block_end = 10 ∷ 61 ∷ []

abbrev pub newline : Bytes
newline = 10 ∷ []

-- "-----"
abbrev pub armor_end_of_line : Bytes
armor_end_of_line = 45 ∷ 45 ∷ 45 ∷ 45 ∷ 45 ∷ []

-- "-----\n"
abbrev pub armor_end_of_line_out : Bytes
armor_end_of_line_out = 45 ∷ 45 ∷ 45 ∷ 45 ∷ 45 ∷ 10 ∷ []
