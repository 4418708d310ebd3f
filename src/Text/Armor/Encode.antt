-- ===== src/Text/Armor/Encode.antt =====
-- openpgp/armor/encode.go: armor is written. Go's base64 encoder is an argument: its state, what it writes
-- to the line breaker, in calls of `Write`, and the encoding of a whole text.
use go_crypto.Base.{ℕ, ◌/◌, ◌^◌, List, [], ◌∷◌, ◌++◌, Bytes, Result, ok, ◌>>=◌}
use go_crypto.Base.Words.{u8}
use go_crypto.Text.Armor.{
  crc24, crc24_init, armor_start, armor_end, armor_header_sep, block_end, newline,
  armor_end_of_line, armor_end_of_line_out,
}
use go_crypto.Text.Armor.Breaker.{LineBreaker, new_line_breaker, breaker_writes, breaker_close}

-- `encoding`
pub record Encoding {ℓ} (E : Type ℓ) : Type ℓ where
  pub breaker : LineBreaker
  pub b64 : E
  pub crc : ℕ
  pub block_type : Bytes

unfoldable pub header_lines : List (Bytes × Bytes) → Bytes
header_lines [] = []
header_lines ((key, value) ∷ headers) =
    key ++ (armor_header_sep ++ (value ++ (newline ++ header_lines headers)))

-- What `Encode` writes: the headers are in the order in which they are met.
unfoldable pub block_start : Bytes → List (Bytes × Bytes) → Bytes
block_start block_type headers =
    armor_start ++ (block_type ++ (armor_end_of_line_out ++ (header_lines headers ++ newline)))

-- `checksumBytes`
abbrev pub checksum_bytes : ℕ → Bytes
checksum_bytes crc = u8 (crc / 2 ^ 16) ∷ u8 (crc / 2 ^ 8) ∷ u8 crc ∷ []

-- `Encode`, with a new encoder.
abbrev pub new_encoding {ℓ} : {E : Type ℓ} → E → Bytes → List (Bytes × Bytes) → Encoding E
new_encoding b64 block_type headers = record {
  breaker = new_line_breaker (block_start block_type headers) 64;
  b64 = b64;
  crc = crc24_init;
  block_type = block_type;
}

module _ {ℓ} {E : Type ℓ} (b64_write : E → Bytes → E × List Bytes) (b64_close : E → List Bytes)
    (b64_encode : Bytes → Bytes) where
  -- `encoding.Write`
  unfoldable pub encoding_write : Encoding E → Bytes → Result (Encoding E)
  encoding_write e text =
      let (b64, pieces) = b64_write e.b64 text in
      breaker_writes e.breaker pieces >>= λ l.
      ok (record e { breaker = l; b64 = b64; crc = crc24 e.crc text })

  -- Several calls of it.
  unfoldable pub encoding_writes : Encoding E → List Bytes → Result (Encoding E)
  encoding_writes e [] = ok e
  encoding_writes e (text ∷ texts) = encoding_write e text >>= λ e'. encoding_writes e' texts

  -- `encoding.Close`: all that was written.
  unfoldable pub encoding_close : Encoding E → Result Bytes
  encoding_close e = breaker_writes e.breaker (b64_close e.b64) >>= λ l. ok (
      breaker_close l
      ++ (block_end
          ++ (b64_encode (checksum_bytes e.crc)
              ++ (newline ++ (armor_end ++ (e.block_type ++ armor_end_of_line))))))
