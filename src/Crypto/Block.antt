-- ===== src/Crypto/Block.antt =====
-- `cipher.Block`: a parameter of all modes of operation.
use go_crypto.Base.{ℕ, length, Bytes, AreBytes, ◌≡◌}

pub record Block : Type 0 where
  pub block_size : ℕ
  pub encrypt : Bytes → Bytes
  pub decrypt : Bytes → Bytes

abbrev pub IsBlock : Block → Bytes → Type 0
IsBlock c b = (length b ≡ c.block_size) × AreBytes b

-- What a block cipher promises: a permutation of the blocks, with its inverse.
pub record IsCipher (c : Block) : Type 0 where
  pub encrypt-IsBlock : (b : Bytes) → IsBlock c b → IsBlock c (c.encrypt b)
  pub decrypt-IsBlock : (b : Bytes) → IsBlock c b → IsBlock c (c.decrypt b)
  pub decrypt-encrypt : (b : Bytes) → IsBlock c b → c.decrypt (c.encrypt b) ≡ b
  pub encrypt-decrypt : (b : Bytes) → IsBlock c b → c.encrypt (c.decrypt b) ≡ b
