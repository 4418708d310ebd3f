-- ===== src/Crypto/Ciphers.antt =====
-- openpgp/internal/algorithm/cipher.go and `CipherFunction` of openpgp/packet/packet.go. The packages of the
-- ciphers are parameters.
use go_crypto.Base.{
  ℕ, Bool, true, inl, inr, ◌⊎◌, refl, sym, subst, ◌∙◌, arith, Option, none, some, Bytes, Result, ok,
  panic, ltb, ◌==◌, ◌||◌, if◌then◌else◌, length, ◌≡◌, ◌≤◌,
}
use go_crypto.Crypto.Block.{Block, IsCipher}

abbrev pub triple_des : ℕ
triple_des = 2

abbrev pub cast5 : ℕ
cast5 = 3

abbrev pub aes128 : ℕ
aes128 = 7

abbrev pub aes192 : ℕ
aes192 = 8

abbrev pub aes256 : ℕ
aes256 = 9

-- The packages crypto/des, cast5 and crypto/aes: two constants and the constructors, which may fail.
pub record CipherPackages : Type 0 where
  pub cast5_key_size : ℕ
  pub des_block_size : ℕ
  pub new_triple_des : Bytes → Option Block
  pub new_cast5 : Bytes → Option Block
  pub new_aes : Bytes → Option Block

module _ (packages : CipherPackages) where
  -- `CipherFunction.KeySize`
  unfoldable pub key_size : ℕ → ℕ
  key_size cipher =
      if cipher == triple_des
      then 24
      else if cipher == cast5
      then packages.cast5_key_size
      else if cipher == aes128
      then 16
      else if cipher == aes192
      then 24
      else if cipher == aes256
      then 32
      else 0

  -- `CipherFunction.BlockSize`
  unfoldable pub block_size : ℕ → ℕ
  block_size cipher =
      if cipher == triple_des
      then packages.des_block_size
      else if cipher == cast5
      then 8
      else if (cipher == aes128 || cipher == aes192) || cipher == aes256
      then 16
      else 0

  -- `CipherFunction.IsSupported`
  unfoldable pub is_supported : ℕ → Bool
  unfolding key_size
  is_supported cipher = ltb 0 (key_size cipher)

  -- `if err != nil { panic(err.Error()) }`
  unfoldable pub or_panic : Option Block → Result Block
  or_panic none = panic
  or_panic (some block) = ok block

  -- `CipherFunction.New`. An unknown cipher has a nil block, which panics when it is used.
  unfoldable pub new_block : ℕ → Bytes → Result Block
  unfolding or_panic
  new_block cipher key =
      if cipher == triple_des
      then or_panic (packages.new_triple_des key)
      else if cipher == cast5
      then or_panic (packages.new_cast5 key)
      else if (cipher == aes128 || cipher == aes192) || cipher == aes256
      then or_panic (packages.new_aes key)
      else panic

  -- What the packages document: a key of the right size makes a block cipher with blocks of the
  -- documented size.
  pub record ArePackages : Type 0 where
    pub makes_triple_des :
        (key : Bytes)
        → length key ≡ 24
        → (block : Block) × (packages.new_triple_des key ≡ some block)
          × IsCipher block
          × (block.block_size ≡ packages.des_block_size)
    pub makes_cast5 :
        (key : Bytes)
        → length key ≡ packages.cast5_key_size
        → (block : Block) × (packages.new_cast5 key ≡ some block)
          × IsCipher block
          × (block.block_size ≡ 8)
    pub makes_aes :
        (key : Bytes)
        → (length key ≡ 16) ⊎ (length key ≡ 24) ⊎ (length key ≡ 32)
        → (block : Block) × (packages.new_aes key ≡ some block)
          × IsCipher block
          × (block.block_size ≡ 16)
    pub large_blocks : 2 ≤ packages.des_block_size

  -- A supported cipher and a key of its size.
  pub record IsKeyFor (cipher : ℕ) (key : Bytes) : Type 0 where
    pub supported : is_supported cipher ≡ true
    pub fits : length key ≡ key_size cipher

  -- The key has its block cipher.
  abbrev pub HasBlock : ℕ → Bytes → Type 0
  HasBlock cipher key =
      (block : Block) × (new_block cipher key ≡ ok block)
      × IsCipher block
      × (block.block_size ≡ block_size cipher)
      × (2 ≤ block.block_size)

  supported_cases :
      (cipher : ℕ)
      → is_supported cipher ≡ true
      → (cipher ≡ 2) ⊎ (cipher ≡ 3) ⊎ (cipher ≡ 7) ⊎ (cipher ≡ 8) ⊎ (cipher ≡ 9)
  unfolding is_supported key_size
  supported_cases cipher h = ground (arith, h)

  triple_des-HasBlock : (key : Bytes) → ArePackages → length key ≡ key_size 2 → HasBlock 2 key
  unfolding new_block key_size block_size
  triple_des-HasBlock key are fits =
      let (block, e, law, size) = are.makes_triple_des key fits in
      (block, rw e refl, law, size, omega (arith, size, are.large_blocks))

  cast5-HasBlock : (key : Bytes) → ArePackages → length key ≡ key_size 3 → HasBlock 3 key
  unfolding new_block key_size block_size
  cast5-HasBlock key are fits =
      let (block, e, law, size) = are.makes_cast5 key fits in
      (block, rw e refl, law, size, omega (arith, size))

  aes-HasBlock :
      (cipher : ℕ) (key : Bytes)
      → ArePackages
      → (cipher ≡ 7) ⊎ (cipher ≡ 8) ⊎ (cipher ≡ 9)
      → length key ≡ key_size cipher
      → HasBlock cipher key
  unfolding new_block key_size block_size
  aes-HasBlock cipher key are which fits =
      let sizes : (length key ≡ 16) ⊎ (length key ≡ 24) ⊎ (length key ≡ 32) =
        ground (arith, which, fits) in
      let (block, e, law, size) = are.makes_aes key sizes in
      let size' : block_size cipher ≡ 16 = ground (arith, which) in
      (block, ground (arith, which, e), law, size ∙ sym size', omega (arith, size))

  pub new_block_lem :
      (cipher : ℕ) (key : Bytes) → ArePackages → IsKeyFor cipher key → HasBlock cipher key
  new_block_lem cipher key are is = elim (supported_cases cipher is.supported) [
    | inl e ↦
        subst (λ c. length key ≡ key_size c → HasBlock c key) (sym e) (triple_des-HasBlock key are)
          is.fits
    | inr (inl e) ↦
        subst (λ c. length key ≡ key_size c → HasBlock c key) (sym e) (cast5-HasBlock key are)
          is.fits
    | inr (inr aes) ↦ aes-HasBlock cipher key are aes is.fits
  ]
