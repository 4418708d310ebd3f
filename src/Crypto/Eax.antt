-- ===== src/Crypto/Eax.antt =====
-- eax/eax.go: the EAX mode over a block cipher with 16-byte blocks.
pub mod RoundTrip
pub mod Tests
use go_crypto.Base.{
  ℕ, ◌+◌, ◌-◌, ◌*◌, ◌/◌, ◌%◌, Bool, true, false, not, ◌&&◌, [], ◌∷◌, ◌++◌, length, take, drop,
  replicate, Bytes, Result, ok, err, panic, stuck, Error, failure, ◌>>=◌, ◌>>◌, fail_if, panic_if,
  ◌==◌, ltb, if◌then◌else◌, bytes_equal,
}
use go_crypto.ByteUtil.{gfn_double, xor_bytes, right_xor}
use go_crypto.Crypto.Block.{Block}
use go_crypto.Crypto.Modes.{ctr_crypt, cbc_encrypt}

pub record Eax : Type 0 where
  pub block : Block
  pub tag_size : ℕ
  pub nonce_size : ℕ

abbrev pub eax_error : Error
eax_error = failure "crypto/eax"

-- `NewEAXWithNonceAndTagSize`
unfoldable pub new_eax : Block → ℕ → ℕ → Result Eax
new_eax block nonce_size tag_size = do
  fail_if (ltb nonce_size 1) eax_error
  fail_if (ltb block.block_size tag_size) eax_error
  ok (record { block = block; tag_size = tag_size; nonce_size = nonce_size })

-- `pad`; `b2` and `b4` are its B and P.
unfoldable pub pad : ℕ → Bytes → Bytes → Bytes → Bytes
pad size plaintext b2 b4 =
    let ending = 128 ∷ replicate (size - length plaintext % size - 1) 0 in
    if not (length plaintext == 0) && length plaintext % size == 0
    then right_xor plaintext b2
    else right_xor (plaintext ++ ending) b4

-- `omac`
unfoldable pub omac : Block → Bytes → Bytes
unfolding pad
omac b plaintext =
    let l = b.encrypt (replicate b.block_size 0) in
    let b2 = gfn_double l in
    let padded = pad b.block_size plaintext b2 (gfn_double b2) in
    let out = cbc_encrypt b (length padded / b.block_size) (replicate b.block_size 0) padded in
    drop (length out - b.block_size) out

-- `omacT`
unfoldable pub omac_t : Block → ℕ → Bytes → Bytes
unfolding omac
omac_t b t plaintext = omac b (replicate (b.block_size - 1) 0 ++ t ∷ plaintext)

-- The tag of a ciphertext.
unfoldable pub eax_tag : Eax → Bytes → Bytes → Bytes → Bytes
unfolding omac_t
eax_tag e nonce ciphertext adata = take e.tag_size (
    xor_bytes (xor_bytes (omac_t e.block 2 ciphertext) (omac_t e.block 0 nonce))
      (omac_t e.block 1 adata))

-- `Seal`
unfoldable pub eax_seal : Eax → Bytes → Bytes → Bytes → Bytes → Result Bytes
unfolding eax_tag
eax_seal e dst nonce plaintext adata = do
  panic_if (ltb e.nonce_size (length nonce))
  let ciphertext = ctr_crypt e.block (omac_t e.block 0 nonce) plaintext
  ok (dst ++ (ciphertext ++ eax_tag e nonce ciphertext adata))

-- `Open`. What stands behind the plaintext in `ret` is cut off.
unfoldable pub eax_open : Eax → Bytes → Bytes → Bytes → Bytes → Result Bytes
unfolding eax_tag
eax_open e dst nonce ciphertext adata = do
  panic_if (ltb e.nonce_size (length nonce))
  fail_if (ltb (length ciphertext) e.tag_size) eax_error
  let sep = length ciphertext - e.tag_size
  let text = take sep ciphertext
  fail_if (not (bytes_equal (drop sep ciphertext) (eax_tag e nonce text adata))) eax_error
  ok (take sep (dst ++ ctr_crypt e.block (omac_t e.block 0 nonce) text))
