-- ===== src/Crypto/KeyWrap.antt =====
-- openpgp/aes/keywrap/keywrap.go: AES key wrapping (RFC 3394).
pub mod Rounds
pub mod Laws
pub mod Refuses
use go_crypto.Base.{
  ℕ, zero, suc, ◌+◌, ◌-◌, ◌*◌, ◌/◌, ◌%◌, Bool, true, false, ◌&&◌, not, Option, none, some, List, [],
  ◌∷◌, ◌++◌, length, take, drop, concat, replicate, bit_xor, Bytes, Result, ok, err, panic, stuck,
  Error, failure, ◌>>=◌, ◌>>◌, fail_if, panic_if, ◌==◌, ltb, if◌then◌else◌,
}
use go_crypto.Base.Words.{u64, be_uint64, put_be_uint64}
use go_crypto.Crypto.Block.{Block}

abbrev pub err_wrap_plaintext : Error
err_wrap_plaintext = failure "keywrap: plainText must be a multiple of 64 bits"

abbrev pub err_unwrap_ciphertext : Error
err_unwrap_ciphertext = failure "keywrap: cipherText must by a multiple of 64 bits"

abbrev pub err_unwrap_failed : Error
err_unwrap_failed = failure "keywrap: failed to unwrap key"

abbrev pub err_invalid_key : Error
err_invalid_key = failure "keywrap: invalid AES key"

-- The key's registers R[1], …, R[n] of eight bytes.
unfoldable pub registers : ℕ → Bytes → List Bytes
registers zero bs = []
registers (suc n) bs = take 8 bs ∷ registers n (drop 8 bs)

-- `A ^ t`, as big-endian 64-bit numbers.
unfoldable pub xor_counter : Bytes → ℕ → Bytes
xor_counter a t = put_be_uint64 (bit_xor (be_uint64 a) (u64 t))

module _ (c : Block) where
  -- The inner loop of `Wrap`, from the register whose counter is `t` on: the new A, and the registers.
  unfoldable pub wrap_round : ℕ → Bytes → List Bytes → Bytes × List Bytes
  wrap_round t a [] = (a, [])
  wrap_round t a (r ∷ rs) =
      let block = c.encrypt (a ++ r) in
      let (a', rs') = wrap_round (t + 1) (xor_counter (take 8 block) t) rs in
      (a', drop 8 block ∷ rs')

  -- The outer loop of `Wrap`, with `left` of its six rounds to go.
  unfoldable pub wrap_rounds : ℕ → ℕ → Bytes × List Bytes → Bytes × List Bytes
  wrap_rounds zero ii (a, rs) = (a, rs)
  wrap_rounds (suc left) ii (a, rs) =
      wrap_rounds left (ii + 1) (wrap_round (ii * length rs + 1) a rs)

  -- The inner loop of `Unwrap`, which goes from the last register down to the one whose counter is `t`.
  unfoldable pub unwrap_round : ℕ → Bytes → List Bytes → Bytes × List Bytes
  unwrap_round t a [] = (a, [])
  unwrap_round t a (r ∷ rs) =
      let (a', rs') = unwrap_round (t + 1) a rs in
      let block = c.decrypt (xor_counter a' t ++ r) in (take 8 block, drop 8 block ∷ rs')

  -- The outer loop of `Unwrap`: the rounds `left - 1` down to 0.
  unfoldable pub unwrap_rounds : ℕ → Bytes × List Bytes → Bytes × List Bytes
  unwrap_rounds zero (a, rs) = (a, rs)
  unwrap_rounds (suc left) (a, rs) = unwrap_rounds left (unwrap_round (left * length rs + 1) a rs)

abbrev pub initial_value : Bytes
initial_value = replicate 8 0xA6

unfoldable pub is_initial_value : Bytes → Bool
is_initial_value [] = true
is_initial_value (b ∷ bs) = b == 0xA6 && is_initial_value bs

-- `aes.NewCipher`, which fails on a key of a wrong length.
module _ (new_cipher : Bytes → Option Block) where
  unfoldable pub cipher_of : Bytes → Result Block
  cipher_of key = elim (new_cipher key) [ none ↦ err err_invalid_key | some c ↦ ok c ]

  -- `Wrap`
  unfoldable pub wrap : Bytes → Bytes → Result Bytes
  unfolding cipher_of
  wrap key plain_text = do
    fail_if (not (length plain_text % 8 == 0)) err_wrap_plaintext
    c ← cipher_of key
    let n = length plain_text / 8
    let (a, rs) = wrap_rounds c 6 0 (initial_value, registers n plain_text)
    ok (a ++ concat rs)

  -- `Unwrap`. On an empty text the slice `cipherText[:8]`, or `make` of a negative length, panics.
  unfoldable pub unwrap : Bytes → Bytes → Result Bytes
  unfolding cipher_of
  unwrap key cipher_text = do
    fail_if (not (length cipher_text % 8 == 0)) err_unwrap_ciphertext
    c ← cipher_of key
    panic_if (ltb (length cipher_text) 8)
    let n = length cipher_text / 8 - 1
    let (a, rs) = unwrap_rounds c 6 (take 8 cipher_text, registers n (drop 8 cipher_text))
    if is_initial_value a then ok (concat rs) else err err_unwrap_failed
