-- ===== src/Crypto/Modes.antt =====
-- What the modes use of Go's crypto/cipher: `NewCTR` and `NewCBCEncrypter`.
use go_crypto.Base.{
  ℕ, zero, suc, ◌+◌, ◌*◌, ◌/◌, Bool, true, false, Bool-cases, inl, inr, [], ◌∷◌, ◌++◌, length, take,
  drop, Bytes, AreBytes, IsByte, ◌==◌, if◌then◌else◌, ◌≡◌, refl, ◌∙◌, arith, length-append,
  length-take, length-drop, All-append, All-take, All-drop,
}
use go_crypto.Base.Words.{u8}
use go_crypto.ByteUtil.{xor_bytes}
use go_crypto.ByteUtil.Laws.{xor_bytes_cancel, length-xor_bytes, xor_bytes-AreBytes}
use go_crypto.Crypto.Block.{Block, IsBlock, IsCipher}

-- The big-endian counter plus one, and whether it wrapped around.
unfoldable pub next_counter : Bytes → Bytes × Bool
next_counter [] = ([], true)
next_counter (x ∷ xs) =
    let (ys, carry) = next_counter xs in
    if carry then (u8 (x + 1) ∷ ys, u8 (x + 1) == 0) else (x ∷ ys, false)

module _ (b : Block) where
  -- The key stream of CTR for `m` blocks.
  unfoldable pub ctr_stream : ℕ → Bytes → Bytes
  unfolding next_counter
  ctr_stream zero counter = []
  ctr_stream (suc m) counter = b.encrypt counter ++ ctr_stream m (next_counter counter).0

  -- `XORKeyStream` of a new CTR stream.
  unfoldable pub ctr_crypt : Bytes → Bytes → Bytes
  unfolding ctr_stream
  ctr_crypt iv xs = xor_bytes xs (ctr_stream (length xs / 16 + 1) iv)

  -- `CryptBlocks` of CBC on `m` blocks.
  unfoldable pub cbc_encrypt : ℕ → Bytes → Bytes → Bytes
  cbc_encrypt zero iv xs = []
  cbc_encrypt (suc m) iv xs =
      let c = b.encrypt (xor_bytes (take b.block_size xs) iv) in
      c ++ cbc_encrypt m c (drop b.block_size xs)

length-next_counter : (xs : Bytes) → length (next_counter xs).0 ≡ length xs
unfolding next_counter
length-next_counter [] = refl
length-next_counter (x ∷ xs) = ground (arith, length-next_counter xs)

next_counter-AreBytes : (xs : Bytes) → AreBytes xs → AreBytes (next_counter xs).0
unfolding next_counter
next_counter-AreBytes [] h = tt
next_counter-AreBytes (x ∷ xs) h = elim (Bool-cases (next_counter xs).1) [
  | inl carry ↦ rw carry (omega arith, next_counter-AreBytes xs h.1)
  | inr none ↦ rw none (h.0, next_counter-AreBytes xs h.1)
]

module _ (b : Block) (size : b.block_size ≡ 16) (cipher : IsCipher b) where
  length-ctr_stream :
      (m : ℕ) (counter : Bytes) → IsBlock b counter → length (ctr_stream b m counter) ≡ 16 * m
  unfolding ctr_stream
  length-ctr_stream zero counter h = refl
  length-ctr_stream (suc m) counter h =
      let next = (next_counter counter).0 in
      let ih =
        length-ctr_stream m next
          (length-next_counter counter ∙ h.0, next_counter-AreBytes counter h.1) in
      omega (
        arith,
        length-append (b.encrypt counter) (ctr_stream b m next),
        ih,
        (cipher.encrypt-IsBlock counter h).0,
        size,
      )

  ctr_stream-AreBytes :
      (m : ℕ) (counter : Bytes) → IsBlock b counter → AreBytes (ctr_stream b m counter)
  unfolding ctr_stream
  ctr_stream-AreBytes zero counter h = tt
  ctr_stream-AreBytes (suc m) counter h =
      let next = (next_counter counter).0 in
      All-append IsByte (b.encrypt counter) (ctr_stream b m next)
        (cipher.encrypt-IsBlock counter h).1
        (ctr_stream-AreBytes m next
          (length-next_counter counter ∙ h.0, next_counter-AreBytes counter h.1))

  -- CTR twice is nothing.
  pub ctr_crypt-ctr_crypt : (iv xs : Bytes) → IsBlock b iv → ctr_crypt b iv (ctr_crypt b iv xs) ≡ xs
  unfolding ctr_crypt
  ctr_crypt-ctr_crypt iv xs h =
      let stream = ctr_stream b (length xs / 16 + 1) iv in
      rw (length-xor_bytes xs stream)
        (xor_bytes_cancel xs stream (omega (arith, length-ctr_stream (length xs / 16 + 1) iv h)))

  pub ctr_crypt-AreBytes :
      (iv xs : Bytes) → IsBlock b iv → AreBytes xs → AreBytes (ctr_crypt b iv xs)
  unfolding ctr_crypt
  ctr_crypt-AreBytes iv xs h hx =
      xor_bytes-AreBytes xs _ hx (ctr_stream-AreBytes (length xs / 16 + 1) iv h)

  -- CBC from a block on: whole blocks of bytes.
  pub cbc_encrypt-AreBytes :
      (m : ℕ) (iv xs : Bytes)
      → IsBlock b iv
      → AreBytes xs
      → length xs ≡ 16 * m
      → (length (cbc_encrypt b m iv xs) ≡ 16 * m) × AreBytes (cbc_encrypt b m iv xs)
  unfolding cbc_encrypt
  cbc_encrypt-AreBytes zero iv xs h hx e = (refl, tt)
  cbc_encrypt-AreBytes (suc m) iv xs h hx e =
      let x = take b.block_size xs in
      let rest = drop b.block_size xs in
      let masked : IsBlock b (xor_bytes x iv) = (
        omega (arith, length-xor_bytes x iv, length-take b.block_size xs, size, e),
        xor_bytes-AreBytes x iv (All-take IsByte b.block_size xs hx) h.1,
      ) in
      let c = b.encrypt (xor_bytes x iv) in
      let hc = cipher.encrypt-IsBlock (xor_bytes x iv) masked in
      let (l, a) =
        cbc_encrypt-AreBytes m c rest hc (All-drop IsByte b.block_size xs hx)
          (omega (arith, length-drop b.block_size xs, size, e)) in
      (
        omega (arith, length-append c (cbc_encrypt b m c rest), l, hc.0, size),
        All-append IsByte c (cbc_encrypt b m c rest) hc.1 a,
      )

pub length-ctr_crypt : (b : Block) (iv xs : Bytes) → length (ctr_crypt b iv xs) ≡ length xs
unfolding ctr_crypt
length-ctr_crypt b iv xs = length-xor_bytes xs _
