-- ===== src/Crypto/Ocfb/Laws.antt =====
-- What was encrypted in OCFB mode is decrypted by the stream that the prefix starts.
use go_crypto.Base.{
  ℕ, ◌+◌, ◌-◌, ◌≤◌, Bool, true, some, [], ◌∷◌, ◌++◌, length, replicate, get_or, bit_xor, Bytes,
  IsByte, ◌==◌, ◌≡◌, refl, ap, ◌∙◌, arith, length-append, take-append, drop-append,
  length-replicate, All-replicate,
}
use go_crypto.Base.Bits.{bit_xor_comm, bit_xor_cancel}
use go_crypto.ByteUtil.{xor_bytes}
use go_crypto.ByteUtil.Laws.{xor_bytes_cancel, length-xor_bytes}
use go_crypto.Crypto.Block.{Block, IsBlock, IsCipher}
use go_crypto.Crypto.Ocfb.{
  OcfbStream, refill, feed, encrypt_stream, decrypt_stream, start_stream, new_ocfb_encrypter,
  new_ocfb_decrypter,
}

bit_xor_back : (k p : ℕ) → bit_xor k (bit_xor k p) ≡ p
bit_xor_back k p =
    bit_xor_comm k (bit_xor k p)
    ∙ ap (λ (t : ℕ). bit_xor t k) (bit_xor_comm k p)
    ∙ bit_xor_cancel p k

bit_xor_out : (k p : ℕ) → bit_xor (bit_xor k p) k ≡ p
bit_xor_out k p = ap (λ (t : ℕ). bit_xor t k) (bit_xor_comm k p) ∙ bit_xor_cancel p k

-- From one state, the OCFB decrypter gives back what the encrypter was given, and both end in one
-- state.
pub decrypt_stream-encrypt_stream :
    (x : OcfbStream) (src : Bytes)
    → decrypt_stream x (encrypt_stream x src).0 ≡ (src, (encrypt_stream x src).1)
unfolding encrypt_stream decrypt_stream
decrypt_stream-encrypt_stream x [] = refl
decrypt_stream-encrypt_stream x (p ∷ src) =
    let x' = refill x in
    let k = get_or x'.fre x'.out_used 0 in
    rw (bit_xor_back k p, decrypt_stream-encrypt_stream (feed x' (bit_xor k p)) src) refl

-- Over a block cipher with blocks of two bytes or more: for random data of one block the OCFB
-- encrypter has a prefix of two bytes more, from which the decrypter starts in the encrypter's
-- state, with the resync step or without, and finds the random data with its last two bytes
-- repeated; what the encrypter makes of a text from there on, the decrypter undoes.
pub new_ocfb_round_trip :
    (block : Block) (rand_data : Bytes) (resync : Bool)
    → IsCipher block
    → 2 ≤ block.block_size
    → length rand_data ≡ block.block_size
    → (x : OcfbStream) × (prefix : Bytes) × (new_ocfb_encrypter block rand_data resync
        ≡ some (x, prefix))
      × (length prefix ≡ block.block_size + 2)
      × (new_ocfb_decrypter block prefix resync
          ≡ some (
            x,
            rand_data
                ++ get_or rand_data (block.block_size - 2) 0
                  ∷ get_or rand_data (block.block_size - 1) 0
                  ∷ [],
          ))
      × ((src : Bytes) → (decrypt_stream x (encrypt_stream x src).0).0 ≡ src)
unfolding new_ocfb_encrypter new_ocfb_decrypter
new_ocfb_round_trip block rand_data resync cipher large size =
    let n = block.block_size in
    let zeros : Bytes = replicate n 0 in
    let zeros-IsBlock : IsBlock block zeros =
      (length-replicate {A = ℕ} n 0, All-replicate IsByte n 0 (omega arith)) in
    let key = block.encrypt zeros in
    let key_size : length key ≡ n = (cipher.encrypt-IsBlock zeros zeros-IsBlock).0 in
    let front = xor_bytes rand_data key in
    let front_size : length front ≡ n = length-xor_bytes rand_data key ∙ size in
    let fre = block.encrypt front in
    let r0 = get_or rand_data (n - 2) 0 in
    let r1 = get_or rand_data (n - 1) 0 in
    let check : Bytes = bit_xor (get_or fre 0 0) r0 ∷ bit_xor (get_or fre 1 0) r1 ∷ [] in
    let prefix_size : length (front ++ check) ≡ n + 2 =
      omega (arith, length-append front check, front_size) in
    let right : (length rand_data == n) ≡ true = ground (arith, size) in
    let fits : (length (front ++ check) == n + 2) ≡ true = ground (arith, prefix_size) in
    (
      start_stream block fre (front ++ check) resync,
      front ++ check,
      rw right refl,
      prefix_size,
      rw
          (
            fits,
            take-append n front check front_size,
            drop-append n front check front_size,
            xor_bytes_cancel rand_data key (omega (arith, key_size, size)),
            bit_xor_out (get_or fre 0 0) r0,
            bit_xor_out (get_or fre 1 0) r1,
          )
          refl,
      λ src. ap (λ (r : Bytes × OcfbStream). r.0) (decrypt_stream-encrypt_stream _ src),
    )
