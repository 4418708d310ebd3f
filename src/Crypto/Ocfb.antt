-- ===== src/Crypto/Ocfb.antt =====
-- openpgp/packet/ocfb.go: OpenPGP's cipher feedback mode.
pub mod Laws
use go_crypto.Base.{
  ℕ, zero, suc, ◌+◌, ◌-◌, Bool, true, false, Option, none, some, List, [], ◌∷◌, ◌++◌, length, take,
  drop, replicate, get_or, bit_xor, Bytes, ◌==◌, if◌then◌else◌,
}
use go_crypto.ByteUtil.{xor_bytes}
use go_crypto.Crypto.Block.{Block}

-- `ocfbEncrypter` and `ocfbDecrypter`, which have the same fields.
pub record OcfbStream : Type 0 where
  pub b : Block
  pub fre : Bytes
  pub out_used : ℕ

-- `xs[i] = v`
unfoldable pub set_at : Bytes → ℕ → ℕ → Bytes
set_at [] i v = []
set_at (x ∷ xs) zero v = v ∷ xs
set_at (x ∷ xs) (suc i) v = x ∷ set_at xs i v

-- `if x.outUsed == len(x.fre)`: a used-up block is enciphered.
unfoldable pub refill : OcfbStream → OcfbStream
refill x =
    if x.out_used == length x.fre
    then record { b = x.b; fre = x.b.encrypt x.fre; out_used = 0 }
    else x

-- The body of both loops behind the refill: `c`, the byte of the ciphertext, goes into the feedback.
unfoldable pub feed : OcfbStream → ℕ → OcfbStream
unfolding set_at
feed x c = record { b = x.b; fre = set_at x.fre x.out_used c; out_used = x.out_used + 1 }

-- `ocfbEncrypter.XORKeyStream`
unfoldable pub encrypt_stream : OcfbStream → Bytes → Bytes × OcfbStream
unfolding refill feed
encrypt_stream x [] = ([], x)
encrypt_stream x (p ∷ src) =
    let x' = refill x in
    let c = bit_xor (get_or x'.fre x'.out_used 0) p in
    let (dst, end) = encrypt_stream (feed x' c) src in (c ∷ dst, end)

-- `ocfbDecrypter.XORKeyStream`
unfoldable pub decrypt_stream : OcfbStream → Bytes → Bytes × OcfbStream
unfolding refill feed
decrypt_stream x [] = ([], x)
decrypt_stream x (c ∷ src) =
    let x' = refill x in
    let p = bit_xor (get_or x'.fre x'.out_used 0) c in
    let (dst, end) = decrypt_stream (feed x' c) src in (p ∷ dst, end)

-- The feedback behind the prefix, with the resynchronization step or without it.
unfoldable pub start_stream : Block → Bytes → Bytes → Bool → OcfbStream
unfolding set_at
start_stream block fre prefix resync =
    let tail = drop block.block_size prefix in
    if resync
    then record { b = block; fre = block.encrypt (drop 2 prefix); out_used = 0 }
    else record {
      b = block;
      fre = set_at (set_at fre 0 (get_or tail 0 0)) 1 (get_or tail 1 0);
      out_used = 2;
    }

-- `NewOCFBEncrypter`: the stream and the prefix.
unfoldable pub new_ocfb_encrypter : Block → Bytes → Bool → Option (OcfbStream × Bytes)
unfolding start_stream
new_ocfb_encrypter block rand_data resync =
    let size = block.block_size in
    let front = xor_bytes rand_data (block.encrypt (replicate size 0)) in
    let fre = block.encrypt front in
    let check =
      bit_xor (get_or fre 0 0) (get_or rand_data (size - 2) 0)
      ∷ bit_xor (get_or fre 1 0) (get_or rand_data (size - 1) 0)
      ∷ [] in
    let prefix = front ++ check in
    if length rand_data == size then some (start_stream block fre prefix resync, prefix) else none

-- `NewOCFBDecrypter`: the stream, and what it leaves in `prefix`.
unfoldable pub new_ocfb_decrypter : Block → Bytes → Bool → Option (OcfbStream × Bytes)
unfolding start_stream
new_ocfb_decrypter block prefix resync =
    let size = block.block_size in
    let front = take size prefix in
    let tail = drop size prefix in
    let fre = block.encrypt front in
    let plain =
      xor_bytes front (block.encrypt (replicate size 0))
      ++ bit_xor (get_or tail 0 0) (get_or fre 0 0)
        ∷ bit_xor (get_or tail 1 0) (get_or fre 1 0)
        ∷ [] in
    if length prefix == size + 2 then some (start_stream block fre prefix resync, plain) else none
