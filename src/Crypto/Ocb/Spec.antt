-- ===== src/Crypto/Ocb/Spec.antt =====
-- OCB with no cache: each mask and each Ktop is computed from the key where it is used.
pub mod Refines
use go_crypto.Base.{
  ℕ, zero, suc, ◌+◌, ◌*◌, ◌/◌, ◌%◌, List, [], ◌∷◌, ◌++◌, length, take, drop, Bytes, ◌==◌,
  if◌then◌else◌,
}
use go_crypto.ByteUtil.{gfn_double, xor_bytes}
use go_crypto.Crypto.Block.{Block}
use go_crypto.Crypto.Ocb.{
  Instruction, enc, dec, zeros, trailing_zeros, mask_last, padded_nonce, initial_offset,
  crypt_block, pad_block, plain_of,
}
use go_crypto.Crypto.Ocb.Mask.{doubled}

-- What is written, the offset, and the checksum.
abbrev pub Pass : Type 0
Pass = Bytes × Bytes × Bytes

module _ (b : Block) where
  abbrev pub l_ast : Bytes
  l_ast = b.encrypt zeros

  abbrev pub l_dol : Bytes
  l_dol = gfn_double l_ast

  -- L_{ntz(i)}
  unfoldable pub mask : ℕ → Bytes
  mask i = doubled (trailing_zeros 64 i) (gfn_double l_dol)

  unfoldable pub pass_blocks : Instruction → ℕ → ℕ → Bytes → Bytes → Bytes → Pass
  pass_blocks how zero i xs offset sum = ([], offset, sum)
  pass_blocks how (suc m) i xs offset sum =
      let offset' = xor_bytes offset (mask (i + 1)) in
      let (y, sum') = crypt_block b how offset' sum (take 16 xs) in
      let (ys, end, total) = pass_blocks how m (i + 1) (drop 16 xs) offset' sum' in
      (y ++ ys, end, total)

  unfoldable pub hash_pass : ℕ → ℕ → Bytes → Bytes → Bytes → Bytes × Bytes
  hash_pass zero i xs offset sum = (offset, sum)
  hash_pass (suc m) i xs offset sum =
      let offset' = xor_bytes offset (mask (i + 1)) in
      hash_pass m (i + 1) (drop 16 xs) offset'
        (xor_bytes sum (b.encrypt (xor_bytes (take 16 xs) offset')))

  unfoldable pub hash_value : Bytes → Bytes
  hash_value adata =
      let m = length adata / 16 in
      let (offset, sum) = hash_pass m 0 adata zeros zeros in
      if length adata % 16 == 0
      then sum
      else xor_bytes sum
          (b.encrypt (xor_bytes (pad_block (drop (16 * m) adata)) (xor_bytes offset l_ast)))

  unfoldable pub pass_tail : Instruction → Bytes → Pass → Pass
  pass_tail how chunk (ys, offset, sum) =
      let offset' = xor_bytes offset l_ast in
      let y = xor_bytes chunk (take (length chunk) (b.encrypt offset')) in
      let padded = pad_block (plain_of how chunk y) in (ys ++ y, offset', xor_bytes sum padded)

  unfoldable pub offset_for : ℕ → Bytes → Bytes
  offset_for tag_size nonce =
      initial_offset (b.encrypt (padded_nonce tag_size (mask_last nonce))) nonce

  -- The text and the tag.
  unfoldable pub pass_text : Instruction → ℕ → Bytes → Bytes → Pass
  pass_text how tag_size nonce xs =
      let m = length xs / 16 in
      let whole = pass_blocks how m 0 xs (offset_for tag_size nonce) zeros in
      if length xs % 16 == 0 then whole else pass_tail how (drop (16 * m) xs) whole

  unfoldable pub tag_of : ℕ → Bytes → Bytes → Bytes → Bytes
  tag_of tag_size offset sum adata =
      take tag_size
        (xor_bytes (b.encrypt (xor_bytes (xor_bytes sum offset) l_dol)) (hash_value adata))

  unfoldable pub ocb_crypt : Instruction → ℕ → Bytes → Bytes → Bytes → Bytes
  ocb_crypt how tag_size nonce adata xs =
      let (ys, offset, sum) = pass_text how tag_size nonce xs in
      ys ++ tag_of tag_size offset sum adata
