-- ===== src/Crypto/Ocb/Flip.antt =====
-- Encrypting and decrypting undo each other, and meet the same offsets and checksum on the way.
pub mod Whole
use go_crypto.Base.{
  ℕ, zero, suc, ◌+◌, ◌-◌, ◌*◌, ◌/◌, ◌%◌, ◌≤◌, ◌<◌, false, Bool-cases, inl, inr, [], ◌++◌, length,
  take, drop, Bytes, AreBytes, IsByte, ◌==◌, ◌≡◌, refl, sym, ap, ◌∙◌, arith, length-append,
  length-take, length-drop, take-append, drop-append, append_assoc, take-append-drop, take_sum,
  take_all, append-nil, ◌⊎◌, All-append, All-take, All-drop, All-replicate,
}
use go_crypto.ByteUtil.{xor_bytes}
use go_crypto.ByteUtil.Laws.{xor_bytes_cancel, length-xor_bytes, xor_bytes-AreBytes}
use go_crypto.Crypto.Block.{Block, IsCipher}
use go_crypto.Crypto.Ocb.{Instruction, enc, dec, zeros, crypt_block, plain_of, pad_block}
use go_crypto.Crypto.Ocb.Spec.{l_ast, mask, Pass, pass_blocks, pass_tail, pass_text, offset_for}
use go_crypto.Crypto.Ocb.Blocks.{
  Is16, xor_bytes-Is16, zeros-Is16, encrypt-Is16, l_ast-Is16, mask-Is16, offset_for-Is16,
}

unfoldable pub flip : Instruction → Instruction
flip enc = dec
flip dec = enc

pub xor_back : (x y : Bytes) → Is16 x → Is16 y → xor_bytes (xor_bytes x y) y ≡ x
xor_back x y hx hy = xor_bytes_cancel x y (omega (arith, hx.0, hy.0))

plain_of-flip : (how : Instruction) (x y : Bytes) → plain_of (flip how) y x ≡ plain_of how x y
unfolding plain_of flip
plain_of-flip enc x y = refl
plain_of-flip dec x y = refl

plain_of-AreBytes :
    (how : Instruction) (x y : Bytes) → AreBytes x → AreBytes y → AreBytes (plain_of how x y)
unfolding plain_of
plain_of-AreBytes enc x y hx hy = hx
plain_of-AreBytes dec x y hx hy = hy

pad_block-AreBytes : (x : Bytes) → AreBytes x → AreBytes (pad_block x)
pad_block-AreBytes x h =
    All-append IsByte x _ h (omega arith, All-replicate IsByte (16 - length x - 1) 0 (omega arith))

module _ (b : Block) (size : b.block_size ≡ 16) (cipher : IsCipher b) where
  decrypt-Is16 : (x : Bytes) → Is16 x → Is16 (b.decrypt x)
  decrypt-Is16 x h = let (l, a) = cipher.decrypt-IsBlock x (h.0 ∙ sym size, h.1) in (l ∙ size, a)

  -- One block, both ways.
  crypt_block-flip :
      (how : Instruction) (offset sum x : Bytes)
      → Is16 offset
      → Is16 sum
      → Is16 x
      → let r = crypt_block b how offset sum x in
        Is16 r.0 × Is16 r.1 × (crypt_block b (flip how) offset sum r.0 ≡ (x, r.1))
  unfolding crypt_block flip
  crypt_block-flip enc offset sum x ho hs hx =
      let masked = xor_bytes-Is16 x offset hx ho.1 in
      let sealed = encrypt-Is16 b size cipher _ masked in
      (
        xor_bytes-Is16 _ offset sealed ho.1,
        xor_bytes-Is16 sum x hs hx.1,
        rw
            (
              xor_back (b.encrypt (xor_bytes x offset)) offset sealed ho,
              cipher.decrypt-encrypt _ (masked.0 ∙ sym size, masked.1),
              xor_back x offset hx ho,
            )
            refl,
      )
  crypt_block-flip dec offset sum x ho hs hx =
      let masked = xor_bytes-Is16 x offset hx ho.1 in
      let opened = decrypt-Is16 _ masked in
      let plain = xor_bytes-Is16 _ offset opened ho.1 in
      (
        plain,
        xor_bytes-Is16 sum _ hs plain.1,
        rw
            (
              xor_back (b.decrypt (xor_bytes x offset)) offset opened ho,
              cipher.encrypt-decrypt _ (masked.0 ∙ sym size, masked.1),
              xor_back x offset hx ho,
            )
            refl,
      )

  -- What a pass over some text and the pass back have in common.
  pub record Flips (n : ℕ) (back : Bytes → Pass) (xs : Bytes) (p : Pass) : Type 0 where
    pub count : length p.0 ≡ n
    pub bytes : AreBytes p.0
    pub end : Is16 p.1
    pub total : Is16 p.2
    pub undone : (rest : Bytes) → back (p.0 ++ rest) ≡ (xs, p.1, p.2)

  pass_blocks-flip :
      (how : Instruction) (m i : ℕ) (xs offset sum : Bytes)
      → 16 * m ≤ length xs
      → AreBytes xs
      → Is16 offset
      → Is16 sum
      → Flips
          (16 * m)
          (λ ys. pass_blocks b (flip how) m i ys offset sum)
          (take (16 * m) xs)
          (pass_blocks b how m i xs offset sum)
  unfolding pass_blocks
  pass_blocks-flip how zero i xs offset sum h hb ho hs = record {
    count = refl;
    bytes = tt;
    end = ho;
    total = hs;
    undone = λ rest. refl;
  }
  pass_blocks-flip how (suc m) i xs offset sum h hb ho hs =
      let offset' = xor_bytes offset (mask b (i + 1)) in
      let ho' = xor_bytes-Is16 offset _ ho (mask-Is16 b size cipher (i + 1)).1 in
      let x : Bytes = take 16 xs in
      let hx : Is16 x = (omega (arith, length-take 16 xs), All-take IsByte 16 xs hb) in
      let (hy, hsum, back) = crypt_block-flip how offset' sum x ho' hs hx in
      let (y, sum') = crypt_block b how offset' sum x in
      let ih =
        pass_blocks-flip how m (i + 1) (drop 16 xs) offset' sum' (omega (arith, length-drop 16 xs))
          (All-drop IsByte 16 xs hb) ho' hsum in
      let ys = (pass_blocks b how m (i + 1) (drop 16 xs) offset' sum').0 in
      record {
        count = omega (arith, length-append y ys, hy.0, ih.count);
        bytes = All-append IsByte y ys hy.1 ih.bytes;
        end = ih.end;
        total = ih.total;
        undone = λ rest.
            rw
              (
                append_assoc y ys rest,
                take-append 16 y (ys ++ rest) hy.0,
                drop-append 16 y (ys ++ rest) hy.0,
                back,
                ih.undone rest,
              )
              (ap
                (λ (t : Bytes). (
                  t,
                  (pass_blocks b how m (i + 1) (drop 16 xs) offset' sum').1,
                  (pass_blocks b how m (i + 1) (drop 16 xs) offset' sum').2,
                ))
                (take_sum 16 (16 * m) (16 * suc m) xs (omega arith)));
      }

  -- The last block, of fewer than 16 bytes.
  pass_tail-flip :
      (how : Instruction) (chunk ys offset sum : Bytes)
      → length chunk < 16
      → AreBytes chunk
      → Is16 offset
      → Is16 sum
      → let p = pass_tail b how chunk (ys, offset, sum) in
        (y : Bytes) × (p.0 ≡ ys ++ y)
        × (length y ≡ length chunk)
        × AreBytes y
        × Is16 p.1
        × Is16 p.2
        × ((zs : Bytes) → pass_tail b (flip how) y (zs, offset, sum) ≡ (zs ++ chunk, p.1, p.2))
  unfolding pass_tail
  pass_tail-flip how chunk ys offset sum h hb ho hs =
      let offset' = xor_bytes offset (l_ast b) in
      let ho' = xor_bytes-Is16 offset _ ho (l_ast-Is16 b size cipher).1 in
      let stream = b.encrypt offset' in
      let hp = encrypt-Is16 b size cipher offset' ho' in
      let pad : Bytes = take (length chunk) stream in
      let y : Bytes = xor_bytes chunk pad in
      let ly : length y ≡ length chunk = length-xor_bytes chunk pad in
      let hy : AreBytes y =
        xor_bytes-AreBytes chunk pad hb (All-take IsByte (length chunk) stream hp.1) in
      let back : xor_bytes y pad ≡ chunk =
        xor_bytes_cancel chunk pad (omega (arith, length-take (length chunk) stream, hp.0)) in
      (
        y,
        refl,
        ly,
        hy,
        ho',
        xor_bytes-Is16 sum _ hs (pad_block-AreBytes _ (plain_of-AreBytes how chunk y hb hy)),
        λ zs. rw (ly, back, plain_of-flip how chunk y) refl,
      )
