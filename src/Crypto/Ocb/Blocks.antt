-- ===== src/Crypto/Ocb/Blocks.antt =====
-- Masks, offsets and sums of OCB are blocks of 16 bytes.
use go_crypto.Base.{
  ℕ, zero, suc, ◌-◌, ◌*◌, ◌%◌, ◌≤◌, ◌<◌, [], ◌∷◌, ◌++◌, length, take, drop, replicate, get_or,
  bit_and, Bytes, AreBytes, IsByte, ◌≡◌, refl, sym, ap, ◌∙◌, arith, length-append, length-take,
  length-replicate, All-append, All-take, All-drop, All-replicate,
}
use go_crypto.Base.Bits.{bit_and-lt, bit_or-lt}
use go_crypto.ByteUtil.{gfn_double, xor_bytes, shift_n_bytes_left}
use go_crypto.ByteUtil.Laws.{
  length-gfn_double, gfn_double-AreBytes, length-xor_bytes, xor_bytes-AreBytes,
  length-shift_n_bytes_left, shift_n_bytes_left-AreBytes,
}
use go_crypto.Crypto.Block.{Block, IsCipher}
use go_crypto.Crypto.Ocb.{zeros, mask_last, or_head, padded_nonce, initial_offset, trailing_zeros}
use go_crypto.Crypto.Ocb.Mask.{doubled}
use go_crypto.Crypto.Ocb.Spec.{l_ast, l_dol, mask, offset_for}

abbrev pub Is16 : Bytes → Type 0
Is16 b = (length b ≡ 16) × AreBytes b

pub xor_bytes-Is16 : (x y : Bytes) → Is16 x → AreBytes y → Is16 (xor_bytes x y)
xor_bytes-Is16 x y hx hy = (length-xor_bytes x y ∙ hx.0, xor_bytes-AreBytes x y hx.1 hy)

pub gfn_double-Is16 : (x : Bytes) → Is16 x → Is16 (gfn_double x)
gfn_double-Is16 x h = (length-gfn_double x ∙ h.0, gfn_double-AreBytes x h.1)

doubled-Is16 : (n : ℕ) (x : Bytes) → Is16 x → Is16 (doubled n x)
unfolding doubled
doubled-Is16 zero x h = h
doubled-Is16 (suc n) x h = doubled-Is16 n (gfn_double x) (gfn_double-Is16 x h)

pub zeros-Is16 : Is16 zeros
zeros-Is16 = omega arith

length-mask_last : (xs : Bytes) → length (mask_last xs) ≡ length xs
unfolding mask_last
length-mask_last [] = refl
length-mask_last (x ∷ []) = refl
length-mask_last (x ∷ y ∷ xs) = ap suc (length-mask_last (y ∷ xs))

mask_last-AreBytes : (xs : Bytes) → AreBytes xs → AreBytes (mask_last xs)
unfolding mask_last
mask_last-AreBytes [] h = tt
mask_last-AreBytes (x ∷ []) h = (bit_and-lt 8 x 192 h.0, tt)
mask_last-AreBytes (x ∷ y ∷ xs) h = (h.0, mask_last-AreBytes (y ∷ xs) h.1)

or_head-Is16 : (xs : Bytes) (v : ℕ) → v < 256 → Is16 xs → Is16 (or_head xs v)
unfolding or_head
or_head-Is16 [] v hv h = h
or_head-Is16 (x ∷ xs) v hv h = (h.0, (bit_or-lt 8 x v h.1.0 hv, h.1.1))

padded_nonce-Is16 :
    (tag_size : ℕ) (n : Bytes) → length n ≤ 15 → AreBytes n → Is16 (padded_nonce tag_size n)
unfolding padded_nonce
padded_nonce-Is16 tag_size n h b =
    let front : Bytes = replicate (15 - length n) 0 in
    let whole : Is16 (front ++ 1 ∷ n) = (
      omega (arith, length-append front (1 ∷ n), length-replicate {A = ℕ} (15 - length n) 0),
      All-append IsByte front (1 ∷ n) (All-replicate IsByte (15 - length n) 0 (omega arith))
          (omega arith, b),
    ) in
    let (l, a) = or_head-Is16 _ (8 * tag_size % 128 * 2 % 256) (omega arith) whole in
    (length-mask_last _ ∙ l, mask_last-AreBytes _ a)

module _ (b : Block) (size : b.block_size ≡ 16) (cipher : IsCipher b) where
  pub encrypt-Is16 : (x : Bytes) → Is16 x → Is16 (b.encrypt x)
  encrypt-Is16 x h = let (l, a) = cipher.encrypt-IsBlock x (h.0 ∙ sym size, h.1) in (l ∙ size, a)

  pub l_ast-Is16 : Is16 (l_ast b)
  l_ast-Is16 = encrypt-Is16 zeros zeros-Is16

  pub l_dol-Is16 : Is16 (l_dol b)
  l_dol-Is16 = gfn_double-Is16 _ l_ast-Is16

  pub mask-Is16 : (i : ℕ) → Is16 (mask b i)
  unfolding mask
  mask-Is16 i = doubled-Is16 (trailing_zeros 64 i) _ (gfn_double-Is16 _ l_dol-Is16)

  pub offset_for-Is16 :
      (tag_size : ℕ) (nonce : Bytes)
      → length nonce ≤ 15
      → AreBytes nonce
      → Is16 (offset_for b tag_size nonce)
  unfolding offset_for initial_offset
  offset_for-Is16 tag_size nonce h a =
      let top = b.encrypt (padded_nonce tag_size (mask_last nonce)) in
      let ht : Is16 top = encrypt-Is16 _ (
        padded_nonce-Is16 tag_size (mask_last nonce) (omega (arith, length-mask_last nonce))
          (mask_last-AreBytes nonce a)) in
      let halves = xor_bytes (take 8 top) (take 8 (drop 1 top)) in
      let stretch = top ++ halves in
      let bottom = bit_and (get_or nonce (length nonce - 1) 0) 63 in
      let bytes : AreBytes stretch = All-append IsByte top halves ht.1 (
        xor_bytes-AreBytes _ _ (All-take IsByte 8 top ht.1)
          (All-take IsByte 8 (drop 1 top) (All-drop IsByte 1 top ht.1))) in
      let room : Bytes = replicate (length stretch) 0 in
      (
        omega (
          arith,
          length-take 16 (shift_n_bytes_left room stretch bottom),
          length-shift_n_bytes_left room stretch bottom,
          length-replicate {A = ℕ} (length stretch) 0,
          length-append top halves,
          ht.0,
        ),
        All-take IsByte 16 _ (
            shift_n_bytes_left-AreBytes room stretch bottom
              (All-replicate IsByte (length stretch) 0 (omega arith)) bytes),
      )
