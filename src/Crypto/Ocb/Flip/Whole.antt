-- ===== src/Crypto/Ocb/Flip/Whole.antt =====
-- The whole text of OCB and the pass back over it.
use go_crypto.Base.{
  ℕ, suc, ◌+◌, ◌-◌, ◌*◌, ◌/◌, ◌%◌, ◌≤◌, ◌<◌, false, Bool-cases, inl, inr, [], ◌++◌, length, drop,
  Bytes, AreBytes, IsByte, ◌==◌, ◌≡◌, refl, sym, ◌∙◌, arith, length-append, length-drop,
  drop-append, take-append-drop, take_all, append-nil, ◌⊎◌, All-append, All-drop,
}
use go_crypto.Crypto.Block.{Block, IsCipher}
use go_crypto.Crypto.Ocb.{Instruction, zeros}
use go_crypto.Crypto.Ocb.Spec.{pass_blocks, pass_tail, pass_text, offset_for}
use go_crypto.Crypto.Ocb.Blocks.{Is16, zeros-Is16, offset_for-Is16}
use go_crypto.Crypto.Ocb.Flip.{flip, pass_blocks-flip, pass_tail-flip}

split_at : (n : ℕ) → ((m : ℕ) × (n ≡ 16 * m)) ⊎ ((m : ℕ) × (r : ℕ) × (n ≡ 16 * m + suc r) × r < 15)
split_at n = elim (Bool-cases (n % 16 == 0)) [
  | inl full ↦ inl (n / 16, ground (arith, full))
  | inr part ↦ inr (n / 16, n % 16 - 1, ground (arith, part), omega arith)
]

module _ (b : Block) (size : b.block_size ≡ 16) (cipher : IsCipher b) where
  pass_text_full :
      (how : Instruction) (tag_size : ℕ) (nonce xs : Bytes) (m : ℕ)
      → length xs ≡ 16 * m
      → pass_text b how tag_size nonce xs
        ≡ pass_blocks b how m 0 xs (offset_for b tag_size nonce) zeros
  unfolding pass_text
  pass_text_full how tag_size nonce xs m e =
      let none : length xs % 16 ≡ 0 = omega (arith, e) in
      let count : length xs / 16 ≡ m = omega (arith, e) in rw (none, count) refl

  pass_text_part :
      (how : Instruction) (tag_size : ℕ) (nonce xs : Bytes) (m r : ℕ)
      → length xs ≡ 16 * m + suc r
      → r < 15
      → pass_text b how tag_size nonce xs
        ≡ pass_tail b how
            (drop (16 * m) xs)
            (pass_blocks b how m 0 xs (offset_for b tag_size nonce) zeros)
  unfolding pass_text
  pass_text_part how tag_size nonce xs m r e h =
      let some : length xs % 16 == 0 ≡ false = ground (arith, e) in
      let count : length xs / 16 ≡ m = omega (arith, e) in rw (some, count) refl

  abbrev FlipsText : Instruction → ℕ → Bytes → Bytes → Type 0
  FlipsText how tag_size nonce xs =
      let p = pass_text b how tag_size nonce xs in
      (length p.0 ≡ length xs)
      × AreBytes p.0
      × Is16 p.1
      × Is16 p.2
      × (pass_text b (flip how) tag_size nonce p.0 ≡ (xs, p.1, p.2))

  flips_full :
      (how : Instruction) (tag_size : ℕ) (nonce xs : Bytes) (m : ℕ)
      → length nonce ≤ 15
      → AreBytes nonce
      → AreBytes xs
      → length xs ≡ 16 * m
      → FlipsText how tag_size nonce xs
  flips_full how tag_size nonce xs m hn bn hb e =
      let start = offset_for b tag_size nonce in
      let f =
        pass_blocks-flip b size cipher how m 0 xs start zeros (omega (arith, e)) hb
          (offset_for-Is16 b size cipher tag_size nonce hn bn) zeros-Is16 in
      let ys = (pass_blocks b how m 0 xs start zeros).0 in
      let back = f.undone [] in
      rw (pass_text_full how tag_size nonce xs m e) (
        f.count ∙ sym e,
        f.bytes,
        f.end,
        f.total,
        rw (pass_text_full (flip how) tag_size nonce ys m f.count)
            (rw (append-nil, take_all (16 * m) xs (omega (arith, e))) at back),
      )

  flips_part :
      (how : Instruction) (tag_size : ℕ) (nonce xs : Bytes) (m r : ℕ)
      → length nonce ≤ 15
      → AreBytes nonce
      → AreBytes xs
      → length xs ≡ 16 * m + suc r
      → r < 15
      → FlipsText how tag_size nonce xs
  flips_part how tag_size nonce xs m r hn bn hb e hr =
      let start = offset_for b tag_size nonce in
      let f =
        pass_blocks-flip b size cipher how m 0 xs start zeros (omega (arith, e)) hb
          (offset_for-Is16 b size cipher tag_size nonce hn bn) zeros-Is16 in
      let (ys, offset, sum) = pass_blocks b how m 0 xs start zeros in
      let chunk : Bytes = drop (16 * m) xs in
      let lc : length chunk ≡ suc r = omega (arith, length-drop (16 * m) xs, e) in
      let (y, out, ly, hy, ho, hs, back) =
        pass_tail-flip b size cipher how chunk ys offset sum (omega (arith, lc))
          (All-drop IsByte (16 * m) xs hb) f.end f.total in
      let count : length (ys ++ y) ≡ 16 * m + suc r =
        omega (arith, length-append ys y, f.count, ly, lc) in
      rw (pass_text_part how tag_size nonce xs m r e hr, out)
        (
          count ∙ sym e,
          All-append IsByte ys y f.bytes hy,
          ho,
          hs,
          rw
              (
                pass_text_part (flip how) tag_size nonce (ys ++ y) m r count hr,
                f.undone y,
                drop-append (16 * m) ys y f.count,
                back,
                take-append-drop,
              )
              refl,
        )

  -- The whole text: the pass back finds it again, with the same last offset and checksum.
  pub pass_text-flip :
      (how : Instruction) (tag_size : ℕ) (nonce xs : Bytes)
      → length nonce ≤ 15
      → AreBytes nonce
      → AreBytes xs
      → FlipsText how tag_size nonce xs
  pass_text-flip how tag_size nonce xs hn bn hb = elim (split_at (length xs)) [
    | inl (m, e) ↦ flips_full how tag_size nonce xs m hn bn hb e
    | inr (m, r, e, h) ↦ flips_part how tag_size nonce xs m r hn bn hb e h
  ]
