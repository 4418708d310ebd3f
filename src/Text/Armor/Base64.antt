-- ===== src/Text/Armor/Base64.antt =====
-- Texts of base64 as lines of armor, and the checksum in its bytes.
use go_crypto.Base.{
  ℕ, ◌+◌, ◌*◌, ◌/◌, ◌%◌, ◌^◌, ◌≤◌, ◌<◌, bit_and, bit_or, false, List, [], ◌∷◌, ◌++◌, length, concat,
  Bytes, AreBytes, All, Result, ok, ◌==◌, ◌≡◌, ◌≢◌, refl, sym, ap, subst, ◌∙◌, arith, append-nil,
  length-append,
}
use go_crypto.Base.Bits.{bit_or_fields, bit_and_mask}
use go_crypto.Base.Words.{u8, u32}
use go_crypto.Text.Cleartext.{has_prefix, without_cr}
use go_crypto.Text.Cleartext.Lines.{IsText}
use go_crypto.Text.Armor.{crc24_mask, armor_end}
use go_crypto.Text.Armor.Lines.{IsArmorLine}

-- A character of base64 is no LF, no CR and no hyphen.
abbrev pub IsPlain : ℕ → Type 0
IsPlain c = (c == 10 ≡ false) × (c == 13 ≡ false) × (c == 45 ≡ false)

-- Base64 with padding.
pub record IsBase64 (b64_encode : Bytes → Bytes) (b64_decode : Bytes → Result Bytes) : Type 0 where
  pub plain : (bytes : Bytes) → All IsPlain (b64_encode bytes)
  pub quads : (bytes : Bytes) → length (b64_encode bytes) % 4 ≡ 0
  pub quad : (a b c : ℕ) → length (b64_encode (a ∷ b ∷ c ∷ [])) ≡ 4
  pub decodes :
      (a b c : ℕ)
      → AreBytes (a ∷ b ∷ c ∷ [])
      → b64_decode (b64_encode (a ∷ b ∷ c ∷ [])) ≡ ok (a ∷ b ∷ c ∷ [])

pub without_cr-plain : (line : Bytes) → All IsPlain line → without_cr line ≡ line
unfolding without_cr
without_cr-plain [] h = refl
without_cr-plain (c ∷ []) h = rw (h.0.1) refl
without_cr-plain (c ∷ d ∷ line) h = ap (λ xs. c ∷ xs) (without_cr-plain (d ∷ line) h.1)

pub without_cr-more :
    (c : ℕ) (line : Bytes)
    → c == 13 ≡ false
    → without_cr line ≡ line
    → without_cr (c ∷ line) ≡ c ∷ line
unfolding without_cr
without_cr-more c [] other e = rw other refl
without_cr-more c (d ∷ line) other e = ap (λ xs. c ∷ xs) e

pub plain-IsText : (line : Bytes) → All IsPlain line → All IsText line
plain-IsText [] h = tt
plain-IsText (c ∷ line) h = (h.0.0, plain-IsText line h.1)

plain_no_end : (line : Bytes) → All IsPlain line → has_prefix line armor_end ≡ false
unfolding has_prefix
plain_no_end [] h = refl
plain_no_end (c ∷ line) h = rw (h.0.2) refl

plain-IsArmorLine :
    (line : Bytes) → All IsPlain line → length line ≤ 64 → length line ≢ 5 → IsArmorLine line
plain-IsArmorLine line h fits other = record {
  no_lf = plain-IsText line h;
  no_cr = without_cr-plain line h;
  no_end = plain_no_end line h;
  fits = fits;
  no_checksum = other;
}

All-split : (xs ys : Bytes) → All IsPlain (xs ++ ys) → All IsPlain xs × All IsPlain ys
All-split [] ys h = (tt, h)
All-split (x ∷ xs) ys h = let (a, b) = All-split xs ys h.1 in ((h.0, a), b)

-- Lines of 64 and one more, with quads in all.
pub lines-IsArmorLine :
    (full last : List Bytes)
    → All (λ (line : Bytes). length line ≡ 64) full
    → All (λ (line : Bytes). length line < 64) last
    → length last ≤ 1
    → All IsPlain (concat (full ++ last))
    → length (concat (full ++ last)) % 4 ≡ 0
    → All IsArmorLine (full ++ last)
lines-IsArmorLine [] [] all short one plain quads = tt
lines-IsArmorLine [] (u ∷ []) all (s, short) one plain quads =
    let same = append-nil u in
    (
      plain-IsArmorLine u (subst (All IsPlain) same plain) (omega (arith, s))
          (λ e. absurd (omega (arith, e, quads, ap length same))),
      tt,
    )
lines-IsArmorLine [] (u ∷ v ∷ last) all short one plain quads = absurd (omega arith)
lines-IsArmorLine (u ∷ full) last (w, all) short one plain quads =
    let (p, plain') = All-split u (concat (full ++ last)) plain in
    (
      plain-IsArmorLine u p (omega (arith, w)) (λ e. absurd (omega (arith, e, w))),
      lines-IsArmorLine full last all short one plain'
          (omega (arith, quads, w, length-append u (concat (full ++ last)))),
    )

pub checksum-bytes :
    (crc : ℕ)
    → bit_or (bit_or (u32 (u8 (crc / 2 ^ 16) * 2 ^ 16)) (u32 (u8 (crc / 2 ^ 8) * 2 ^ 8))) (u8 crc)
      ≡ bit_and crc crc24_mask
checksum-bytes crc =
    let a = u8 (crc / 2 ^ 16) in
    let b = u8 (crc / 2 ^ 8) in
    let high : u32 (a * 2 ^ 16) ≡ a * 2 ^ 16 = omega arith in
    let low : u32 (b * 2 ^ 8) ≡ b * 2 ^ 8 = omega arith in
    let sum : a * 2 ^ 16 + b * 2 ^ 8 ≡ (a * 2 ^ 8 + b) * 2 ^ 8 = omega arith in
    let whole : (a * 2 ^ 8 + b) * 2 ^ 8 + u8 crc ≡ crc % 2 ^ 24 = omega arith in
    ap (λ x. bit_or (bit_or x (u32 (b * 2 ^ 8))) (u8 crc)) high
    ∙ ap (λ x. bit_or (bit_or (a * 2 ^ 16) x) (u8 crc)) low
    ∙ ap (λ x. bit_or x (u8 crc)) (bit_or_fields 16 a (b * 2 ^ 8) (omega arith) ∙ sum)
    ∙ bit_or_fields 8 (a * 2 ^ 8 + b) (u8 crc) (omega arith)
    ∙ whole
    ∙ sym (bit_and_mask 24 crc)
