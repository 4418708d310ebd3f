-- ===== src/ByteUtil/Laws.antt =====
-- Laws of the byte-string operations.
use go_crypto.Base.{
  ℕ, suc, ◌-◌, ◌*◌, ◌/◌, ◌%◌, ◌^◌, ◌≤◌, ◌<◌, [], ◌∷◌, length, take, drop, Bytes, IsByte, AreBytes,
  ◌≡◌, refl, ap, ap₂, ◌∙◌, arith, length-append, length-take, length-drop, All-append, All-take,
  All-drop,
}
use go_crypto.Base.Bits.{bit_xor_cancel, bit_xor-lt, bit_or-lt}
use native.Mathlib.Nat.{div-le_self}
use go_crypto.ByteUtil.{
  shift_bytes_left, xor_last, gfn_double, shift_bits_left, shift_n_bytes_left, copy, xor_bytes,
  right_xor,
}

-- Adding a key stream twice gives the bytes back.
pub xor_bytes_cancel : (xs ys : Bytes) → length xs ≤ length ys → xor_bytes (xor_bytes xs ys) ys ≡ xs
unfolding xor_bytes
xor_bytes_cancel [] ys h = refl
xor_bytes_cancel (x ∷ xs) [] h = absurd (omega arith)
xor_bytes_cancel (x ∷ xs) (y ∷ ys) h =
    ap₂ ◌∷◌ (bit_xor_cancel x y) (xor_bytes_cancel xs ys (omega arith))

pub length-xor_bytes : (xs ys : Bytes) → length (xor_bytes xs ys) ≡ length xs
unfolding xor_bytes
length-xor_bytes [] ys = refl
length-xor_bytes (x ∷ xs) [] = refl
length-xor_bytes (x ∷ xs) (y ∷ ys) = ap suc (length-xor_bytes xs ys)

pub xor_bytes-AreBytes : (xs ys : Bytes) → AreBytes xs → AreBytes ys → AreBytes (xor_bytes xs ys)
unfolding xor_bytes
xor_bytes-AreBytes [] ys hx hy = tt
xor_bytes-AreBytes (x ∷ xs) [] hx hy = hx
xor_bytes-AreBytes (x ∷ xs) (y ∷ ys) hx hy =
    (bit_xor-lt 8 x y hx.0 hy.0, xor_bytes-AreBytes xs ys hx.1 hy.1)

pub length-shift_bytes_left : (xs : Bytes) → length (shift_bytes_left xs) ≡ length xs
unfolding shift_bytes_left
length-shift_bytes_left [] = refl
length-shift_bytes_left (x ∷ []) = refl
length-shift_bytes_left (x ∷ y ∷ xs) = ap suc (length-shift_bytes_left (y ∷ xs))

pub length-xor_last : (xs : Bytes) (v : ℕ) → length (xor_last xs v) ≡ length xs
unfolding xor_last
length-xor_last [] v = refl
length-xor_last (x ∷ []) v = refl
length-xor_last (x ∷ y ∷ xs) v = ap suc (length-xor_last (y ∷ xs) v)

pub length-gfn_double : (xs : Bytes) → length (gfn_double xs) ≡ length xs
unfolding gfn_double
length-gfn_double xs = length-xor_last _ _ ∙ length-shift_bytes_left xs

pub length-shift_bits_left : (bits : ℕ) (xs : Bytes) → length (shift_bits_left bits xs) ≡ length xs
unfolding shift_bits_left
length-shift_bits_left bits [] = refl
length-shift_bits_left bits (x ∷ []) = refl
length-shift_bits_left bits (x ∷ y ∷ xs) = ap suc (length-shift_bits_left bits (y ∷ xs))

pub length-copy : (dst src : Bytes) → length (copy dst src) ≡ length dst
length-copy dst src = omega (
  arith,
  length-append (take (length dst) src) (drop (length src) dst),
  length-take (length dst) src,
  length-drop (length src) dst,
)

pub length-shift_n_bytes_left :
    (dst x : Bytes) (n : ℕ) → length (shift_n_bytes_left dst x n) ≡ length dst
unfolding shift_n_bytes_left
length-shift_n_bytes_left dst x n =
    length-shift_bits_left (n % 8) (copy dst (drop (n / 8) x)) ∙ length-copy dst (drop (n / 8) x)

pub length-right_xor : (xs ys : Bytes) → length (right_xor xs ys) ≡ length xs
unfolding right_xor
length-right_xor xs ys =
    let offset = length xs - length ys in
    omega (
      arith,
      length-append (take offset xs) (xor_bytes (drop offset xs) ys),
      length-take offset xs,
      length-drop offset xs,
      length-xor_bytes (drop offset xs) ys,
    )

shift_bytes_left-AreBytes : (xs : Bytes) → AreBytes xs → AreBytes (shift_bytes_left xs)
unfolding shift_bytes_left
shift_bytes_left-AreBytes [] h = tt
shift_bytes_left-AreBytes (x ∷ []) h = omega arith
shift_bytes_left-AreBytes (x ∷ y ∷ xs) h = (
  bit_or-lt 8 (x * 2 % 256) (y / 2 ^ 7) (omega arith) (omega (arith, h.1.0)),
  shift_bytes_left-AreBytes (y ∷ xs) h.1,
)

xor_last-AreBytes : (xs : Bytes) (v : ℕ) → v < 256 → AreBytes xs → AreBytes (xor_last xs v)
unfolding xor_last
xor_last-AreBytes [] v hv h = tt
xor_last-AreBytes (x ∷ []) v hv h = (bit_xor-lt 8 x v h.0 hv, tt)
xor_last-AreBytes (x ∷ y ∷ xs) v hv h = (h.0, xor_last-AreBytes (y ∷ xs) v hv h.1)

pub gfn_double-AreBytes : (xs : Bytes) → AreBytes xs → AreBytes (gfn_double xs)
unfolding gfn_double
gfn_double-AreBytes xs h =
    xor_last-AreBytes (shift_bytes_left xs) _ (omega arith) (shift_bytes_left-AreBytes xs h)

shift_bits_left-AreBytes :
    (bits : ℕ) (xs : Bytes) → AreBytes xs → AreBytes (shift_bits_left bits xs)
unfolding shift_bits_left
shift_bits_left-AreBytes bits [] h = tt
shift_bits_left-AreBytes bits (x ∷ []) h = omega arith
shift_bits_left-AreBytes bits (x ∷ y ∷ xs) h = (
  bit_or-lt 8 (x * 2 ^ bits % 256) (y / 2 ^ (8 - bits)) (omega arith)
      (omega (arith, h.1.0, div-le_self y (2 ^ (8 - bits)))),
  shift_bits_left-AreBytes bits (y ∷ xs) h.1,
)

pub shift_n_bytes_left-AreBytes :
    (dst x : Bytes) (n : ℕ) → AreBytes dst → AreBytes x → AreBytes (shift_n_bytes_left dst x n)
unfolding shift_n_bytes_left
shift_n_bytes_left-AreBytes dst x n hd hx =
    let src = drop (n / 8) x in
    shift_bits_left-AreBytes (n % 8) (copy dst src) (
      All-append IsByte (take (length dst) src) (drop (length src) dst)
        (All-take IsByte (length dst) src (All-drop IsByte (n / 8) x hx))
        (All-drop IsByte (length src) dst hd))
