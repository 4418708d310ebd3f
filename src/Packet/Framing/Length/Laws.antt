-- ===== src/Packet/Framing/Length/Laws.antt =====
-- Reading back a written length.
use go_crypto.Base.{
  ℕ, suc, ◌+◌, ◌*◌, ◌/◌, ◌%◌, ◌^◌, ◌<◌, Bool, true, false, [], ◌∷◌, ◌++◌, bit_and, Bytes, AreBytes,
  ok, stuck, ◌≢◌, length, ◌≡◌, ap, refl, arith,
}
use go_crypto.Base.Bits.{bit_or_fields, bit_and_mask}
use native.Mathlib.Nat.{pow-le-pow_right, one-le-pow}
use go_crypto.Io.{within_packet}
use go_crypto.Io.Laws.{read_full-append}
use go_crypto.Packet.Framing.Length.{
  be_uint32, two_octets, five_octets, read_length, read_full_packet, serialize_length,
}

pub read_full_packet-append :
    (n : ℕ) (bs rest : Bytes) → length bs ≡ n → read_full_packet n (bs ++ rest) ≡ ok (bs, rest)
unfolding read_full_packet within_packet
read_full_packet-append n bs rest h = rw (read_full-append n bs rest h) refl

pub be_uint32_sum :
    (a b c d : ℕ)
    → a < 256
    → b < 256
    → c < 256
    → d < 256
    → be_uint32 (a ∷ b ∷ c ∷ d ∷ []) ≡ ((a * 256 + b) * 256 + c) * 256 + d
unfolding be_uint32
be_uint32_sum a b c d ha hb hc hd = ground (
  arith,
  bit_or_fields 24 a (b * 65536),
  bit_or_fields 16 (a * 256 + b) (c * 256),
  bit_or_fields 8 ((a * 256 + b) * 256 + c) d,
)

-- A written length is read back modulo 2 ^ 32, with what follows it left unread: every length below
-- 2 ^ 32 is kept, and above the high bits are lost.
pub read_length-serialize_length :
    (n : ℕ) (rest : Bytes) → read_length (serialize_length n ++ rest) ≡ ok (n % 2 ^ 32, false, rest)
unfolding read_length serialize_length
read_length-serialize_length n rest =
    ground (arith, be_uint32_sum (n / 2 ^ 24 % 256) (n / 2 ^ 16 % 256) (n / 2 ^ 8 % 256) (n % 256))

low_five_bits : (b : ℕ) → b < 256 → bit_and b 0x1f ≡ b % 32
low_five_bits b h = bit_and_mask 5 b

-- The one octet of a partial length, for a power below 31.
pub read_length_partial :
    (power : ℕ) (rest : Bytes)
    → power < 31
    → read_length ((224 + power) ∷ rest) ≡ ok (2 ^ power, true, rest)
unfolding read_length
read_length_partial power rest h = ground (arith, ap (λ (t : ℕ). 2 ^ t) mask)
  where
    mask : bit_and (224 + power) 0x1f ≡ power
    mask = omega (arith, low_five_bits (224 + power) (omega arith))

partial_bounds : (b : ℕ) → b < 256 → (2 ^ bit_and b 0x1f < 2 ^ 32) × (0 < 2 ^ bit_and b 0x1f)
partial_bounds b h = rw (low_five_bits b h) (
  omega (arith, pow-le-pow_right {n = 2} (omega arith) {i = b % 32} {j = 31} (omega arith)),
  omega (arith, one-le-pow (b % 32) 2),
)

two_octets_bounds :
    (b : ℕ) (src : Bytes) (n : ℕ) (p : Bool) (rest : Bytes)
    → b < 224
    → AreBytes src
    → two_octets b src ≡ ok (n, p, rest)
    → (n < 2 ^ 32) × (length rest < suc (length src)) × (p ≡ false)
unfolding two_octets read_full_packet
two_octets_bounds b [] n p rest hb hs h = cc
two_octets_bounds b (y ∷ src) n p rest hb hs h = ground arith

five_octets_bounds :
    (src : Bytes) (n : ℕ) (p : Bool) (rest : Bytes)
    → AreBytes src
    → five_octets src ≡ ok (n, p, rest)
    → (n < 2 ^ 32) × (length rest < suc (length src)) × (p ≡ false)
unfolding five_octets read_full_packet
five_octets_bounds [] n p rest hs h = cc
five_octets_bounds (a ∷ []) n p rest hs h = cc
five_octets_bounds (a ∷ b ∷ []) n p rest hs h = cc
five_octets_bounds (a ∷ b ∷ c ∷ []) n p rest hs h = cc
five_octets_bounds (a ∷ b ∷ c ∷ d ∷ src) n p rest hs h = ground (arith, be_uint32_sum a b c d)

-- A length that was read from a source of bytes is below 2 ^ 32, a partial one is not zero, and the
-- bytes left are fewer than before.
pub read_length_bounds :
    (src : Bytes) (n : ℕ) (p : Bool) (rest : Bytes)
    → AreBytes src
    → read_length src ≡ ok (n, p, rest)
    → (n < 2 ^ 32) × (length rest < length src) × (p ≡ true → 0 < n)
unfolding read_length
read_length_bounds [] n p rest b h = cc
read_length_bounds (x ∷ src) n p rest b h =
    ground
      (arith, partial_bounds x, two_octets_bounds x src n p rest, five_octets_bounds src n p rest)

two_octets-ne-stuck : (b : ℕ) (src : Bytes) → two_octets b src ≢ stuck
unfolding two_octets read_full_packet
two_octets-ne-stuck b [] h = cc
two_octets-ne-stuck b (y ∷ src) h = cc

five_octets-ne-stuck : (src : Bytes) → five_octets src ≢ stuck
unfolding five_octets read_full_packet
five_octets-ne-stuck [] h = cc
five_octets-ne-stuck (a ∷ []) h = cc
five_octets-ne-stuck (a ∷ b ∷ []) h = cc
five_octets-ne-stuck (a ∷ b ∷ c ∷ []) h = cc
five_octets-ne-stuck (a ∷ b ∷ c ∷ d ∷ src) h = cc

pub read_length-ne-stuck : (src : Bytes) → read_length src ≢ stuck
unfolding read_length
read_length-ne-stuck [] h = cc
read_length-ne-stuck (x ∷ src) h =
    ground (arith, two_octets-ne-stuck x src, five_octets-ne-stuck src)
