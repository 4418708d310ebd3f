-- ===== src/Packet/Signature/Split.antt =====
-- The subpackets of a signature are taken apart as they were written.
use go_crypto.Base.{
  ℕ, zero, suc, ◌+◌, ◌-◌, ◌*◌, ◌/◌, ◌^◌, ◌≤◌, ◌<◌, Bool, true, false, Bool-cases, inl, inr, List,
  [], ◌∷◌, ◌++◌, length, bit_and, bit_or, Bytes, Result, ok, All, ◌>>=◌, >>=_assoc, >>=_cong, ltb,
  ◌==◌, if◌then◌else◌, ◌≡◌, refl, ap, arith, length-append, append_assoc, take-append, drop-append,
}
use go_crypto.Base.Bits.{agree_below, agree_below→eq}
use go_crypto.Base.Words.{u8, u32, be_word32}
use go_crypto.Packet.SignatureArea.{
  OutputSubpacket, serialize_subpacket_length, type_octet, is_in, serialize_area,
}
use go_crypto.Packet.Signature.{Signature, Sig}
use go_crypto.Packet.Signature.Subpacket.{
  cut_subpacket, split_subpacket, apply_subpacket, parse_subpacket, subpackets_loop,
}

cut_subpacket-append :
    (first rest : Bytes) (n : ℕ)
    → n ≡ length first
    → 0 < n
    → length (first ++ rest) < 2 ^ 32
    → cut_subpacket n (first ++ rest) ≡ ok (first, rest)
unfolding cut_subpacket
cut_subpacket-append first rest n e some small =
    let size = length-append first rest in
    let fits : ltb (u32 (length (first ++ rest))) n ≡ false = ground (arith, size, small, e) in
    let full : (n == 0) ≡ false = ground (arith, some) in
    rw
      (
        fits,
        full,
        take-append n first rest (omega (arith, e)),
        drop-append n first rest (omega (arith, e)),
      )
      refl

split_subpacket-append :
    (octet : ℕ) (contents rest : Bytes)
    → length contents + (length rest + 6) < 2 ^ 32
    → split_subpacket
        (serialize_subpacket_length (length contents + 1) ++ (octet ∷ (contents ++ rest)))
      ≡ ok (octet ∷ contents, rest)
unfolding split_subpacket serialize_subpacket_length be_word32
split_subpacket-append octet contents rest small =
    let n : ℕ = length contents + 1 in
    let size : length (octet ∷ (contents ++ rest)) < 2 ^ 32 =
      omega (arith, small, length-append contents rest) in
    let cut = λ (k : ℕ) (e : k ≡ n).
      cut_subpacket-append (octet ∷ contents) rest k (omega (arith, e)) (omega (arith, e)) size in
    elim (Bool-cases (ltb n 192)) [
      | inl one ↦ let same : u8 n ≡ n = ground (arith, one) in rw (one, same, one) (cut n refl)
      | inr more ↦ elim (Bool-cases (ltb n 16320)) [
        | inl two ↦
            let b : ℕ = u8 ((n - 192) / 2 ^ 8 + 192) in
            let high : ltb b 192 ≡ false = ground (arith, more, two) in
            let low : ltb b 255 ≡ true = ground (arith, more, two) in
            let back : (b - 192) * 2 ^ 8 + u8 (n - 192) + 192 ≡ n = ground (arith, more, two) in
            let two_octets : ltb (suc (suc (suc (length (contents ++ rest))))) 2 ≡ false =
              ground arith in
            rw (more, two, high, low, two_octets) (cut _ back)
        | inr five ↦
            let back : ((u8 (n / 2 ^ 24) * 256 + u8 (n / 2 ^ 16)) * 256 + u8 (n / 2 ^ 8)) * 256
                  + u8 n
                ≡ n =
              omega (arith, small) in
            let octets : ltb (suc (suc (suc (suc (suc (suc (length (contents ++ rest)))))))) 5
                ≡ false =
              ground arith in
            rw (more, five, octets) (cut _ back)
      ]
    ]

critical_type : (t : ℕ) → t < 128 → bit_and (bit_or (u8 t) 0x80) 0x7f ≡ t
unfolding agree_below
critical_type = agree_below→eq _ _ 128 refl

critical_bit : (t : ℕ) → t < 128 → bit_and (bit_or (u8 t) 0x80) 0x80 ≡ 128
unfolding agree_below
critical_bit = agree_below→eq _ _ 128 refl

plain_type : (t : ℕ) → t < 128 → bit_and (u8 t) 0x7f ≡ t
unfolding agree_below
plain_type = agree_below→eq _ _ 128 refl

plain_bit : (t : ℕ) → t < 128 → bit_and (u8 t) 0x80 ≡ 0
unfolding agree_below
plain_bit = agree_below→eq _ _ 128 refl

type_octet_lem :
    (p : OutputSubpacket)
    → p.subpacket_type < 128
    → (bit_and (type_octet p) 0x7f ≡ p.subpacket_type)
      × ((bit_and (type_octet p) 0x80 == 0x80) ≡ p.is_critical)
unfolding type_octet
type_octet_lem p h = elim (Bool-cases p.is_critical) [
  | inl e ↦ rw (e, critical_type p.subpacket_type h, critical_bit p.subpacket_type h) (refl, refl)
  | inr e ↦ rw (e, plain_type p.subpacket_type h, plain_bit p.subpacket_type h) (refl, refl)
]

-- The subpackets of one area.
unfoldable pub in_area : List OutputSubpacket → Bool → List OutputSubpacket
in_area [] hashed = []
in_area (p ∷ ps) hashed = let rest = in_area ps hashed in if is_in hashed p then p ∷ rest else rest

is_in-hashed : (hashed : Bool) (p : OutputSubpacket) → is_in hashed p ≡ true → p.hashed ≡ hashed
unfolding is_in
is_in-hashed hashed p h = ground (arith, h)

-- The bytes of a subpacket.
abbrev part_bytes : OutputSubpacket → Bytes
part_bytes p = serialize_subpacket_length (length p.contents + 1) ++ type_octet p ∷ p.contents

serialize_area_here :
    (p : OutputSubpacket) (ps : List OutputSubpacket) (hashed : Bool)
    → is_in hashed p ≡ true
    → (serialize_area (p ∷ ps) hashed ≡ part_bytes p ++ serialize_area ps hashed)
      × (in_area (p ∷ ps) hashed ≡ p ∷ in_area ps hashed)
unfolding serialize_area in_area
serialize_area_here p ps hashed e = rw e (refl, refl)

serialize_area_other :
    (p : OutputSubpacket) (ps : List OutputSubpacket) (hashed : Bool)
    → is_in hashed p ≡ false
    → (serialize_area (p ∷ ps) hashed ≡ serialize_area ps hashed)
      × (in_area (p ∷ ps) hashed ≡ in_area ps hashed)
unfolding serialize_area in_area
serialize_area_other p ps hashed e = rw e (refl, refl)

length-part_bytes : (p : OutputSubpacket) → length p.contents < length (part_bytes p)
length-part_bytes p = omega (
  arith,
  length-append (serialize_subpacket_length (length p.contents + 1)) (type_octet p ∷ p.contents),
)

module _ (parse_embedded : Bytes → Result Signature) where
  -- The subpackets of a list, one after the other.
  unfoldable pub apply_all : Sig → List OutputSubpacket → Result Sig
  apply_all sig [] = ok sig
  apply_all sig (p ∷ ps) = apply_subpacket parse_embedded sig p >>= λ sig'. apply_all sig' ps

  pub parse_subpacket-append :
      (sig : Sig) (p : OutputSubpacket) (hashed : Bool) (rest : Bytes)
      → is_in hashed p ≡ true
      → p.subpacket_type < 128
      → length p.contents + (length rest + 6) < 2 ^ 32
      → parse_subpacket parse_embedded sig
          ((serialize_subpacket_length (length p.contents + 1) ++ type_octet p ∷ p.contents)
            ++ rest)
          hashed
        ≡ (apply_subpacket parse_embedded sig p >>= λ sig'. ok (rest, sig'))
  unfolding parse_subpacket
  parse_subpacket-append sig p hashed rest here known small =
      let (same_type, same_bit) = type_octet_lem p known in
      rw
        (
          append_assoc (serialize_subpacket_length (length p.contents + 1))
              (type_octet p ∷ p.contents) rest,
          split_subpacket-append (type_octet p) p.contents rest small,
          same_type,
          same_bit,
          ← is_in-hashed hashed p here,
        )
        refl

  loop_step :
      (fuel : ℕ) (sig : Sig) (bs : Bytes) (hashed : Bool)
      → 0 < length bs
      → length bs ≤ fuel
      → (less : ℕ) × (fuel ≡ suc less)
        × (subpackets_loop parse_embedded fuel sig bs hashed ≡ (
            parse_subpacket parse_embedded sig bs hashed >>= λ r.
            subpackets_loop parse_embedded less r.1 r.0 hashed))
  unfolding subpackets_loop
  loop_step fuel sig [] hashed h enough = absurd (omega arith)
  loop_step zero sig (b ∷ bs) hashed h enough = absurd (omega arith)
  loop_step (suc less) sig (b ∷ bs) hashed h enough = (less, refl, refl)

  loop_nil :
      (fuel : ℕ) (sig : Sig) (hashed : Bool)
      → subpackets_loop parse_embedded fuel sig (serialize_area [] hashed) hashed
        ≡ apply_all sig (in_area [] hashed)
  unfolding subpackets_loop serialize_area in_area apply_all
  loop_nil zero sig hashed = refl
  loop_nil (suc fuel) sig hashed = refl

  -- The loop over an area, as it was written, takes its subpackets one after the other.
  pub subpackets_loop-serialize_area :
      (fuel : ℕ) (sig : Sig) (ps : List OutputSubpacket) (hashed : Bool)
      → All (λ p. p.subpacket_type < 128) ps
      → length (serialize_area ps hashed) + 6 < 2 ^ 32
      → length (serialize_area ps hashed) ≤ fuel
      → subpackets_loop parse_embedded fuel sig (serialize_area ps hashed) hashed
        ≡ apply_all sig (in_area ps hashed)
  unfolding apply_all
  subpackets_loop-serialize_area fuel sig [] hashed known small enough = loop_nil fuel sig hashed
  subpackets_loop-serialize_area fuel sig (p ∷ ps) hashed known small enough =
      elim (Bool-cases (is_in hashed p)) [
        | inr e ↦
            let (same, same_parts) = serialize_area_other p ps hashed e in
            rw (same, same_parts)
              (subpackets_loop-serialize_area fuel sig ps hashed known.1 (rw same at small)
                (rw same at enough))
        | inl e ↦
            let (same, same_parts) = serialize_area_here p ps hashed e in
            let rest = serialize_area ps hashed in
            let some = length-part_bytes p in
            let size = length-append (part_bytes p) rest in
            let all = ap length same in
            let (less, fuel_suc, step) =
              loop_step fuel sig (part_bytes p ++ rest) hashed (omega (arith, some, size))
                (omega (arith, all)) in
            let ih = λ (sig' : Sig).
              subpackets_loop-serialize_area less sig' ps hashed known.1 (omega (arith, all, size))
                (omega (arith, all, size, some, fuel_suc)) in
            rw
              (
                same,
                same_parts,
                step,
                parse_subpacket-append sig p hashed rest e known.0 (omega (arith, all, size, some)),
                >>=_assoc,
              )
              (>>=_cong (apply_subpacket parse_embedded sig p) _ _ ih)
      ]
