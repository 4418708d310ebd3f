-- ===== src/Packet/SignatureArea/Laws.antt =====
-- The areas of a signature fill their buffers and are read back.
use go_crypto.Base.{
  ℕ, suc, ◌+◌, ◌-◌, ◌/◌, ◌^◌, ◌≤◌, ◌<◌, Bool, Bool-cases, inl, inr, List, [], ◌∷◌, ◌++◌, length,
  Bytes, ok, All, ltb, if◌then◌else◌, ◌≡◌, refl, ap, ◌∙◌, arith, length-append,
}
use go_crypto.Base.Words.{u8}
use go_crypto.Packet.Opaque.{OpaqueSubpacket, sub_length, opaque_subpackets}
use go_crypto.Packet.Opaque.Serialized.{
  IsSubpacket, all_bytes, opaque_subpackets-serialize_subpackets,
}
use go_crypto.Packet.SignatureArea.{
  OutputSubpacket, subpacket_length_length, serialize_subpacket_length, is_in, subpackets_length,
  type_octet, serialize_area,
}

-- The raw form of a subpacket.
abbrev pub raw : OutputSubpacket → OpaqueSubpacket
raw p = record {
  sub_type = type_octet p;
  encoded_length = serialize_subpacket_length (length p.contents + 1);
  contents = p.contents;
}

-- The subpackets of one area, in their raw form.
unfoldable pub area : List OutputSubpacket → Bool → List OpaqueSubpacket
area [] hashed = []
area (p ∷ ps) hashed = let rest = area ps hashed in if is_in hashed p then raw p ∷ rest else rest

-- A length as it is written, in front of anything.
record Encodes (n : ℕ) (encoded : Bytes) : Type 0 where
  first : ℕ
  others : Bytes
  is : encoded ≡ first ∷ others
  fits : suc (length others) ≤ 5
  encodes : (more : Bytes) → sub_length first (first ∷ (others ++ more)) ≡ (suc (length others), n)

serialize_subpacket_length-Encodes : (n : ℕ) → n < 2 ^ 32 → Encodes n (serialize_subpacket_length n)
unfolding serialize_subpacket_length sub_length
serialize_subpacket_length-Encodes n h = elim (Bool-cases (ltb n 192)) [
  | inl one ↦ rw one (record {
    first = u8 n;
    others = [];
    is = refl;
    fits = omega arith;
    encodes = λ more. ground (arith, one);
  })
  | inr more_one ↦ elim (Bool-cases (ltb n 16320)) [
    | inl two ↦
        rw (more_one, two)
          (record {
            first = u8 ((n - 192) / 2 ^ 8 + 192);
            others = u8 (n - 192) ∷ [];
            is = refl;
            fits = omega arith;
            encodes = λ more. ground (arith, more_one, two);
          })
    | inr five ↦
        rw (more_one, five)
          (record {
            first = 255;
            others = u8 (n / 2 ^ 24) ∷ u8 (n / 2 ^ 16) ∷ u8 (n / 2 ^ 8) ∷ u8 n ∷ [];
            is = refl;
            fits = omega arith;
            encodes = λ more. ground (arith, h);
          })
  ]
]

raw-IsSubpacket : (p : OutputSubpacket) → length p.contents + 1 < 2 ^ 32 → IsSubpacket (raw p)
raw-IsSubpacket p h =
    let e = serialize_subpacket_length-Encodes (length p.contents + 1) h in
    let same : length p.contents + 1 ≡ suc (length p.contents) = omega arith in
    record {
      first = e.first;
      others = e.others;
      encoded = e.is;
      fits = e.fits;
      encodes = λ more. e.encodes more ∙ ap (λ (n : ℕ). (suc (length e.others), n)) same;
    }

length-serialize_subpacket_length :
    (n : ℕ) → length (serialize_subpacket_length n) ≡ subpacket_length_length n
unfolding serialize_subpacket_length subpacket_length_length
length-serialize_subpacket_length n = ground arith

serialize_area-all_bytes :
    (ps : List OutputSubpacket) (hashed : Bool)
    → serialize_area ps hashed ≡ all_bytes (area ps hashed)
unfolding serialize_area area
serialize_area-all_bytes [] hashed = refl
serialize_area-all_bytes (p ∷ ps) hashed = elim (Bool-cases (is_in hashed p)) [
  | inl e ↦ rw (e, serialize_area-all_bytes ps hashed) refl
  | inr e ↦ rw (e, serialize_area-all_bytes ps hashed) refl
]

pub length-serialize_area :
    (ps : List OutputSubpacket) (hashed : Bool)
    → length (serialize_area ps hashed) ≡ subpackets_length ps hashed
unfolding serialize_area subpackets_length
length-serialize_area [] hashed = refl
length-serialize_area (p ∷ ps) hashed = elim (Bool-cases (is_in hashed p)) [
  | inl e ↦
      let encoded = serialize_subpacket_length (length p.contents + 1) in
      let bytes : Bytes = encoded ++ type_octet p ∷ p.contents in
      rw e (
        omega (
          arith,
          length-append bytes (serialize_area ps hashed),
          length-append encoded (type_octet p ∷ p.contents),
          length-serialize_subpacket_length (length p.contents + 1),
          length-serialize_area ps hashed,
        ))
  | inr e ↦ rw e (length-serialize_area ps hashed)
]

small_parts :
    (ps : List OutputSubpacket) (hashed : Bool)
    → subpackets_length ps hashed < 2 ^ 32
    → All IsSubpacket (area ps hashed)
unfolding area subpackets_length subpacket_length_length
small_parts [] hashed h = tt
small_parts (p ∷ ps) hashed h = elim (Bool-cases (is_in hashed p)) [
  | inl e ↦
      let all = rw e at h in
      rw e (raw-IsSubpacket p (omega (arith, all)), small_parts ps hashed (omega (arith, all)))
  | inr e ↦ rw e (small_parts ps hashed (rw e at h))
]

-- An area of a signature whose length is below 2 ^ 32 takes exactly the bytes that subpacketsLength
-- counts, and OpaqueSubpackets reads it back: the subpackets of that area in their order, each with
-- its type octet, the bit of a critical one included, its encoded length and its contents.
pub opaque_subpackets-serialize_area :
    (ps : List OutputSubpacket) (hashed : Bool) (fuel : ℕ)
    → subpackets_length ps hashed < 2 ^ 32
    → subpackets_length ps hashed ≤ fuel
    → (length (serialize_area ps hashed) ≡ subpackets_length ps hashed)
      × (opaque_subpackets fuel (serialize_area ps hashed) ≡ (ok tt, area ps hashed))
opaque_subpackets-serialize_area ps hashed fuel small enough =
    let size = length-serialize_area ps hashed in
    let same = serialize_area-all_bytes ps hashed in
    let whole = ap length same in
    let (serialized, back) =
      opaque_subpackets-serialize_subpackets fuel (area ps hashed) (small_parts ps hashed small)
        (omega (arith, whole, size, small)) (omega (arith, whole, size, enough)) in
    (size, ap (opaque_subpackets fuel) same ∙ back)
