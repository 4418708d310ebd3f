-- ===== src/Packet/Opaque/Tests.antt =====
-- Some subpackets.
use go_crypto.Base.{List, [], ◌∷◌, Bytes, ok, ◌≡◌, refl, arith}
use go_crypto.Packet.Opaque.{OpaqueSubpacket, sub_length, opaque_subpackets, serialize_subpackets}
use go_crypto.Packet.Opaque.Subpackets.{ReadsApart, opaque_subpackets-ReadsApart}
use go_crypto.Packet.Opaque.Serialized.{
  IsSubpacket, all_bytes, opaque_subpackets-serialize_subpackets,
}

-- One subpacket, and a second that says it is longer than it is.
abbrev cut_short : Bytes
cut_short = 3 ∷ 2 ∷ 10 ∷ 11 ∷ 255 ∷ 0 ∷ 0 ∷ 0 ∷ 9 ∷ 7 ∷ []

opaque_subpackets-ReadsApart_example : ReadsApart cut_short (opaque_subpackets 10 cut_short)
opaque_subpackets-ReadsApart_example = opaque_subpackets-ReadsApart 10 cut_short (omega arith)

abbrev one_octet : OpaqueSubpacket
one_octet = record { sub_type = 2; encoded_length = 3 ∷ []; contents = 10 ∷ 11 ∷ [] }

abbrev five_octets : OpaqueSubpacket
five_octets = record { sub_type = 9; encoded_length = 255 ∷ 0 ∷ 0 ∷ 0 ∷ 1 ∷ []; contents = [] }

one_octet-IsSubpacket : IsSubpacket one_octet
unfolding sub_length
one_octet-IsSubpacket = record {
  first = 3;
  others = [];
  encoded = refl;
  fits = omega arith;
  encodes = λ more. refl;
}

five_octets-IsSubpacket : IsSubpacket five_octets
unfolding sub_length
five_octets-IsSubpacket = record {
  first = 255;
  others = 0 ∷ 0 ∷ 0 ∷ 1 ∷ [];
  encoded = refl;
  fits = omega arith;
  encodes = λ more. refl;
}

abbrev two_subpackets : List OpaqueSubpacket
two_subpackets = one_octet ∷ five_octets ∷ []

opaque_subpackets-serialize_subpackets_example :
    (serialize_subpackets two_subpackets ≡ ok (all_bytes two_subpackets))
    × (opaque_subpackets 20 (all_bytes two_subpackets) ≡ (ok tt, two_subpackets))
opaque_subpackets-serialize_subpackets_example =
    opaque_subpackets-serialize_subpackets 20 two_subpackets
      (one_octet-IsSubpacket, (five_octets-IsSubpacket, tt)) (omega arith) (omega arith)
