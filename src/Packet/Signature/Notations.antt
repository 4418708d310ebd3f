-- ===== src/Packet/Signature/Notations.antt =====
-- openpgp/packet/notation.go, and the notation data subpacket of signature.go.
use go_crypto.Base.{
  ◌+◌, ◌/◌, ◌^◌, ◌*◌, Bool, ◌∷◌, ◌++◌, length, take, drop, get_or, bit_and, Bytes, Result, ok,
  structural, ◌>>◌, fail_if, not, ltb, ◌==◌, if◌then◌else◌,
}
use go_crypto.Base.Words.{u8}
use go_crypto.Packet.Signature.{Notation}

-- `getData`
unfoldable pub get_data : Notation → Bytes
get_data n =
    let name_len = length n.name in
    let value_len = length n.value in
    (if n.is_human_readable then 0x80 else 0)
    ∷ 0
    ∷ 0
    ∷ 0
    ∷ u8 (name_len / 2 ^ 8)
    ∷ u8 name_len
    ∷ u8 (value_len / 2 ^ 8)
    ∷ u8 value_len
    ∷ (n.name ++ n.value)

-- The case of `notationDataSubpacket`.
unfoldable pub parse_notation : Bool → Bytes → Result Notation
parse_notation is_critical subpacket =
    let bad = structural "notation data subpacket with bad length" in
    let name_length = get_or subpacket 4 0 * 2 ^ 8 + get_or subpacket 5 0 in
    let value_length = get_or subpacket 6 0 * 2 ^ 8 + get_or subpacket 7 0 in
    fail_if (ltb (length subpacket) 8) bad
    >> (fail_if (not (length subpacket == name_length + value_length + 8)) bad
        >> ok (record {
          name = take name_length (drop 8 subpacket);
          value = take value_length (drop (name_length + 8) subpacket);
          is_critical = is_critical;
          is_human_readable = bit_and (get_or subpacket 0 0) 0x80 == 0x80;
        }))
