-- ===== src/Packet/SignatureArea.antt =====
-- openpgp/packet/signature.go: the hashed and the unhashed area of a signature, as they are written.
pub mod Laws
use go_crypto.Base.{
  ℕ, suc, ◌+◌, ◌-◌, ◌/◌, ◌^◌, bit_or, Bool, true, false, not, List, [], ◌∷◌, ◌++◌, length, Bytes,
  ltb, if◌then◌else◌,
}
use go_crypto.Base.Words.{u8}

-- `outputSubpacket`
pub record OutputSubpacket : Type 0 where
  pub hashed : Bool
  pub subpacket_type : ℕ
  pub is_critical : Bool
  pub contents : Bytes

-- `subpacketLengthLength`
unfoldable pub subpacket_length_length : ℕ → ℕ
subpacket_length_length n = if ltb n 192 then 1 else if ltb n 16320 then 2 else 5

-- `serializeSubpacketLength`: the bytes that are put into the buffer.
unfoldable pub serialize_subpacket_length : ℕ → Bytes
serialize_subpacket_length n =
    if ltb n 192
    then u8 n ∷ []
    else if ltb n 16320
    then u8 ((n - 192) / 2 ^ 8 + 192) ∷ u8 (n - 192) ∷ []
    else 255 ∷ u8 (n / 2 ^ 24) ∷ u8 (n / 2 ^ 16) ∷ u8 (n / 2 ^ 8) ∷ u8 n ∷ []

-- `subpacket.hashed == hashed`
unfoldable pub is_in : Bool → OutputSubpacket → Bool
is_in hashed p = if p.hashed then hashed else not hashed

-- `subpacketsLength`
unfoldable pub subpackets_length : List OutputSubpacket → Bool → ℕ
subpackets_length [] hashed = 0
subpackets_length (p ∷ ps) hashed =
    let rest = subpackets_length ps hashed in
    if is_in hashed p
    then subpacket_length_length (length p.contents + 1) + 1 + length p.contents + rest
    else rest

-- The octet of the type, with the bit of a critical subpacket.
unfoldable pub type_octet : OutputSubpacket → ℕ
type_octet p = if p.is_critical then bit_or (u8 p.subpacket_type) 0x80 else u8 p.subpacket_type

-- `serializeSubpackets` into a buffer of `subpackets_length` bytes.
unfoldable pub serialize_area : List OutputSubpacket → Bool → Bytes
serialize_area [] hashed = []
serialize_area (p ∷ ps) hashed =
    let rest = serialize_area ps hashed in
    if is_in hashed p
    then (serialize_subpacket_length (length p.contents + 1) ++ type_octet p ∷ p.contents) ++ rest
    else rest
