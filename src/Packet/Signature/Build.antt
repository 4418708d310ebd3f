-- ===== src/Packet/Signature/Build.antt =====
-- openpgp/packet/signature.go: `buildSubpackets`, one definition for each of its conditions.
use go_crypto.Base.{
  ℕ, Bool, true, false, Option, none, some, List, [], ◌∷◌, ◌++◌, bit_or, Bytes, Result, ok, ◌>>=◌,
  ◌==◌, if◌then◌else◌,
}
use go_crypto.Base.Words.{u8, put_be_word32, put_be_uint64}
use go_crypto.Packet.SignatureArea.{OutputSubpacket}
use go_crypto.Packet.Signature.{SignatureFields, KeyFlags, Notation, Signature, Sig, of_signature}
use go_crypto.Packet.Signature.Notations.{get_data}
use go_crypto.Packet.Signature.Body.{serialize_body}

-- A subpacket of the hashed area.
abbrev pub hashed_part : ℕ → Bool → Bytes → OutputSubpacket
hashed_part packet_type is_critical contents = record {
  hashed = true;
  subpacket_type = packet_type;
  is_critical = is_critical;
  contents = contents;
}

-- A subpacket that is put in if there is something for it.
unfoldable pub optional_part :
    {A : Type 0} → ℕ → Bool → (A → Bytes) → Option A → List OutputSubpacket
optional_part packet_type is_critical contents none = []
optional_part packet_type is_critical contents (some a) =
    hashed_part packet_type is_critical (contents a) ∷ []

-- One that is put in unless its contents are empty.
unfoldable pub listed_part : ℕ → Bytes → List OutputSubpacket
listed_part packet_type [] = []
listed_part packet_type (b ∷ bs) = hashed_part packet_type false (b ∷ bs) ∷ []

-- A number of seconds that is given and not 0.
unfoldable pub lifetime : Option ℕ → Option ℕ
lifetime none = none
lifetime (some n) = if n == 0 then none else some n

-- `uint32(sig.CreationTime.Unix())`: the zero time is 62135596800 seconds before 1970.
unfoldable pub unix_seconds : Option ℕ → ℕ
unix_seconds none = 2288912640
unix_seconds (some t) = t

unfoldable pub flag_bit : Bool → ℕ → ℕ → ℕ
flag_bit set bit flags = if set then bit_or flags bit else flags

unfoldable pub flags_octet : KeyFlags → ℕ
unfolding flag_bit
flags_octet f = flag_bit f.group_key 0x80 (
    flag_bit f.authenticate 0x20 (
      flag_bit f.split_key 0x10 (
        flag_bit f.encrypt_storage 0x08 (
          flag_bit f.encrypt_communications 0x04
            (flag_bit f.signing 0x02 (flag_bit f.certify 0x01 0))))))

unfoldable pub flags_part : KeyFlags → List OutputSubpacket
flags_part f = if f.flags_valid then hashed_part 27 false (flags_octet f ∷ []) ∷ [] else []

unfoldable pub notation_parts : List Notation → List OutputSubpacket
notation_parts [] = []
notation_parts (n ∷ ns) = hashed_part 20 n.is_critical (get_data n) ∷ notation_parts ns

unfoldable pub features_octet : Bool → Bool → ℕ
unfolding flag_bit
features_octet v1 v2 = flag_bit v2 0x08 (flag_bit v1 0x01 0)

unfoldable pub features_part : Bool → Bool → List OutputSubpacket
features_part v1 v2 =
    let features = features_octet v1 v2 in
    if features == 0 then [] else hashed_part 30 false (features ∷ []) ∷ []

unfoldable pub trust_part : ℕ → ℕ → List OutputSubpacket
trust_part level amount =
    if level == 0 then [] else hashed_part 5 true (u8 level ∷ u8 amount ∷ []) ∷ []

unfoldable pub primary_part : Option Bool → List OutputSubpacket
primary_part (some true) = hashed_part 25 false (1 ∷ []) ∷ []
primary_part _ = []

unfoldable pub suites_octets : List (ℕ × ℕ) → Bytes
suites_octets [] = []
suites_octets (suite ∷ suites) = suite.0 ∷ suite.1 ∷ suites_octets suites

unfoldable pub key_id_part : ℕ → Option ℕ → List OutputSubpacket
key_id_part version key_id =
    if version == 4 then optional_part 16 false put_be_uint64 key_id else []

-- The subpackets in front of the embedded signature.
unfoldable pub field_parts : ℕ → SignatureFields → List (List OutputSubpacket)
field_parts issuer_version s =
    (hashed_part 2 false (put_be_word32 (unix_seconds s.creation_time)) ∷ [])
    ∷ key_id_part s.version s.issuer_key_id
    ∷ optional_part 33 (s.version == 5) (λ fingerprint. u8 issuer_version ∷ fingerprint)
        s.issuer_fingerprint
    ∷ optional_part 28 false (λ id. id) s.signer_user_id
    ∷ optional_part 3 true put_be_word32 (lifetime s.sig_lifetime_secs)
    ∷ flags_part s.flags
    ∷ notation_parts s.notations
    ∷ features_part s.seipd_v1 s.seipd_v2
    ∷ trust_part s.trust_level s.trust_amount
    ∷ optional_part 6 true (λ regexp. regexp ++ 0 ∷ []) s.trust_regular_expression
    ∷ optional_part 9 true put_be_word32 (lifetime s.key_lifetime_secs)
    ∷ primary_part s.is_primary_id
    ∷ listed_part 11 s.preferred_symmetric
    ∷ listed_part 21 s.preferred_hash
    ∷ listed_part 22 s.preferred_compression
    ∷ listed_part 26 s.policy_uri
    ∷ listed_part 39 (suites_octets s.preferred_cipher_suites)
    ∷ optional_part 29 true (λ reason. u8 reason ∷ s.revocation_reason_text) s.revocation_reason
    ∷ []

-- The embedded signature is written with the subpackets in its `outSubpackets`.
unfoldable pub embedded_part : Option Signature → Result (List OutputSubpacket)
embedded_part none = ok []
embedded_part (some e) = do
  contents ← serialize_body (of_signature e).0
  ok (hashed_part 32 true contents ∷ [])

-- One list behind the other.
unfoldable pub join : List (List OutputSubpacket) → List OutputSubpacket
join [] = []
join (ps ∷ pss) = ps ++ join pss

-- `buildSubpackets`
unfoldable pub build_subpackets : ℕ → Sig → Result (List OutputSubpacket)
build_subpackets issuer_version (s, embedded) =
    embedded_part embedded >>= λ last. ok (join (field_parts issuer_version s) ++ last)
