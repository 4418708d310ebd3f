-- ===== src/Packet/Signature/HashSuffix.antt =====
-- openpgp/packet/signature.go: what is hashed behind the signed data, `buildHashSuffix`,
-- `AddMetadataToHashSuffix` and `signPrepareHash`.
use go_crypto.Base.{
  ℕ, ◌+◌, ◌-◌, ◌/◌, ◌^◌, true, ◌||◌, ◌&&◌, not, Option, none, some, ◌∷◌, ◌++◌, length, take, drop,
  Bytes, Result, ok, err, invalid_argument, ◌>>=◌, ◌>>◌, panic_if, ltb, ◌==◌, if◌then◌else◌,
}
use go_crypto.Base.Words.{u8, be_uint64, put_be_uint64, put_be_word32}
use go_crypto.S2k.Hash.{Hash, hash_to_hash_id, hash_to_hash_id_with_sha1}
use go_crypto.Packet.Literal.{LiteralData}
use go_crypto.Packet.SignatureArea.{serialize_area}
use go_crypto.Packet.Signature.{SignatureFields}

-- The octet of the hash function, which a signature of version 5 cannot have for SHA-1.
unfoldable pub hash_octet : ℕ → Hash → Option ℕ
hash_octet version hash =
    if ltb version 5 then hash_to_hash_id_with_sha1 hash else hash_to_hash_id hash

-- The last octets: the version, 0xff, and how many octets were hashed before.
unfoldable pub suffix_trailer : ℕ → ℕ → Bytes
suffix_trailer version l =
    if version == 5 then 0x05 ∷ 0xff ∷ put_be_uint64 l else (0x04 ∷ 0xff ∷ put_be_word32 l)

-- The fields of the signature that are hashed.
unfoldable pub hashed_fields : SignatureFields → ℕ → Bytes → Bytes
hashed_fields s hash_id hashed_subpackets =
    let n = length hashed_subpackets in
    u8 s.version
    ∷ u8 s.sig_type
    ∷ u8 s.pub_key_algo
    ∷ u8 hash_id
    ∷ u8 (n / 2 ^ 8)
    ∷ u8 n
    ∷ hashed_subpackets

-- `buildHashSuffix`
unfoldable pub build_hash_suffix : SignatureFields → Bytes → Result SignatureFields
build_hash_suffix s hashed_subpackets = elim (hash_octet s.version s.hash) [
  | none ↦ err (invalid_argument "hash cannot be represented in OpenPGP")
  | some hash_id ↦ ok (record s {
    hash_suffix =
        hashed_fields s hash_id hashed_subpackets
        ++ suffix_trailer s.version (6 + length hashed_subpackets);
  })
]

-- What the metadata adds: the format, the length of a file name cut to 255 bytes, the whole file name,
-- and the time.
unfoldable pub metadata_octets : Option LiteralData → Bytes
metadata_octets none = 0 ∷ 0 ∷ put_be_word32 0
metadata_octets (some lit) =
    lit.format ∷ u8 (length (take 255 lit.file_name)) ∷ (lit.file_name ++ put_be_word32 lit.time)

-- `AddMetadataToHashSuffix`: it panics on a suffix that is shorter than it says.
unfoldable pub add_metadata : SignatureFields → Result SignatureFields
add_metadata s =
    let size = length s.hash_suffix in
    let l = be_uint64 (drop (size - 8) s.hash_suffix) in
    let suffix = take l s.hash_suffix ++ metadata_octets s.metadata in
    if not (s.version == 5) || not (ltb s.sig_type 2)
    then ok s
    else (panic_if (ltb size 8 || ltb size l)
        >> ok (record s { hash_suffix = suffix ++ (0x05 ∷ 0xff ∷ put_be_uint64 (length suffix)) }))

-- `signPrepareHash`, where the hash was given `signed` and `sum` is its digest.
unfoldable pub sign_prepare_hash :
    (Bytes → Bytes) → Bytes → SignatureFields → Result (SignatureFields × Bytes)
sign_prepare_hash sum signed s = do
  built ← build_hash_suffix s (serialize_area s.out_subpackets true)
  ready ← (if s.version == 5 && ltb s.sig_type 2 then add_metadata built else ok built)
  let digest = sum (signed ++ ready.hash_suffix)
  ok (
    record ready { hash_tag = take 2 digest ++ drop (length (take 2 digest)) ready.hash_tag },
    digest,
  )
