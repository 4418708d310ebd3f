-- ===== src/Packet/OnePass.antt =====
-- openpgp/packet/one_pass_signature.go
pub mod Laws
use go_crypto.Base.{
  ℕ, Bool, true, false, not, Option, none, some, [], ◌∷◌, ◌++◌, take, drop, get_or, Bytes, Result,
  ok, err, panic, stuck, unsupported, ◌>>=◌, ◌==◌, if◌then◌else◌,
}
use go_crypto.Base.Words.{u8, be_uint64, put_be_uint64}
use go_crypto.Packet.Framing.Header.{serialize_header}
use go_crypto.Packet.Framing.Length.{read_full_packet}
use go_crypto.S2k.Hash.{Hash, other, hash_id_to_hash_with_sha1, hash_to_hash_id_with_sha1}

-- `OnePassSignature`
pub record OnePassSignature : Type 0 where
  pub sig_type : ℕ
  pub hash : Hash
  pub pub_key_algo : ℕ
  pub key_id : ℕ
  pub is_last : Bool

abbrev pub one_pass_signature_version : ℕ
one_pass_signature_version = 3

-- `new(OnePassSignature)`
abbrev pub zero_signature : OnePassSignature
zero_signature = record {
  sig_type = 0;
  hash = other 0;
  pub_key_algo = 0;
  key_id = 0;
  is_last = false;
}

-- The fields behind the version, which is no reason to stop: its error is returned at the end.
unfoldable pub parse_fields : Bytes → Result (Unit {0}) × OnePassSignature
parse_fields buf =
    let checked =
      if get_or buf 0 0 == one_pass_signature_version
      then ok tt
      else err (unsupported "one-pass-signature packet version") in
    elim (hash_id_to_hash_with_sha1 (get_or buf 2 0)) [
      | none ↦ (err (unsupported "hash function"), zero_signature)
      | some h ↦ (
        checked,
        record {
          sig_type = get_or buf 1 0;
          hash = h;
          pub_key_algo = get_or buf 3 0;
          key_id = be_uint64 (take 8 (drop 4 buf));
          is_last = not (get_or buf 12 0 == 0);
        },
      )
    ]

-- `OnePassSignature.parse`: the error, and the packet as it is left.
unfoldable pub parse_one_pass : Bytes → Result (Unit {0}) × OnePassSignature
parse_one_pass r = elim (read_full_packet 13 r) [
  | ok (buf, rest) ↦ parse_fields buf
  | err e ↦ (err e, zero_signature)
  | panic ↦ (panic, zero_signature)
  | stuck ↦ (stuck, zero_signature)
]

-- The 13 bytes of the body.
unfoldable pub one_pass_body : OnePassSignature → ℕ → Bytes
one_pass_body ops hash_id =
    one_pass_signature_version
    ∷ u8 ops.sig_type
    ∷ hash_id
    ∷ u8 ops.pub_key_algo
    ∷ (put_be_uint64 ops.key_id ++ (if ops.is_last then 1 else 0) ∷ [])

-- `OnePassSignature.Serialize`
unfoldable pub serialize_one_pass : OnePassSignature → Result Bytes
serialize_one_pass ops = elim (hash_to_hash_id_with_sha1 ops.hash) [
  | none ↦ err (unsupported "hash type")
  | some id ↦ ok (serialize_header 4 13 ++ one_pass_body ops id)
]
