-- ===== src/Packet/OnePass/Laws.antt =====
-- One-pass signatures are read as they were written.
use go_crypto.Base.{
  ℕ, ◌^◌, ◌<◌, Bool, true, false, not, if◌then◌else◌, some, ◌++◌, ok, ◌==◌, ◌≡◌, refl, arith,
}
use go_crypto.Base.Words.{u8, put_be_uint64, be_uint64-put_be_uint64}
use go_crypto.Packet.Framing.Header.{serialize_header}
use go_crypto.Packet.Framing.Length.{read_full_packet}
use go_crypto.Packet.OnePass.{
  OnePassSignature, parse_fields, parse_one_pass, one_pass_body, serialize_one_pass,
}
use go_crypto.S2k.Hash.{
  hash_to_hash_id_with_sha1, hash_id_to_hash_with_sha1,
  hash_id_to_hash_with_sha1-hash_to_hash_id_with_sha1,
}

flag_back : (b : Bool) → not ((if b then 1 else 0) == 0) ≡ b
flag_back true = refl
flag_back false = refl

parse_one_pass_lem :
    (ops : OnePassSignature) (id : ℕ)
    → hash_to_hash_id_with_sha1 ops.hash ≡ some id
    → ops.sig_type < 256
    → ops.pub_key_algo < 256
    → ops.key_id < 2 ^ 64
    → parse_one_pass (one_pass_body ops id) ≡ (ok tt, ops)
unfolding parse_one_pass parse_fields one_pass_body read_full_packet put_be_uint64
parse_one_pass_lem ops id e t a k =
    let found : hash_id_to_hash_with_sha1 id ≡ some ops.hash =
      (hash_id_to_hash_with_sha1-hash_to_hash_id_with_sha1 id ops.hash e).0 in
    let type_back : u8 ops.sig_type ≡ ops.sig_type = omega (arith, t) in
    let algo_back : u8 ops.pub_key_algo ≡ ops.pub_key_algo = omega (arith, a) in
    let key_back = be_uint64-put_be_uint64 ops.key_id k in
    rw (parse_one_pass, parse_fields, found, type_back, algo_back, key_back, flag_back ops.is_last)
      refl

-- A one-pass signature whose hash function has an identifier, SHA-1 included, and whose type and
-- algorithm are octets and key id is below 2 ^ 64 is serialized as a header of tag 4 and length 13
-- and a body of those fields, and parse of that body gives it back without an error.
pub parse_one_pass-serialize_one_pass :
    (ops : OnePassSignature) (id : ℕ)
    → hash_to_hash_id_with_sha1 ops.hash ≡ some id
    → ops.sig_type < 256
    → ops.pub_key_algo < 256
    → ops.key_id < 2 ^ 64
    → (serialize_one_pass ops ≡ ok (serialize_header 4 13 ++ one_pass_body ops id))
      × (parse_one_pass (one_pass_body ops id) ≡ (ok tt, ops))
unfolding serialize_one_pass serialize_header
parse_one_pass-serialize_one_pass ops id e t a k =
    (rw (serialize_one_pass, e) refl, parse_one_pass_lem ops id e t a k)
