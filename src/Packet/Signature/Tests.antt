-- ===== src/Packet/Signature/Tests.antt =====
-- A signature with a notation and key flags.
use go_crypto.Base.{
  ◌+◌, ◌<◌, ◌^◌, true, false, none, some, List, [], ◌∷◌, ◌++◌, length, Bytes, Result, ok, err, eof,
  ◌≡◌, refl, arith,
}
use go_crypto.Encoding.Mpi.{Mpi, new_mpi, strip_zeros}
use go_crypto.Encoding.Mpi.Laws.{new_mpi-IsMpi}
use go_crypto.S2k.Hash.{sha256, hash_to_hash_id_with_sha1}
use go_crypto.Packet.SignatureArea.{
  OutputSubpacket, serialize_area, is_in, serialize_subpacket_length, type_octet,
}
use go_crypto.Packet.Signature.{SignatureFields, Signature, new_signature, no_flags, no_values}
use go_crypto.Packet.Signature.Body.{serialize_body, numbers, body_length}
use go_crypto.Packet.Signature.Build.{
  field_parts, join, key_id_part, optional_part, listed_part, flags_part, flags_octet,
  notation_parts, features_part, features_octet, trust_part, primary_part, suites_octets,
  build_subpackets, embedded_part, unix_seconds, lifetime,
}
use go_crypto.Packet.Signature.HashSuffix.{hash_octet, hashed_fields, suffix_trailer}
use go_crypto.Base.Words.{put_be_word32}
use go_crypto.Packet.Signature.Notations.{get_data}
use go_crypto.Packet.Signature.Parse.{parse_with, parse_signature, can_sign, number_count}
use go_crypto.Packet.Signature.Sign.{SigningKey, sign}
use go_crypto.Packet.Signature.Ends.{Ends}
use go_crypto.Packet.Signature.ParseEnds.{Ends-parse_signature}
use go_crypto.Packet.Signature.Length.{length-serialize_body}
use go_crypto.Packet.Signature.RoundTrip.{IsBuildable, read_back}
use go_crypto.Packet.Signature.Signed.{IsSigner, with_issuer, signed_fields, parse_with-sign}

abbrev fingerprint : Bytes
fingerprint =
    1 ∷ 2 ∷ 3 ∷ 4 ∷ 5 ∷ 6 ∷ 7 ∷ 8 ∷ 9 ∷ 10 ∷ 11 ∷ 12 ∷ 13 ∷ 14 ∷ 15 ∷ 16 ∷ 17 ∷ 18 ∷ 19 ∷ 20 ∷ []

abbrev numbers_of : Bytes → List Mpi
numbers_of digest = new_mpi (5 ∷ 6 ∷ []) ∷ []

abbrev key : SigningKey
key = record {
  is_dummy = false;
  version = 4;
  algo = 1;
  fingerprint = fingerprint;
  sign_digest = λ digest. some (numbers_of digest);
}

abbrev fields : SignatureFields
fields = record (new_signature 4 0x13 1 sha256) {
  creation_time = some 1700000000;
  key_lifetime_secs = some 3600;
  is_primary_id = some true;
  preferred_symmetric = 9 ∷ 7 ∷ [];
  notations =
      record { name = 97 ∷ []; value = 98 ∷ 99 ∷ []; is_critical = false; is_human_readable = true }
      ∷ [];
  flags = record no_flags { flags_valid = true; certify = true; signing = true };
  seipd_v1 = true;
}

abbrev parts : List OutputSubpacket
parts = join (field_parts 4 (with_issuer key fields)) ++ []

key-IsSigner : IsSigner key numbers_of
unfolding can_sign number_count new_mpi strip_zeros
key-IsSigner = record {
  real = refl;
  known = refl;
  signs = refl;
  answers = λ digest. refl;
  whole = λ digest. (new_mpi-IsMpi (5 ∷ 6 ∷ []) (omega arith), tt);
  count = λ digest. refl;
}

fields-IsBuildable : IsBuildable 4 fingerprint (with_issuer key fields)
unfolding unix_seconds lifetime
fields-IsBuildable = record {
  created = omega arith;
  key_id = tt;
  issuer = omega arith;
  given = refl;
  fits = refl;
  sig_seconds = tt;
  key_seconds = omega arith;
  short_notations = ((omega arith, omega arith), tt);
  level = omega arith;
  amount = omega arith;
  reason = tt;
}

built : build_subpackets 4 (with_issuer key fields, none) ≡ ok parts
unfolding build_subpackets embedded_part
built = refl

short : length (serialize_area parts true) + 6 < 2 ^ 16
unfolding serialize_area is_in serialize_subpacket_length type_octet get_data field_parts join
    key_id_part optional_part listed_part flags_part flags_octet notation_parts features_part
    features_octet trust_part primary_part suites_octets lifetime put_be_word32
short = omega arith

abbrev no_parser : Bytes → Result Signature
no_parser bs = err eof

parse_with-sign_example :
    let s' : SignatureFields =
      signed_fields (λ bs. length bs ∷ []) (1 ∷ 2 ∷ []) key numbers_of 8 parts fields in
    let fresh = new_signature 4 0x13 1 sha256 in
    (body : Bytes) × (sign (λ bs. length bs ∷ []) (1 ∷ 2 ∷ []) key (fields, none) ≡ ok (s', none))
    × (serialize_body s' ≡ ok body)
    × (parse_with no_parser (body ++ 7 ∷ [])
        ≡ ok (
          (
            record (read_back 4 fingerprint fields parts fresh) {
              hash_suffix = s'.hash_suffix;
              hash_tag = s'.hash_tag;
              values = s'.values;
            },
            none,
          ),
          7 ∷ [],
        ))
unfolding hash_octet hash_to_hash_id_with_sha1
parse_with-sign_example =
    parse_with-sign (λ bs. length bs ∷ []) no_parser (1 ∷ 2 ∷ []) (7 ∷ []) key numbers_of 8 parts
      fields none none key-IsSigner fields-IsBuildable built refl refl (omega arith) refl refl refl
      short tt

-- A version, a type and an algorithm, and no more.
Ends-parse_signature_example : Ends (parse_signature 4 (4 ∷ 19 ∷ 1 ∷ []))
Ends-parse_signature_example = Ends-parse_signature 4 (4 ∷ 19 ∷ 1 ∷ []) (omega arith)

-- A signature of a document with the metadata "b", "", 0.
abbrev document : SignatureFields
document =
    let s = new_signature 5 0 1 sha256 in
    record s {
      hash_suffix =
          hashed_fields s 8 (2 ∷ []) ++ ((98 ∷ 0 ∷ 0 ∷ 0 ∷ 0 ∷ 0 ∷ []) ++ suffix_trailer 5 13);
      values = record no_values { rsa_signature = some (new_mpi (5 ∷ 6 ∷ [])) };
    }

length-serialize_body_example :
    (body : Bytes) × (serialize_body document ≡ ok body)
    × (body_length document (new_mpi (5 ∷ 6 ∷ []) ∷ []) ≡ length body + 6)
unfolding numbers new_mpi strip_zeros hashed_fields
length-serialize_body_example =
    length-serialize_body document 8 13 (2 ∷ []) (98 ∷ 0 ∷ 0 ∷ 0 ∷ 0 ∷ 0 ∷ [])
      (new_mpi (5 ∷ 6 ∷ []) ∷ []) refl (omega arith) refl refl
      (new_mpi-IsMpi (5 ∷ 6 ∷ []) (omega arith), tt)
