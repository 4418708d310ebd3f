-- ===== src/Packet/Signature/Whole.antt =====
-- A signature is parsed as it was written.
use go_crypto.Base.{
  ℕ, ◌+◌, ◌*◌, ◌/◌, ◌^◌, ◌<◌, true, false, Bool-cases, inl, inr, Option, none, some, List, [], ◌∷◌,
  ◌++◌, length, Bytes, Result, ok, All, ◌==◌, ltb, not, ◌&&◌, ◌||◌, ◌>>=◌, ◌≡◌, refl, ap, arith,
  length-append, append_assoc, take-append,
}
use go_crypto.Base.Words.{u8, u16}
use go_crypto.Encoding.Mpi.{Mpi, encoded_bytes}
use go_crypto.Encoding.Mpi.Laws.{IsMpi, read_from-encoded_bytes}
use go_crypto.Packet.Framing.Length.Laws.{read_full_packet-append}
use go_crypto.S2k.Hash.{
  Hash, hash_id_lem, hash_id_to_hash, hash_to_hash_id,
  hash_id_to_hash_with_sha1-hash_to_hash_id_with_sha1,
}
use go_crypto.Packet.Signature.Hashed.{IsHashed, is_in-false}
use go_crypto.Packet.Signature.Subpacket.{parse_subpackets, subpackets_loop}
use go_crypto.Packet.SignatureArea.{OutputSubpacket, serialize_area, subpackets_length}
use go_crypto.Packet.Signature.{SignatureFields, SignatureValues, Signature, Sig, new_signature}
use go_crypto.Packet.Signature.Body.{numbers, numbers_bytes, fields_written, put_values}
use go_crypto.Packet.Signature.HashSuffix.{
  build_hash_suffix, hashed_fields, suffix_trailer, hash_octet,
}
use go_crypto.Packet.Signature.Parse.{
  read_numbers, number_count, parse_with, parse_unhashed, can_sign, octet_hash, known_hash,
}

read_numbers-numbers_bytes :
    (ms : List Mpi) (rest : Bytes)
    → All IsMpi ms
    → read_numbers (length ms) (numbers_bytes ms ++ rest) ≡ ok (ms, rest)
unfolding read_numbers numbers_bytes
read_numbers-numbers_bytes [] rest h = refl
read_numbers-numbers_bytes (m ∷ ms) rest (h, hs) =
    rw
      (
        append_assoc (encoded_bytes m) (numbers_bytes ms) rest,
        read_from-encoded_bytes m (numbers_bytes ms ++ rest) h,
        read_numbers-numbers_bytes ms rest hs,
      )
      refl

-- The numbers that are written of what an algorithm has put in are those.
pub numbers-put_values :
    (algo : ℕ) (ms : List Mpi) (v : SignatureValues)
    → can_sign algo ≡ true
    → length ms ≡ number_count algo
    → numbers algo (put_values algo ms v) ≡ ok ms
unfolding numbers put_values can_sign number_count
numbers-put_values algo [] v known h = ground (arith, h)
numbers-put_values algo (a ∷ []) v known h = ground (arith, h)
numbers-put_values algo (a ∷ b ∷ []) v known h = ground (arith, h, known)
numbers-put_values algo (a ∷ b ∷ c ∷ ms) v known h = ground (arith, h)

-- The fields in front of the trailer are written, unless their length does not fit.
pub fields_written-hashed_fields :
    (s : SignatureFields) (id : ℕ) (hashed trailer : Bytes)
    → length hashed + 6 < 2 ^ 16
    → fields_written (hashed_fields s id hashed ++ trailer) ≡ ok (hashed_fields s id hashed)
unfolding fields_written hashed_fields
fields_written-hashed_fields s id hashed trailer small =
    let n = length hashed in
    let size = length-append (hashed_fields s id hashed) trailer in
    let whole : u16 (6 + (u8 (n / 2 ^ 8) * 2 ^ 8 + u8 n)) ≡ length (hashed_fields s id hashed) =
      omega (arith, small) in
    let long : ltb (length (hashed_fields s id hashed ++ trailer)) 6 ≡ false =
      ground (arith, size) in
    let longer : ltb (length (hashed_fields s id hashed ++ trailer))
          (length (hashed_fields s id hashed))
        ≡ false =
      ground (arith, size) in
    rw (fields_written, whole, long, longer, take-append _ (hashed_fields s id hashed) trailer refl)
      refl

hash_octet_new :
    (id : ℕ) (hash : Hash)
    → hash_to_hash_id hash ≡ some id
    → (hash_id_to_hash id ≡ some hash) × (id < 256)
unfolding hash_to_hash_id
hash_octet_new id hash h = ((hash_id_lem id hash).1 h, ground (arith, h))

octet_hash-hash_octet :
    (version id : ℕ) (hash : Hash)
    → hash_octet version hash ≡ some id
    → (octet_hash version id ≡ some hash) × (id < 256)
unfolding octet_hash hash_octet
octet_hash-hash_octet version id hash h = elim (Bool-cases (ltb version 5)) [
  | inl old ↦ rw old (hash_id_to_hash_with_sha1-hash_to_hash_id_with_sha1 id hash (rw old at h))
  | inr new ↦ rw new (hash_octet_new id hash (rw new at h))
]

-- The area that is not hashed is empty, since all that is built is hashed.
pub unhashed_none :
    (ps : List OutputSubpacket)
    → All IsHashed ps
    → (serialize_area ps false ≡ []) × (subpackets_length ps false ≡ 0)
unfolding serialize_area subpackets_length
unhashed_none [] h = (refl, refl)
unhashed_none (p ∷ ps) (h, hs) = let (a, b) = unhashed_none ps hs in rw (is_in-false p h.0) (a, b)

parse_nothing :
    (pe : Bytes → Result Signature) (s : SignatureFields) (emb : Option Signature) (t : ℕ)
    → s.creation_time ≡ some t
    → parse_subpackets pe (s, emb) [] false ≡ ok (s, emb)
unfolding parse_subpackets subpackets_loop
parse_nothing pe s emb t created = simp created refl

pub parse_unhashed_lem :
    (pe : Bytes → Result Signature) (s : SignatureFields) (emb : Option Signature) (t : ℕ)
    (tag rest : Bytes) (ms : List Mpi)
    → s.creation_time ≡ some t
    → length tag ≡ 2
    → All IsMpi ms
    → length ms ≡ number_count s.pub_key_algo
    → parse_unhashed pe (s, emb) (0 ∷ 0 ∷ (tag ++ (numbers_bytes ms ++ rest)))
      ≡ ok
          ((record s { hash_tag = tag; values = put_values s.pub_key_algo ms s.values }, emb), rest)
unfolding parse_unhashed
parse_unhashed_lem pe s emb t tag rest ms created size all count =
    rw
      (
        read_full_packet-append 2 (0 ∷ 0 ∷ []) (tag ++ (numbers_bytes ms ++ rest)) refl,
        read_full_packet-append 0 [] (tag ++ (numbers_bytes ms ++ rest)) refl,
        parse_nothing pe s emb t created,
        read_full_packet-append 2 tag (numbers_bytes ms ++ rest) size,
        ← count,
        read_numbers-numbers_bytes ms rest all,
      )
      refl

known_hash-octet_hash :
    (version id : ℕ) (hash : Hash)
    → hash_octet version hash ≡ some id
    → known_hash (octet_hash version id) ≡ ok hash
unfolding known_hash
known_hash-octet_hash version id hash h = rw (octet_hash-hash_octet version id hash h).0 refl

pub build_hash_suffix_lem :
    (s : SignatureFields) (id : ℕ) (hashed : Bytes)
    → hash_octet s.version s.hash ≡ some id
    → build_hash_suffix s hashed
      ≡ ok (record s {
        hash_suffix = hashed_fields s id hashed ++ suffix_trailer s.version (6 + length hashed);
      })
unfolding build_hash_suffix hashed_fields
build_hash_suffix_lem s id hashed h = rw (build_hash_suffix, h) refl

can_sign_small : (algo : ℕ) → can_sign algo ≡ true → algo < 256
unfolding can_sign
can_sign_small algo h = ground (arith, h)

-- The header of a signature and its hashed area are parsed as they are hashed.
pub parse_with-hashed_fields :
    (pe : Bytes → Result Signature) (version sig_type algo id : ℕ) (hash : Hash) (hashed r : Bytes)
    (sig : Sig)
    → (version == 4 || version == 5) ≡ true
    → sig_type < 256
    → can_sign algo ≡ true
    → hash_octet version hash ≡ some id
    → length hashed < 2 ^ 16
    → let s : SignatureFields = new_signature version sig_type algo hash in
      let fresh : SignatureFields = record s {
        hash_suffix = hashed_fields s id hashed ++ suffix_trailer version (6 + length hashed);
      } in
      parse_subpackets pe (fresh, none) hashed true ≡ ok sig
      → parse_with pe (hashed_fields s id hashed ++ r) ≡ parse_unhashed pe sig r
unfolding parse_with hashed_fields
parse_with-hashed_fields pe version sig_type algo id hash hashed r sig known small signs h short
      parsed =
    let s : SignatureFields = new_signature version sig_type algo hash in
    let n = length hashed in
    let head : Bytes = u8 sig_type ∷ u8 algo ∷ u8 id ∷ u8 (n / 2 ^ 8) ∷ u8 n ∷ [] in
    let byte : u8 version ≡ version = ground (arith, known) in
    let byte1 : u8 sig_type ≡ sig_type = omega (arith, small) in
    let byte2 : u8 algo ≡ algo = omega (arith, can_sign_small algo signs) in
    let byte3 : u8 id ≡ id = omega (arith, (octet_hash-hash_octet version id hash h).1) in
    let size : u8 (n / 2 ^ 8) * 2 ^ 8 + u8 n ≡ n = omega (arith, short) in
    let supported : (not (version == 4) && not (version == 5)) ≡ false = ground (arith, known) in
    rw
      (
        read_full_packet-append 1 (u8 version ∷ []) (head ++ (hashed ++ r)) refl,
        byte,
        supported,
        read_full_packet-append 5 head (hashed ++ r) refl,
        byte2,
        signs,
        byte3,
        known_hash-octet_hash version id hash h,
        size,
        read_full_packet-append n hashed r refl,
        byte1,
        build_hash_suffix_lem s id hashed h,
      )
      (ap (λ result. result >>= λ sig'. parse_unhashed pe sig' r) parsed)
