-- ===== src/Packet/Signature/Length.antt =====
-- The length that `Serialize` puts into the header, and the length of what it writes.
use go_crypto.Base.{
  ℕ, ◌+◌, ◌^◌, ◌<◌, false, Bool-cases, inl, inr, List, [], ◌∷◌, ◌++◌, length, Bytes, ok, All, ◌==◌,
  if◌then◌else◌, ◌≡◌, refl, ap, arith, length-append,
}
use go_crypto.Base.Words.{put_be_uint64, put_be_word32}
use go_crypto.Encoding.Mpi.{Mpi, encoded_bytes, encoded_length}
use go_crypto.Encoding.Mpi.Laws.{IsMpi}
use go_crypto.Packet.SignatureArea.{subpackets_length}
use go_crypto.Packet.SignatureArea.Laws.{length-serialize_area}
use go_crypto.Packet.Signature.{SignatureFields}
use go_crypto.Packet.Signature.Body.{
  numbers, numbers_bytes, numbers_length, unhashed_area, serialize_body, body_length,
}
use go_crypto.Packet.Signature.HashSuffix.{hashed_fields, suffix_trailer}
use go_crypto.Packet.Signature.Whole.{fields_written-hashed_fields}

length-numbers_bytes :
    (ms : List Mpi) → All IsMpi ms → length (numbers_bytes ms) ≡ numbers_length ms
unfolding numbers_bytes numbers_length encoded_bytes encoded_length
length-numbers_bytes [] h = refl
length-numbers_bytes (m ∷ ms) (h, hs) = omega (
  arith,
  length-append (encoded_bytes m) (numbers_bytes ms),
  length-numbers_bytes ms hs,
  h.bits_lt,
  h.counts,
)

length-suffix_trailer :
    (version n : ℕ) → length (suffix_trailer version n) ≡ (if version == 5 then 10 else 6)
unfolding suffix_trailer put_be_uint64 put_be_word32
length-suffix_trailer version n = elim (Bool-cases (version == 5)) [
  | inl e ↦ rw e refl
  | inr e ↦ rw e refl
]

-- A signature whose hashed area is shorter than 2 ^ 16 - 6 bytes, whose hash tag has two bytes and
-- whose numbers fit has a body, and the length that Serialize puts into its header is the length of
-- the body and of what stands between the hashed fields and the trailer of the hash suffix, which is
-- metadata where it is hashed.
pub length-serialize_body :
    (s : SignatureFields) (id n : ℕ) (hashed metadata : Bytes) (ms : List Mpi)
    → s.hash_suffix ≡ hashed_fields s id hashed ++ (metadata ++ suffix_trailer s.version n)
    → length hashed + 6 < 2 ^ 16
    → length s.hash_tag ≡ 2
    → numbers s.pub_key_algo s.values ≡ ok ms
    → All IsMpi ms
    → (body : Bytes) × (serialize_body s ≡ ok body)
      × (body_length s ms ≡ length body + length metadata)
unfolding serialize_body body_length unhashed_area
length-serialize_body s id n hashed metadata ms suffix small tag known whole =
    let fields = hashed_fields s id hashed in
    let trailer = metadata ++ suffix_trailer s.version n in
    let unhashed = unhashed_area s.out_subpackets in
    let tail : Bytes = s.hash_tag ++ numbers_bytes ms in
    let written : serialize_body s ≡ ok (fields ++ (unhashed ++ tail)) =
      simp (suffix, fields_written-hashed_fields s id hashed trailer small, known) refl in
    let size : length unhashed ≡ 2 + subpackets_length s.out_subpackets false =
      omega (arith, length-serialize_area s.out_subpackets false) in
    let suffix_size : length s.hash_suffix
        ≡ length fields + (length metadata + length (suffix_trailer s.version n)) =
      omega (
        arith,
        ap length suffix,
        length-append fields trailer,
        length-append metadata (suffix_trailer s.version n),
      ) in
    let body_size : length (fields ++ (unhashed ++ tail))
        ≡ length fields + (length unhashed + (2 + numbers_length ms)) =
      omega (
        arith,
        length-append fields (unhashed ++ tail),
        length-append unhashed tail,
        length-append s.hash_tag (numbers_bytes ms),
        length-numbers_bytes ms whole,
        tag,
      ) in
    (
      _,
      written,
      elim (Bool-cases (s.version == 5)) [
        | inl e ↦
            let trailer_size = rw e at (length-suffix_trailer s.version n) in
            rw e (omega (arith, size, suffix_size, body_size, trailer_size))
        | inr e ↦
            let trailer_size = rw e at (length-suffix_trailer s.version n) in
            rw e (omega (arith, size, suffix_size, body_size, trailer_size))
      ],
    )
