-- ===== src/Packet/Signature/Signed.antt =====
-- What `Sign` makes of a signature, `serializeBody` writes and `parse` reads.
use go_crypto.Base.{
  ℕ, ◌+◌, ◌^◌, ◌<◌, true, false, Option, some, List, [], ◌∷◌, ◌++◌, length, take, drop, Bytes,
  Result, ok, All, ◌==◌, ltb, ◌&&◌, ◌||◌, ◌≡◌, refl, sym, ap, ap₂, subst, ◌∙◌, arith, length-append,
  length-take, length-drop, append_assoc,
}
use go_crypto.Encoding.Mpi.{Mpi}
use go_crypto.Encoding.Mpi.Laws.{IsMpi}
use go_crypto.Packet.SignatureArea.{OutputSubpacket, serialize_area, subpackets_length}
use go_crypto.Packet.Signature.{SignatureFields, no_values, Signature, new_signature}
use go_crypto.Packet.Signature.Body.{
  numbers, numbers_bytes, unhashed_area, serialize_body, put_values,
}
use go_crypto.Packet.Signature.Build.{build_subpackets}
use go_crypto.Packet.Signature.HashSuffix.{
  sign_prepare_hash, hash_octet, hashed_fields, suffix_trailer,
}
use go_crypto.Packet.Signature.Parse.{number_count, parse_with, can_sign}
use go_crypto.Packet.Signature.Sign.{SigningKey, sign, signed_values}
use go_crypto.Packet.Signature.RoundTrip.{
  IsBuildable, read_back, CrossRead, parse_subpackets-build_subpackets, build_subpackets-IsHashed,
}
use go_crypto.Packet.Signature.Whole.{
  parse_with-hashed_fields, fields_written-hashed_fields, numbers-put_values, unhashed_none,
  parse_unhashed_lem, build_hash_suffix_lem,
}

-- A key that signs every digest with the numbers of its algorithm.
pub record IsSigner (key : SigningKey) (numbers_of : Bytes → List Mpi) : Type 0 where
  pub real : key.is_dummy ≡ false
  pub known : (key.version == 4 || key.version == 5) ≡ true
  pub signs : can_sign key.algo ≡ true
  pub answers : (digest : Bytes) → key.sign_digest digest ≡ some (numbers_of digest)
  pub whole : (digest : Bytes) → All IsMpi (numbers_of digest)
  pub count : (digest : Bytes) → length (numbers_of digest) ≡ number_count key.algo

-- The fields that `Sign` sets first.
abbrev pub with_issuer : SigningKey → SignatureFields → SignatureFields
with_issuer key s = record s { version = key.version; issuer_fingerprint = some key.fingerprint }

-- The signature that `Sign` makes with the subpackets `ps`, where the metadata is not hashed.
abbrev pub signed_fields :
    (Bytes → Bytes)
    → Bytes
    → SigningKey
    → (Bytes → List Mpi)
    → ℕ
    → List OutputSubpacket
    → SignatureFields
    → SignatureFields
signed_fields sum signed key numbers_of id ps s =
    let area = serialize_area ps true in
    let suffix =
      hashed_fields (with_issuer key s) id area ++ suffix_trailer key.version (6 + length area) in
    let digest = sum (signed ++ suffix) in
    record (with_issuer key s) {
      out_subpackets = ps;
      hash_suffix = suffix;
      hash_tag = take 2 digest ++ drop (length (take 2 digest)) s.hash_tag;
      values = put_values key.algo (numbers_of digest) s.values;
    }

sign-signed_fields :
    (sum : Bytes → Bytes) (signed : Bytes) (key : SigningKey) (numbers_of : Bytes → List Mpi)
    (id : ℕ) (ps : List OutputSubpacket) (s : SignatureFields) (emb : Option Signature)
    → IsSigner key numbers_of
    → build_subpackets key.version (with_issuer key s, emb) ≡ ok ps
    → hash_octet key.version s.hash ≡ some id
    → (key.version == 5 && ltb s.sig_type 2) ≡ false
    → sign sum signed key (s, emb) ≡ ok (signed_fields sum signed key numbers_of id ps s, emb)
unfolding sign sign_prepare_hash signed_values hashed_fields
sign-signed_fields sum signed key numbers_of id ps s emb signer built octet plain =
    rw
      (
        signer.real,
        built,
        build_hash_suffix_lem (record (with_issuer key s) { out_subpackets = ps }) id
            (serialize_area ps true) octet,
        plain,
        signer.signs,
        signer.answers,
      )
      refl

length-hash_tag :
    (digest tag : Bytes)
    → length tag ≡ 2
    → length (take 2 digest ++ drop (length (take 2 digest)) tag) ≡ 2
length-hash_tag digest tag h = omega (
  arith,
  length-append (take 2 digest) (drop (length (take 2 digest)) tag),
  length-drop (length (take 2 digest)) tag,
  length-take 2 digest,
  h,
)

-- The body of a signature whose subpackets are all hashed.
serialize_body_lem :
    (s : SignatureFields) (id : ℕ) (hashed trailer : Bytes) (ms : List Mpi)
    → s.hash_suffix ≡ hashed_fields s id hashed ++ trailer
    → length hashed + 6 < 2 ^ 16
    → numbers s.pub_key_algo s.values ≡ ok ms
    → serialize_area s.out_subpackets false ≡ []
    → subpackets_length s.out_subpackets false ≡ 0
    → serialize_body s ≡ ok (hashed_fields s id hashed ++ 0 ∷ 0 ∷ (s.hash_tag ++ numbers_bytes ms))
unfolding serialize_body unhashed_area
serialize_body_lem s id hashed trailer ms suffix small known none_there zero_length =
    simp
      (
        suffix,
        fields_written-hashed_fields s id hashed trailer small,
        known,
        none_there,
        zero_length,
      )
      refl

parse_with-read_back :
    (pe : Bytes → Result Signature) (key : SigningKey) (id : ℕ) (ps : List OutputSubpacket)
    (s : SignatureFields) (emb emb' : Option Signature) (tag rest : Bytes) (ms : List Mpi)
    → (key.version == 4 || key.version == 5) ≡ true
    → can_sign s.pub_key_algo ≡ true
    → IsBuildable key.version key.fingerprint (with_issuer key s)
    → build_subpackets key.version (with_issuer key s, emb) ≡ ok ps
    → hash_octet key.version s.hash ≡ some id
    → s.sig_type < 256
    → length tag ≡ 2
    → All IsMpi ms
    → length ms ≡ number_count s.pub_key_algo
    → length (serialize_area ps true) + 6 < 2 ^ 16
    → CrossRead pe emb emb'
    → let area = serialize_area ps true in
      let fresh : SignatureFields = new_signature key.version s.sig_type s.pub_key_algo s.hash in
      let fields = hashed_fields fresh id area in
      parse_with pe ((fields ++ 0 ∷ 0 ∷ (tag ++ numbers_bytes ms)) ++ rest)
      ≡ ok (
        (
          record (read_back key.version key.fingerprint s ps fresh) {
            hash_suffix = fields ++ suffix_trailer key.version (6 + length area);
            hash_tag = tag;
            values = put_values s.pub_key_algo ms no_values;
          },
          emb',
        ),
        rest,
      )
unfolding read_back
parse_with-read_back pe key id ps s emb emb' tag rest ms known signs buildable built octet small
      size all count short cross =
    let area = serialize_area ps true in
    let fresh : SignatureFields = new_signature key.version s.sig_type s.pub_key_algo s.hash in
    let fields = hashed_fields fresh id area in
    let suffix = fields ++ suffix_trailer key.version (6 + length area) in
    let parsed =
      parse_subpackets-build_subpackets pe key.version key.fingerprint (with_issuer key s) emb emb'
        s.sig_type s.pub_key_algo s.hash suffix ps buildable built (omega (arith, short)) cross in
    let back = read_back key.version key.fingerprint s ps (record fresh { hash_suffix = suffix }) in
    ap (parse_with pe) (
      append_assoc fields (0 ∷ 0 ∷ (tag ++ numbers_bytes ms)) rest
      ∙ ap (λ xs. fields ++ 0 ∷ 0 ∷ xs) (append_assoc tag (numbers_bytes ms) rest))
    ∙ parse_with-hashed_fields pe key.version s.sig_type s.pub_key_algo id s.hash area
        (0 ∷ 0 ∷ (tag ++ (numbers_bytes ms ++ rest))) (back, emb') known small signs octet
        (omega (arith, short)) parsed
    ∙ parse_unhashed_lem pe back emb' _ tag rest ms refl size all count

module _ (sum : Bytes → Bytes) (pe : Bytes → Result Signature) where
  -- A new signature whose fields fit what they are written to, of type below 256, signed by a key of
  -- version 4, or 5 where no metadata is hashed, that signs every digest with the numbers of its
  -- algorithm, and with a hashed area shorter than 2 ^ 16 - 6 bytes: Sign succeeds, serializeBody
  -- writes the result, and parse of that, before any rest, gives the fields that read_back says, the
  -- same hash suffix, hash tag and numbers, the embedded signature as its parser reads it, and
  -- leaves the rest.
  pub parse_with-sign :
      (signed rest : Bytes) (key : SigningKey) (numbers_of : Bytes → List Mpi) (id : ℕ)
      (ps : List OutputSubpacket) (s : SignatureFields) (emb emb' : Option Signature)
      → IsSigner key numbers_of
      → IsBuildable key.version key.fingerprint (with_issuer key s)
      → build_subpackets key.version (with_issuer key s, emb) ≡ ok ps
      → hash_octet key.version s.hash ≡ some id
      → (key.version == 5 && ltb s.sig_type 2) ≡ false
      → s.sig_type < 256
      → s.pub_key_algo ≡ key.algo
      → s.values ≡ no_values
      → length s.hash_tag ≡ 2
      → length (serialize_area ps true) + 6 < 2 ^ 16
      → CrossRead pe emb emb'
      → let s' : SignatureFields = signed_fields sum signed key numbers_of id ps s in
        let fresh = new_signature key.version s.sig_type s.pub_key_algo s.hash in
        (body : Bytes) × (sign sum signed key (s, emb) ≡ ok (s', emb))
        × (serialize_body s' ≡ ok body)
        × (parse_with pe (body ++ rest)
            ≡ ok (
              (
                record (read_back key.version key.fingerprint s ps fresh) {
                  hash_suffix = s'.hash_suffix;
                  hash_tag = s'.hash_tag;
                  values = s'.values;
                },
                emb',
              ),
              rest,
            ))
  unfolding hashed_fields
  parse_with-sign signed rest key numbers_of id ps s emb emb' signer buildable built octet plain
        small algo fresh_values tag short cross =
      let s' : SignatureFields = signed_fields sum signed key numbers_of id ps s in
      let area = serialize_area ps true in
      let digest : Bytes = sum (signed ++ s'.hash_suffix) in
      let ms = numbers_of digest in
      let known : numbers s.pub_key_algo (put_values key.algo ms s.values) ≡ ok ms =
        subst (λ (a : ℕ). numbers a (put_values key.algo ms s.values) ≡ ok ms) (sym algo)
          (numbers-put_values key.algo ms s.values signer.signs (signer.count digest)) in
      let count : length ms ≡ number_count s.pub_key_algo =
        subst (λ (a : ℕ). length ms ≡ number_count a) (sym algo) (signer.count digest) in
      let same : put_values s.pub_key_algo ms no_values ≡ s'.values =
        ap₂ (λ a v. put_values a ms v) algo (sym fresh_values) in
      let back =
        read_back key.version key.fingerprint s ps
          (new_signature key.version s.sig_type s.pub_key_algo s.hash) in
      let (no_area, no_length) =
        unhashed_none ps
          (build_subpackets-IsHashed pe key.version (with_issuer key s) emb emb' ps cross built) in
      let written =
        serialize_body_lem s' id area (suffix_trailer key.version (6 + length area)) ms refl short
          known no_area no_length in
      let read =
        parse_with-read_back pe key id ps s emb emb' s'.hash_tag rest ms signer.known
          (rw algo signer.signs) buildable built octet small (length-hash_tag digest s.hash_tag tag)
          (signer.whole digest) count short cross in
      (
        _,
        sign-signed_fields sum signed key numbers_of id ps s emb signer built octet plain,
        written,
        read
            ∙ ap
                (λ v. ok (
                  (
                    record back {
                      hash_suffix = s'.hash_suffix;
                      hash_tag = s'.hash_tag;
                      values = v;
                    },
                    emb',
                  ),
                  rest,
                ))
                same,
      )
