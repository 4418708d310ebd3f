-- ===== src/Packet/Signature/RoundTrip.antt =====
-- The subpackets of a signature are read back as they were built.
use go_crypto.Base.{
  ℕ, ◌+◌, ◌<◌, ◌^◌, true, Option, none, some, List, [], ◌∷◌, ◌++◌, length, Bytes, Result, ok, All,
  All-append, ◌==◌, >>=-eq-ok, if◌then◌else◌, ◌≡◌, refl, sym, ap, subst, ◌∙◌, arith, append-nil,
  append_assoc,
}
use go_crypto.S2k.Hash.{Hash}
use go_crypto.Packet.SignatureArea.{OutputSubpacket, serialize_area}
use go_crypto.Packet.Signature.{SignatureFields, Signature, new_signature, no_flags, of_signature}
use go_crypto.Packet.Signature.Body.{serialize_body}
use go_crypto.Packet.Signature.Build.{
  hashed_part, lifetime, unix_seconds, join, field_parts, embedded_part, build_subpackets,
}
use go_crypto.Packet.Signature.Subpacket.{parse_subpackets, apply_subpacket, parse_cross_signature}
use go_crypto.Packet.Signature.Split.{apply_all, subpackets_loop-serialize_area}
use go_crypto.Packet.Signature.Gives.{Given, with_raw, Gives, Gives-append, Gives-nil}
use go_crypto.Packet.Signature.Fields.{
  key_id_of, Gives-creation_time, Gives-key_id, Gives-signer_user_id, Gives-sig_lifetime,
  Gives-key_lifetime, Gives-regular_expression, Gives-issuer, Gives-primary,
}
use go_crypto.Packet.Signature.Lists.{
  Gives-preferred_symmetric, Gives-preferred_hash, Gives-preferred_compression, Gives-policy_uri,
  Gives-suites, Gives-revocation,
}
use go_crypto.Packet.Signature.Flags.{
  Gives-flags, Gives-features, Gives-trust, Gives-notations, IsNotation,
}
use go_crypto.Packet.Signature.Hashed.{
  IsHashed, field_parts-IsHashed, in_area-IsHashed, IsHashed-known,
}

-- A signature whose fields fit what they are written to, and whose fingerprint, `fingerprint`, is one
-- of the issuer's version.
pub record IsBuildable (issuer_version : ℕ) (fingerprint : Bytes) (s : SignatureFields)
    : Type 0 where
  pub created : unix_seconds s.creation_time < 2 ^ 32
  pub key_id : Given (λ n. n < 2 ^ 64) s.issuer_key_id
  pub issuer : issuer_version < 256
  pub given : s.issuer_fingerprint ≡ some fingerprint
  pub fits : length fingerprint ≡ (if issuer_version == 5 then 32 else 20)
  pub sig_seconds : Given (λ n. n < 2 ^ 32) (lifetime s.sig_lifetime_secs)
  pub key_seconds : Given (λ n. n < 2 ^ 32) (lifetime s.key_lifetime_secs)
  pub short_notations : All IsNotation s.notations
  pub level : s.trust_level < 256
  pub amount : s.trust_amount < 256
  pub reason : Given (λ n. n < 256) s.revocation_reason

-- What is read of the subpackets of `s` into a fresh signature: the fields of `s`, but for a lifetime
-- of 0, a user id that is not primary, and amounts, flags and texts that say nothing; the key id is
-- that of the fingerprint.
unfoldable pub read_back :
    ℕ → Bytes → SignatureFields → List OutputSubpacket → SignatureFields → SignatureFields
read_back issuer_version fingerprint s ps fresh = record fresh {
  creation_time = some (unix_seconds s.creation_time);
  raw_subpackets = ps;
  sig_lifetime_secs = lifetime s.sig_lifetime_secs;
  key_lifetime_secs = lifetime s.key_lifetime_secs;
  preferred_symmetric = s.preferred_symmetric;
  preferred_hash = s.preferred_hash;
  preferred_compression = s.preferred_compression;
  preferred_cipher_suites = s.preferred_cipher_suites;
  issuer_key_id = some (key_id_of issuer_version fingerprint);
  issuer_fingerprint = some fingerprint;
  signer_user_id = s.signer_user_id;
  is_primary_id = elim s.is_primary_id [ none ↦ none | some b ↦ if b then some true else none ];
  notations = s.notations;
  trust_level = s.trust_level;
  trust_amount = if s.trust_level == 0 then 0 else s.trust_amount;
  trust_regular_expression = s.trust_regular_expression;
  policy_uri = s.policy_uri;
  flags = if s.flags.flags_valid then s.flags else no_flags;
  revocation_reason = s.revocation_reason;
  revocation_reason_text = elim s.revocation_reason [
    | none ↦ []
    | some n ↦ s.revocation_reason_text
  ];
  seipd_v1 = s.seipd_v1;
  seipd_v2 = s.seipd_v2;
}

-- Lists put behind a first one, one after the other.
unfoldable pile : List OutputSubpacket → List (List OutputSubpacket) → List OutputSubpacket
pile acc [] = acc
pile acc (ps ∷ pss) = pile (acc ++ ps) pss

pile-join :
    (acc : List OutputSubpacket) (pss : List (List OutputSubpacket))
    → pile acc pss ≡ acc ++ join pss
unfolding pile join
pile-join acc [] = sym (append-nil acc)
pile-join acc (ps ∷ pss) = pile-join (acc ++ ps) pss ∙ append_assoc acc ps (join pss)

field_parts-Gives :
    (issuer_version : ℕ) (fingerprint : Bytes) (s : SignatureFields) (sig_type algo : ℕ)
    (hash : Hash) (suffix : Bytes)
    → IsBuildable issuer_version fingerprint s
    → let fresh : SignatureFields = record (new_signature s.version sig_type algo hash) {
      hash_suffix = suffix;
    } in
      let ps = join (field_parts issuer_version s) in
      Gives fresh ps (read_back issuer_version fingerprint s ps fresh)
unfolding field_parts read_back join pile
field_parts-Gives issuer_version fingerprint s sig_type algo hash suffix h =
    let fresh : SignatureFields = record (new_signature s.version sig_type algo hash) {
      hash_suffix = suffix;
    } in
    let pss = field_parts issuer_version s in
    let all : Gives fresh (join pss) (read_back issuer_version fingerprint s (pile [] pss) fresh) =
      Gives-append _ _ _ _ _ (Gives-creation_time fresh (unix_seconds s.creation_time) h.created) (
        Gives-append _ _ _ _ _ (Gives-key_id _ s.issuer_key_id h.key_id refl) (
          Gives-append _ _ _ _ _
            (Gives-issuer _ (s.version == 5) issuer_version s.issuer_fingerprint fingerprint h.given
              h.issuer h.fits)
            (Gives-append _ _ _ _ _ (Gives-signer_user_id _ s.signer_user_id refl) (
              Gives-append _ _ _ _ _
                (Gives-sig_lifetime _ (lifetime s.sig_lifetime_secs) h.sig_seconds refl)
                (Gives-append _ _ _ _ _ (Gives-flags _ s.flags refl) (
                  Gives-append _ _ _ _ _ (Gives-notations _ s.notations h.short_notations) (
                    Gives-append _ _ _ _ _ (Gives-features _ s.seipd_v1 s.seipd_v2 refl refl) (
                      Gives-append _ _ _ _ _
                        (Gives-trust _ s.trust_level s.trust_amount h.level h.amount refl refl)
                        (Gives-append _ _ _ _ _
                          (Gives-regular_expression _ s.trust_regular_expression refl)
                          (Gives-append _ _ _ _ _
                            (Gives-key_lifetime _ (lifetime s.key_lifetime_secs) h.key_seconds refl)
                            (Gives-append _ _ _ _ _ (Gives-primary _ s.is_primary_id refl) (
                              Gives-append _ _ _ _ _
                                (Gives-preferred_symmetric _ s.preferred_symmetric refl)
                                (Gives-append _ _ _ _ _
                                  (Gives-preferred_hash _ s.preferred_hash refl)
                                  (Gives-append _ _ _ _ _
                                    (Gives-preferred_compression _ s.preferred_compression refl)
                                    (Gives-append _ _ _ _ _ (Gives-policy_uri _ s.policy_uri refl) (
                                      Gives-append _ _ _ _ _
                                        (Gives-suites _ s.preferred_cipher_suites refl)
                                        (Gives-append _ _ _ _ _
                                          (Gives-revocation _ s.revocation_reason
                                            s.revocation_reason_text h.reason refl refl)
                                          (Gives-nil _)))))))))))))))))) in
    subst (λ raw. Gives fresh (join pss) (read_back issuer_version fingerprint s raw fresh))
      (pile-join [] pss) all

-- What the parser of embedded signatures makes of the bytes of the first one: the second, which is a
-- primary key binding.
abbrev pub CrossRead : (Bytes → Result Signature) → Option Signature → Option Signature → Type 0
CrossRead pe none none = Unit {0}
CrossRead pe (some e) (some e') =
    (contents : Bytes)
    → serialize_body (of_signature e).0 ≡ ok contents
    → (pe contents ≡ ok e') × ((of_signature e').0.sig_type ≡ 0x19)
CrossRead pe none (some e) = ⊥
CrossRead pe (some e) none = ⊥

module _ (pe : Bytes → Result Signature) where
  cross_part :
      (s : SignatureFields) (emb' : Signature) (contents : Bytes)
      → pe contents ≡ ok emb'
      → (of_signature emb').0.sig_type ≡ 0x19
      → let last : List OutputSubpacket = hashed_part 32 true contents ∷ [] in
        apply_all pe (s, none) last ≡ ok (with_raw s last, some emb')
  unfolding apply_all apply_subpacket parse_cross_signature
  cross_part s emb' contents h binding = rw (h, binding) refl

  embedded_part-CrossRead :
      (s : SignatureFields) (emb emb' : Option Signature) (last : List OutputSubpacket)
      → CrossRead pe emb emb'
      → embedded_part emb ≡ ok last
      → (apply_all pe (s, none) last ≡ ok (with_raw s last, emb')) × All IsHashed last
  unfolding embedded_part apply_all
  embedded_part-CrossRead s none none last h e =
      let same : [] ≡ last = cc in
      subst (λ l. (apply_all pe (s, none) l ≡ ok (with_raw s l, none)) × All IsHashed l) same
        (rw append-nil refl, tt)
  embedded_part-CrossRead s (some x) (some x') last h e =
      let (contents, written, last_eq) = >>=-eq-ok (serialize_body (of_signature x).0) _ e in
      let same : hashed_part 32 true contents ∷ [] ≡ last = cc in
      let (read, binding) = h contents written in
      subst (λ l. (apply_all pe (s, none) l ≡ ok (with_raw s l, some x')) × All IsHashed l) same
        (cross_part s x' contents read binding, ((refl, omega arith), tt))
  embedded_part-CrossRead s none (some x') last h e = elim h [ ]
  embedded_part-CrossRead s (some x) none last h e = elim h [ ]

  pub build_subpackets-IsHashed :
      (issuer_version : ℕ) (s : SignatureFields) (emb emb' : Option Signature)
      (ps : List OutputSubpacket)
      → CrossRead pe emb emb'
      → build_subpackets issuer_version (s, emb) ≡ ok ps
      → All IsHashed ps
  unfolding build_subpackets
  build_subpackets-IsHashed issuer_version s emb emb' ps cross built =
      let (last, part, is_all) = >>=-eq-ok (embedded_part emb) _ built in
      let whole : join (field_parts issuer_version s) ++ last ≡ ps = cc in
      subst (All IsHashed) whole (
        All-append IsHashed (join (field_parts issuer_version s)) last
          (field_parts-IsHashed issuer_version s)
          (embedded_part-CrossRead s emb emb' last cross part).1)

  -- The hashed area that is built of a signature is read into a fresh one.
  pub parse_subpackets-build_subpackets :
      (issuer_version : ℕ) (fingerprint : Bytes) (s : SignatureFields) (emb emb' : Option Signature)
      (sig_type algo : ℕ) (hash : Hash) (suffix : Bytes) (ps : List OutputSubpacket)
      → IsBuildable issuer_version fingerprint s
      → build_subpackets issuer_version (s, emb) ≡ ok ps
      → length (serialize_area ps true) + 6 < 2 ^ 32
      → CrossRead pe emb emb'
      → let fresh : SignatureFields = record (new_signature s.version sig_type algo hash) {
        hash_suffix = suffix;
      } in
        parse_subpackets pe (fresh, none) (serialize_area ps true) true
        ≡ ok (read_back issuer_version fingerprint s ps fresh, emb')
  unfolding parse_subpackets build_subpackets read_back
  parse_subpackets-build_subpackets issuer_version fingerprint s emb emb' sig_type algo hash suffix
        ps h built small cross =
      let fresh : SignatureFields = record (new_signature s.version sig_type algo hash) {
        hash_suffix = suffix;
      } in
      let front = join (field_parts issuer_version s) in
      let (last, part, is_all) = >>=-eq-ok (embedded_part emb) _ built in
      let whole : front ++ last ≡ ps = cc in
      let middle = read_back issuer_version fingerprint s front fresh in
      let (applied, last_hashed) = embedded_part-CrossRead middle emb emb' last cross part in
      let hashed = build_subpackets-IsHashed issuer_version s emb emb' ps cross built in
      let gives = field_parts-Gives issuer_version fingerprint s sig_type algo hash suffix h in
      let loop : apply_all pe (fresh, none) ps ≡ ok (with_raw middle last, emb') =
        ap (apply_all pe (fresh, none)) (sym whole) ∙ gives.gives pe none last ∙ applied in
      rw
        (
          subpackets_loop-serialize_area pe (length (serialize_area ps true)) (fresh, none) ps true
              (IsHashed-known ps hashed) small (omega arith),
          in_area-IsHashed ps hashed,
          loop,
        )
        (ap (λ l. ok (read_back issuer_version fingerprint s l fresh, emb')) whole)
