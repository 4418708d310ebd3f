-- ===== src/Packet/Signature/Subpacket.antt =====
-- openpgp/packet/signature.go: `parseSignatureSubpacket`. The parser of an embedded signature, which
-- is the one of a signature again, is an argument.
use go_crypto.Base.{
  ℕ, zero, suc, ◌+◌, ◌-◌, ◌*◌, ◌%◌, ◌^◌, Bool, true, false, not, ◌&&◌, ◌||◌, none, some, List, [],
  ◌∷◌, ◌++◌, length, take, drop, get_or, bit_and, Bytes, Result, ok, err, stuck, Error, structural,
  unsupported, ◌>>=◌, ◌>>◌, fail_if, ltb, ◌==◌, if◌then◌else◌,
}
use go_crypto.Base.Words.{u32, be_word32, be_uint64}
use go_crypto.Packet.SignatureArea.{OutputSubpacket}
use go_crypto.Packet.Signature.{SignatureFields, KeyFlags, Signature, Sig, of_signature}
use go_crypto.Packet.Signature.Notations.{parse_notation}

abbrev pub truncated_subpacket : Error
truncated_subpacket = structural "signature subpacket truncated"

abbrev pub zero_length : Error
zero_length = structural "zero length signature subpacket"

-- Behind its length, a subpacket and the rest of the area.
unfoldable pub cut_subpacket : ℕ → Bytes → Result (Bytes × Bytes)
cut_subpacket n subpacket =
    if ltb (u32 (length subpacket)) n
    then err truncated_subpacket
    else if n == 0
    then err zero_length
    else ok (take n subpacket, drop n subpacket)

-- The first subpacket, with its type octet, and the rest.
unfoldable pub split_subpacket : Bytes → Result (Bytes × Bytes)
split_subpacket [] = err zero_length
split_subpacket (b ∷ rest) =
    if ltb b 192
    then cut_subpacket b rest
    else if ltb b 255
    then (if ltb (suc (length rest)) 2
        then err truncated_subpacket
        else cut_subpacket ((b - 192) * 2 ^ 8 + get_or rest 0 0 + 192) (drop 1 rest))
    else if ltb (suc (length rest)) 5
    then err truncated_subpacket
    else cut_subpacket (be_word32 rest) (drop 4 rest)

-- `subpacket[0]&flag != 0`
unfoldable pub has_flag : ℕ → ℕ → Bool
has_flag b flag = not (bit_and b flag == 0)

-- A flag stays set.
unfoldable pub add_flags : ℕ → KeyFlags → KeyFlags
unfolding has_flag
add_flags b flags = record {
  flags_valid = true;
  certify = flags.certify || has_flag b 0x01;
  signing = flags.signing || has_flag b 0x02;
  encrypt_communications = flags.encrypt_communications || has_flag b 0x04;
  encrypt_storage = flags.encrypt_storage || has_flag b 0x08;
  split_key = flags.split_key || has_flag b 0x10;
  authenticate = flags.authenticate || has_flag b 0x20;
  group_key = flags.group_key || has_flag b 0x80;
}

-- The pairs of `prefCipherSuitesSubpacket`.
unfoldable pub cipher_suites : Bytes → List (ℕ × ℕ)
cipher_suites [] = []
cipher_suites (a ∷ []) = []
cipher_suites (a ∷ b ∷ rest) = (a, b) ∷ cipher_suites rest

-- The case of `regularExpressionSubpacket`: what is in front of its null byte.
unfoldable pub parse_regular_expression : Bytes → Result Bytes
parse_regular_expression subpacket =
    let n = length subpacket - 1 in
    fail_if (length subpacket == 0) (structural "regexp subpacket with bad length")
    >> (fail_if (not (get_or subpacket n 0 == 0))
          (structural "expected regular expression to be null-terminated")
        >> ok (take n subpacket))

-- The case of `issuerFingerprintSubpacket`: the fingerprint and the key id in it.
unfoldable pub parse_fingerprint : Bytes → Result (Bytes × ℕ)
parse_fingerprint [] = err (structural "empty issuer fingerprint subpacket")
parse_fingerprint (v ∷ fingerprint) =
    let l = length fingerprint in
    fail_if ((v == 5 && not (l == 32)) || (not (v == 5) && not (l == 20)))
      (structural "bad fingerprint length")
    >> ok (
      fingerprint,
      if v == 5 then be_uint64 (take 8 fingerprint) else be_uint64 (drop 12 fingerprint),
    )

-- The cases that fill one field of the signature.
unfoldable pub set_field : SignatureFields → ℕ → Bool → Bytes → Result SignatureFields
set_field s packet_type is_critical subpacket =
    let n = length subpacket in
    let b = get_or subpacket 0 0 in
    if packet_type == 2
    then fail_if (not (n == 4)) (structural "signature creation time not four bytes")
      >> ok (record s { creation_time = some (be_word32 subpacket) })
    else if packet_type == 3
    then fail_if (not (n == 4)) (structural "expiration subpacket with bad length")
      >> ok (record s { sig_lifetime_secs = some (be_word32 subpacket) })
    else if packet_type == 5
    then fail_if (not (n == 2)) (structural "trust subpacket with bad length")
      >> ok (record s { trust_level = b; trust_amount = get_or subpacket 1 0 })
    else if packet_type == 6
    then (do
      regexp ← parse_regular_expression subpacket
      ok (record s { trust_regular_expression = some regexp }))
    else if packet_type == 9
    then fail_if (not (n == 4)) (structural "key expiration subpacket with bad length")
      >> ok (record s { key_lifetime_secs = some (be_word32 subpacket) })
    else if packet_type == 11
    then ok (record s { preferred_symmetric = subpacket })
    else if packet_type == 16
    then fail_if (ltb 4 s.version) (structural "issuer subpacket found in v5 key")
      >> (fail_if (not (n == 8)) (structural "issuer subpacket with bad length")
          >> ok (record s { issuer_key_id = some (be_uint64 subpacket) }))
    else if packet_type == 20
    then (do
      notation ← parse_notation is_critical subpacket
      ok (record s { notations = s.notations ++ notation ∷ [] }))
    else if packet_type == 21
    then ok (record s { preferred_hash = subpacket })
    else if packet_type == 22
    then ok (record s { preferred_compression = subpacket })
    else if packet_type == 25
    then fail_if (not (n == 1)) (structural "primary user id subpacket with bad length")
      >> ok (record s { is_primary_id = some (ltb 0 b) })
    else if packet_type == 27
    then fail_if (n == 0) (structural "empty key flags subpacket")
      >> ok (record s { flags = add_flags b s.flags })
    else if packet_type == 28
    then ok (record s { signer_user_id = some subpacket })
    else if packet_type == 29
    then fail_if (n == 0) (structural "empty revocation reason subpacket")
      >> ok (record s { revocation_reason = some b; revocation_reason_text = drop 1 subpacket })
    else if packet_type == 30
    then ok (record s {
      seipd_v1 = s.seipd_v1 || has_flag b 0x01;
      seipd_v2 = s.seipd_v2 || has_flag b 0x08;
    })
    else if packet_type == 26
    then ok (record s { policy_uri = subpacket })
    else if packet_type == 33
    then (do
      (fingerprint, key_id) ← parse_fingerprint subpacket
      ok (record s { issuer_fingerprint = some fingerprint; issuer_key_id = some key_id }))
    else if packet_type == 39
    then fail_if (not (n % 2 == 0)) (structural "invalid aead cipher suite length")
      >> ok (record s { preferred_cipher_suites = cipher_suites subpacket })
    else (fail_if is_critical (unsupported "unknown critical signature subpacket type") >> ok s)

module _ (parse_embedded : Bytes → Result Signature) where
  -- The case of `embeddedSignatureSubpacket`.
  unfoldable pub parse_cross_signature : Sig → Bytes → Result Sig
  parse_cross_signature (s, some e) subpacket =
      err (structural "Cannot have multiple embedded signatures")
  parse_cross_signature (s, none) subpacket = do
    embedded ← parse_embedded subpacket
    fail_if (not ((of_signature embedded).0.sig_type == 0x19))
        (structural "cross-signature has unexpected type")
    ok (s, some embedded)

  -- Behind the type octet: only some types count in the area that is not hashed.
  unfoldable pub apply_subpacket : Sig → OutputSubpacket → Result Sig
  apply_subpacket (s, embedded) p =
      let s' = record s { raw_subpackets = s.raw_subpackets ++ p ∷ [] } in
      let t = p.subpacket_type in
      if not p.hashed && not (t == 16) && not (t == 33) && not (t == 32)
      then ok (s', embedded)
      else if t == 32
      then parse_cross_signature (s', embedded) p.contents
      else (set_field s' t p.is_critical p.contents >>= λ s''. ok (s'', embedded))

  -- `parseSignatureSubpacket`: the rest of the area, and the signature.
  unfoldable pub parse_subpacket : Sig → Bytes → Bool → Result (Bytes × Sig)
  parse_subpacket sig subpacket hashed = do
    (first, rest) ← split_subpacket subpacket
    let b = get_or first 0 0
    sig' ← apply_subpacket sig (record {
      hashed = hashed;
      subpacket_type = bit_and b 0x7f;
      is_critical = bit_and b 0x80 == 0x80;
      contents = drop 1 first;
    })
    ok (rest, sig')

  -- The loop of `parseSignatureSubpackets`.
  unfoldable pub subpackets_loop : ℕ → Sig → Bytes → Bool → Result Sig
  subpackets_loop fuel sig [] hashed = ok sig
  subpackets_loop zero sig (b ∷ subpackets) hashed = stuck
  subpackets_loop (suc fuel) sig (b ∷ subpackets) hashed =
      parse_subpacket sig (b ∷ subpackets) hashed >>= λ r. subpackets_loop fuel r.1 r.0 hashed

  -- `parseSignatureSubpackets`
  unfoldable pub parse_subpackets : Sig → Bytes → Bool → Result Sig
  parse_subpackets sig subpackets hashed = do
    sig' ← subpackets_loop (length subpackets) sig subpackets hashed
    fail_if (elim sig'.0.creation_time [ none ↦ true | some t ↦ false ])
        (structural "no creation time in signature")
    ok sig'
