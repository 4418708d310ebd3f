-- ===== src/Packet/Signature/Fields.antt =====
-- What each subpacket that is built does to the signature that is read.
use go_crypto.Base.{
  ℕ, ◌-◌, ◌^◌, ◌<◌, Bool, true, false, Bool-cases, inl, inr, Option, none, some, List, [], ◌∷◌,
  ◌++◌, length, take, drop, get_or, Bytes, ok, ltb, ◌==◌, if◌then◌else◌, ◌≡◌, refl, ap, arith,
  length-append, take-append,
}
use go_crypto.Base.Words.{
  u8, put_be_word32, be_word32-put_be_word32, put_be_uint64, be_uint64, be_uint64-put_be_uint64,
}
use go_crypto.Packet.SignatureArea.{OutputSubpacket}
use go_crypto.Packet.Signature.{SignatureFields}
use go_crypto.Packet.Signature.Subpacket.{set_field, parse_regular_expression, parse_fingerprint}
use go_crypto.Packet.Signature.Build.{hashed_part, optional_part, key_id_part, primary_part}
use go_crypto.Packet.Signature.Gives.{Given, with_raw, Gives, Gives-none, Gives-one}

pub Gives-creation_time :
    (s : SignatureFields) (n : ℕ)
    → n < 2 ^ 32
    → let part : List OutputSubpacket = hashed_part 2 false (put_be_word32 n) ∷ [] in
      Gives s part (record (with_raw s part) { creation_time = some n })
unfolding set_field put_be_word32
Gives-creation_time s n h =
    Gives-one _ _ 2 false (put_be_word32 n) refl (rw (be_word32-put_be_word32 n h) refl)

pub Gives-key_id :
    (s : SignatureFields) (id : Option ℕ)
    → Given (λ n. n < 2 ^ 64) id
    → s.issuer_key_id ≡ none
    → let part : List OutputSubpacket = key_id_part s.version id in
      Gives s part
        (record (with_raw s part) { issuer_key_id = if s.version == 4 then id else none })
unfolding set_field put_be_uint64 key_id_part optional_part
Gives-key_id s id h fresh = elim (Bool-cases (s.version == 4)) [
  | inr other ↦ rw other (
      Gives-none s (record s { issuer_key_id = none })
        (ap (λ i. record s { issuer_key_id = i }) fresh))
  | inl four ↦ rw four (given four id h)
]
  where
    given :
        (s.version == 4) ≡ true
        → (id : Option ℕ) → Given (λ n. n < 2 ^ 64) id
        → let part : List OutputSubpacket = optional_part 16 false put_be_uint64 id in
          Gives s part (record (with_raw s part) { issuer_key_id = id })
    given four none h =
        Gives-none s (record s { issuer_key_id = none })
          (ap (λ i. record s { issuer_key_id = i }) fresh)
    given four (some n) h =
        let old : ltb 4 s.version ≡ false = ground (arith, four) in
        Gives-one _ _ 16 false (put_be_uint64 n) refl (rw (old, be_uint64-put_be_uint64 n h) refl)

pub Gives-signer_user_id :
    (s : SignatureFields) (id : Option Bytes)
    → s.signer_user_id ≡ none
    → let part : List OutputSubpacket = optional_part 28 false (λ id. id) id in
      Gives s part (record (with_raw s part) { signer_user_id = id })
unfolding set_field optional_part
Gives-signer_user_id s none fresh =
    Gives-none s (record s { signer_user_id = none })
      (ap (λ i. record s { signer_user_id = i }) fresh)
Gives-signer_user_id s (some id) fresh = Gives-one _ _ 28 false id refl refl

pub Gives-sig_lifetime :
    (s : SignatureFields) (n : Option ℕ)
    → Given (λ n. n < 2 ^ 32) n
    → s.sig_lifetime_secs ≡ none
    → let part : List OutputSubpacket = optional_part 3 true put_be_word32 n in
      Gives s part (record (with_raw s part) { sig_lifetime_secs = n })
unfolding set_field put_be_word32 optional_part
Gives-sig_lifetime s none h fresh =
    Gives-none s (record s { sig_lifetime_secs = none })
      (ap (λ i. record s { sig_lifetime_secs = i }) fresh)
Gives-sig_lifetime s (some n) h fresh =
    Gives-one _ _ 3 true (put_be_word32 n) refl (rw (be_word32-put_be_word32 n h) refl)

pub Gives-key_lifetime :
    (s : SignatureFields) (n : Option ℕ)
    → Given (λ n. n < 2 ^ 32) n
    → s.key_lifetime_secs ≡ none
    → let part : List OutputSubpacket = optional_part 9 true put_be_word32 n in
      Gives s part (record (with_raw s part) { key_lifetime_secs = n })
unfolding set_field put_be_word32 optional_part
Gives-key_lifetime s none h fresh =
    Gives-none s (record s { key_lifetime_secs = none })
      (ap (λ i. record s { key_lifetime_secs = i }) fresh)
Gives-key_lifetime s (some n) h fresh =
    Gives-one _ _ 9 true (put_be_word32 n) refl (rw (be_word32-put_be_word32 n h) refl)

last_byte : (r : Bytes) → get_or (r ++ 0 ∷ []) (length r) 0 ≡ 0
last_byte [] = refl
last_byte (b ∷ r) = last_byte r

regular_expression_back : (r : Bytes) → parse_regular_expression (r ++ 0 ∷ []) ≡ ok r
unfolding parse_regular_expression
regular_expression_back r =
    let size = length-append r (0 ∷ []) in
    let full : (length (r ++ 0 ∷ []) == 0) ≡ false = ground (arith, size) in
    let before : length (r ++ 0 ∷ []) - 1 ≡ length r = omega (arith, size) in
    rw (full, before, last_byte r, take-append (length r) r (0 ∷ []) refl) refl

pub Gives-regular_expression :
    (s : SignatureFields) (r : Option Bytes)
    → s.trust_regular_expression ≡ none
    → let part : List OutputSubpacket = optional_part 6 true (λ regexp. regexp ++ 0 ∷ []) r in
      Gives s part (record (with_raw s part) { trust_regular_expression = r })
unfolding set_field optional_part
Gives-regular_expression s none fresh =
    Gives-none s (record s { trust_regular_expression = none })
      (ap (λ i. record s { trust_regular_expression = i }) fresh)
Gives-regular_expression s (some r) fresh =
    Gives-one _ _ 6 true (r ++ 0 ∷ []) refl (rw (regular_expression_back r) refl)

-- The key id that a fingerprint holds.
unfoldable pub key_id_of : ℕ → Bytes → ℕ
key_id_of version fingerprint =
    if version == 5 then be_uint64 (take 8 fingerprint) else be_uint64 (drop 12 fingerprint)

Gives-fingerprint :
    (s : SignatureFields) (c : Bool) (version : ℕ) (f : Bytes)
    → version < 256
    → length f ≡ (if version == 5 then 32 else 20)
    → let part : List OutputSubpacket = hashed_part 33 c (u8 version ∷ f) ∷ [] in
      Gives s part (record (with_raw s part) {
        issuer_fingerprint = some f;
        issuer_key_id = some (key_id_of version f);
      })
unfolding set_field parse_fingerprint key_id_of
Gives-fingerprint s c version f byte size =
    let same : u8 version ≡ version = omega (arith, byte) in
    Gives-one _ _ 33 c (u8 version ∷ f) refl (elim (Bool-cases (version == 5)) [
      | inl five ↦ let long = rw five at size in rw (same, five, long) refl
      | inr other ↦ let short = rw other at size in rw (same, other, short) refl
    ])

pub Gives-issuer :
    (s : SignatureFields) (c : Bool) (version : ℕ) (o : Option Bytes) (f : Bytes)
    → o ≡ some f
    → version < 256
    → length f ≡ (if version == 5 then 32 else 20)
    → let part : List OutputSubpacket =
        optional_part 33 c (λ fingerprint. u8 version ∷ fingerprint) o in
      Gives s part (record (with_raw s part) {
        issuer_fingerprint = some f;
        issuer_key_id = some (key_id_of version f);
      })
unfolding optional_part
Gives-issuer s c version o f e byte size = rw e (Gives-fingerprint s c version f byte size)

pub Gives-primary :
    (s : SignatureFields) (id : Option Bool)
    → s.is_primary_id ≡ none
    → Gives s (primary_part id) (record (with_raw s (primary_part id)) {
      is_primary_id = elim id [ none ↦ none | some b ↦ if b then some true else none ];
    })
unfolding set_field primary_part
Gives-primary s none fresh =
    Gives-none s (record s { is_primary_id = none })
      (ap (λ i. record s { is_primary_id = i }) fresh)
Gives-primary s (some false) fresh =
    Gives-none s (record s { is_primary_id = none })
      (ap (λ i. record s { is_primary_id = i }) fresh)
Gives-primary s (some true) fresh = Gives-one _ _ 25 false (1 ∷ []) refl refl
