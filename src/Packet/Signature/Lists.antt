-- ===== src/Packet/Signature/Lists.antt =====
-- What lists of preferences, and a reason for revocation, do to the signature that is read.
use go_crypto.Base.{
  ℕ, suc, ◌*◌, ◌%◌, ◌<◌, true, false, Option, none, some, List, [], ◌∷◌, length, Bytes, ◌==◌, ◌≡◌,
  refl, ap, ◌∙◌, arith,
}
use go_crypto.Base.Words.{u8}
use go_crypto.Packet.SignatureArea.{OutputSubpacket}
use go_crypto.Packet.Signature.{SignatureFields}
use go_crypto.Packet.Signature.Subpacket.{set_field, cipher_suites}
use go_crypto.Packet.Signature.Build.{optional_part, listed_part, suites_octets}
use go_crypto.Packet.Signature.Gives.{Given, with_raw, Gives, Gives-none, Gives-one}

pub Gives-preferred_symmetric :
    (s : SignatureFields) (bs : Bytes)
    → s.preferred_symmetric ≡ []
    → Gives s
        (listed_part 11 bs)
        (record (with_raw s (listed_part 11 bs)) { preferred_symmetric = bs })
unfolding set_field listed_part
Gives-preferred_symmetric s [] fresh =
    Gives-none s (record s { preferred_symmetric = [] })
      (ap (λ i. record s { preferred_symmetric = i }) fresh)
Gives-preferred_symmetric s (b ∷ bs) fresh = Gives-one _ _ 11 false (b ∷ bs) refl refl

pub Gives-preferred_hash :
    (s : SignatureFields) (bs : Bytes)
    → s.preferred_hash ≡ []
    → Gives s (listed_part 21 bs) (record (with_raw s (listed_part 21 bs)) { preferred_hash = bs })
unfolding set_field listed_part
Gives-preferred_hash s [] fresh =
    Gives-none s (record s { preferred_hash = [] })
      (ap (λ i. record s { preferred_hash = i }) fresh)
Gives-preferred_hash s (b ∷ bs) fresh = Gives-one _ _ 21 false (b ∷ bs) refl refl

pub Gives-preferred_compression :
    (s : SignatureFields) (bs : Bytes)
    → s.preferred_compression ≡ []
    → Gives s
        (listed_part 22 bs)
        (record (with_raw s (listed_part 22 bs)) { preferred_compression = bs })
unfolding set_field listed_part
Gives-preferred_compression s [] fresh =
    Gives-none s (record s { preferred_compression = [] })
      (ap (λ i. record s { preferred_compression = i }) fresh)
Gives-preferred_compression s (b ∷ bs) fresh = Gives-one _ _ 22 false (b ∷ bs) refl refl

pub Gives-policy_uri :
    (s : SignatureFields) (bs : Bytes)
    → s.policy_uri ≡ []
    → Gives s (listed_part 26 bs) (record (with_raw s (listed_part 26 bs)) { policy_uri = bs })
unfolding set_field listed_part
Gives-policy_uri s [] fresh =
    Gives-none s (record s { policy_uri = [] }) (ap (λ i. record s { policy_uri = i }) fresh)
Gives-policy_uri s (b ∷ bs) fresh = Gives-one _ _ 26 false (b ∷ bs) refl refl

cipher_suites-suites_octets : (ss : List (ℕ × ℕ)) → cipher_suites (suites_octets ss) ≡ ss
unfolding cipher_suites suites_octets
cipher_suites-suites_octets [] = refl
cipher_suites-suites_octets (s ∷ ss) = ap (λ l. s ∷ l) (cipher_suites-suites_octets ss)

length-suites_octets : (ss : List (ℕ × ℕ)) → length (suites_octets ss) ≡ 2 * length ss
unfolding suites_octets
length-suites_octets [] = refl
length-suites_octets (s ∷ ss) = omega (arith, length-suites_octets ss)

pub Gives-suites :
    (s : SignatureFields) (ss : List (ℕ × ℕ))
    → s.preferred_cipher_suites ≡ []
    → let part : List OutputSubpacket = listed_part 39 (suites_octets ss) in
      Gives s part (record (with_raw s part) { preferred_cipher_suites = ss })
unfolding set_field listed_part suites_octets
Gives-suites s [] fresh =
    Gives-none s (record s { preferred_cipher_suites = [] })
      (ap (λ i. record s { preferred_cipher_suites = i }) fresh)
Gives-suites s (x ∷ ss) fresh =
    let even : (length (suites_octets (x ∷ ss)) % 2 == 0) ≡ true =
      ground (arith, length-suites_octets (x ∷ ss)) in
    Gives-one _ _ 39 false (suites_octets (x ∷ ss)) refl
      (rw (even, cipher_suites-suites_octets (x ∷ ss)) refl)

pub Gives-revocation :
    (s : SignatureFields) (reason : Option ℕ) (text : Bytes)
    → Given (λ n. n < 256) reason
    → s.revocation_reason ≡ none
    → s.revocation_reason_text ≡ []
    → let part : List OutputSubpacket = optional_part 29 true (λ reason. u8 reason ∷ text) reason in
      Gives s part (record (with_raw s part) {
        revocation_reason = reason;
        revocation_reason_text = elim reason [ none ↦ [] | some n ↦ text ];
      })
unfolding set_field optional_part
Gives-revocation s none text h fresh fresh' =
    Gives-none s (record s { revocation_reason = none; revocation_reason_text = [] })
      (ap (λ i. record s { revocation_reason = i }) fresh
        ∙ ap (λ t. record s { revocation_reason = none; revocation_reason_text = t }) fresh')
Gives-revocation s (some n) text h fresh fresh' =
    let same : u8 n ≡ n = omega (arith, h) in
    let full : (suc (length text) == 0) ≡ false = ground arith in
    Gives-one _ _ 29 true (u8 n ∷ text) refl (rw (same, full) refl)
