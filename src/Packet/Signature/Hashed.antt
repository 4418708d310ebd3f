-- ===== src/Packet/Signature/Hashed.antt =====
-- What is built is for the hashed area.
use go_crypto.Base.{
  ℕ, ◌<◌, Bool, true, false, Bool-cases, inl, inr, Option, none, some, List, [], ◌∷◌, Bytes, All,
  All-append, ◌==◌, ◌≡◌, refl, ap, arith,
}
use go_crypto.Packet.SignatureArea.{OutputSubpacket, is_in}
use go_crypto.Packet.Signature.{SignatureFields, Notation, KeyFlags}
use go_crypto.Packet.Signature.Build.{
  optional_part, listed_part, key_id_part, flags_part, features_part, features_octet, trust_part,
  primary_part, notation_parts, field_parts, join,
}
use go_crypto.Packet.Signature.Split.{in_area}

-- A subpacket of the hashed area, of a type below 128.
abbrev pub IsHashed : OutputSubpacket → Type 0
IsHashed p = (p.hashed ≡ true) × (p.subpacket_type < 128)

pub optional_part-IsHashed :
    {A : Type 0} (t : ℕ) (c : Bool) (contents : A → Bytes) (o : Option A)
    → t < 128
    → All IsHashed (optional_part t c contents o)
unfolding optional_part
optional_part-IsHashed t c contents none h = tt
optional_part-IsHashed t c contents (some a) h = ((refl, h), tt)

pub listed_part-IsHashed : (t : ℕ) (bs : Bytes) → t < 128 → All IsHashed (listed_part t bs)
unfolding listed_part
listed_part-IsHashed t [] h = tt
listed_part-IsHashed t (b ∷ bs) h = ((refl, h), tt)

key_id_part-IsHashed : (version : ℕ) (id : Option ℕ) → All IsHashed (key_id_part version id)
unfolding key_id_part
key_id_part-IsHashed version id = elim (Bool-cases (version == 4)) [
  | inl e ↦ rw e (optional_part-IsHashed 16 false _ id (omega arith))
  | inr e ↦ rw e tt
]

flags_part-IsHashed : (f : KeyFlags) → All IsHashed (flags_part f)
unfolding flags_part
flags_part-IsHashed f = elim (Bool-cases f.flags_valid) [
  | inl e ↦ simp e ((refl, omega arith), tt)
  | inr e ↦ simp e tt
]

notation_parts-IsHashed : (ns : List Notation) → All IsHashed (notation_parts ns)
unfolding notation_parts
notation_parts-IsHashed [] = tt
notation_parts-IsHashed (n ∷ ns) = ((refl, omega arith), notation_parts-IsHashed ns)

features_part-IsHashed : (v1 v2 : Bool) → All IsHashed (features_part v1 v2)
unfolding features_part features_octet
features_part-IsHashed false false = tt
features_part-IsHashed false true = ((refl, omega arith), tt)
features_part-IsHashed true false = ((refl, omega arith), tt)
features_part-IsHashed true true = ((refl, omega arith), tt)

trust_part-IsHashed : (level amount : ℕ) → All IsHashed (trust_part level amount)
unfolding trust_part
trust_part-IsHashed level amount = elim (Bool-cases (level == 0)) [
  | inl e ↦ rw e tt
  | inr e ↦ rw e ((refl, omega arith), tt)
]

primary_part-IsHashed : (id : Option Bool) → All IsHashed (primary_part id)
unfolding primary_part
primary_part-IsHashed none = tt
primary_part-IsHashed (some false) = tt
primary_part-IsHashed (some true) = ((refl, omega arith), tt)

join-IsHashed :
    (pss : List (List OutputSubpacket)) → All (All IsHashed) pss → All IsHashed (join pss)
unfolding join
join-IsHashed [] h = tt
join-IsHashed (ps ∷ pss) (h, hs) = All-append IsHashed ps (join pss) h (join-IsHashed pss hs)

pub field_parts-IsHashed :
    (issuer_version : ℕ) (s : SignatureFields) → All IsHashed (join (field_parts issuer_version s))
unfolding field_parts
field_parts-IsHashed issuer_version s = join-IsHashed (field_parts issuer_version s) (
  ((refl, omega arith), tt),
  (
    key_id_part-IsHashed s.version s.issuer_key_id,
    (
      optional_part-IsHashed 33 _ _ s.issuer_fingerprint (omega arith),
      (
        optional_part-IsHashed 28 _ _ s.signer_user_id (omega arith),
        (
          optional_part-IsHashed 3 _ _ _ (omega arith),
          (
            flags_part-IsHashed s.flags,
            (
              notation_parts-IsHashed s.notations,
              (
                features_part-IsHashed s.seipd_v1 s.seipd_v2,
                (
                  trust_part-IsHashed s.trust_level s.trust_amount,
                  (
                    optional_part-IsHashed 6 _ _ s.trust_regular_expression (omega arith),
                    (
                      optional_part-IsHashed 9 _ _ _ (omega arith),
                      (
                        primary_part-IsHashed s.is_primary_id,
                        (
                          listed_part-IsHashed 11 _ (omega arith),
                          (
                            listed_part-IsHashed 21 _ (omega arith),
                            (
                              listed_part-IsHashed 22 _ (omega arith),
                              (
                                listed_part-IsHashed 26 _ (omega arith),
                                (
                                  listed_part-IsHashed 39 _ (omega arith),
                                  (
                                    optional_part-IsHashed 29 _ _ s.revocation_reason (omega arith),
                                    tt,
                                  ),
                                ),
                              ),
                            ),
                          ),
                        ),
                      ),
                    ),
                  ),
                ),
              ),
            ),
          ),
        ),
      ),
    ),
  ),
)

is_in-true : (p : OutputSubpacket) → p.hashed ≡ true → is_in true p ≡ true
unfolding is_in
is_in-true p h = ground (arith, h)

pub is_in-false : (p : OutputSubpacket) → p.hashed ≡ true → is_in false p ≡ false
unfolding is_in
is_in-false p h = ground (arith, h)

-- All of such subpackets are in the hashed area.
pub in_area-IsHashed : (ps : List OutputSubpacket) → All IsHashed ps → in_area ps true ≡ ps
unfolding in_area
in_area-IsHashed [] h = refl
in_area-IsHashed (p ∷ ps) (h, hs) = rw (is_in-true p h.0) (ap (λ l. p ∷ l) (in_area-IsHashed ps hs))

pub IsHashed-known :
    (ps : List OutputSubpacket) → All IsHashed ps → All (λ p. p.subpacket_type < 128) ps
IsHashed-known [] h = tt
IsHashed-known (p ∷ ps) (h, hs) = (h.1, IsHashed-known ps hs)
