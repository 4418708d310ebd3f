-- ===== src/Packet/Signature/Flags.antt =====
-- What flags, features, trust and notations do to the signature that is read.
use go_crypto.Base.{
  ℕ, suc, ◌+◌, ◌*◌, ◌/◌, ◌^◌, ◌<◌, Bool, true, false, Bool-cases, inl, inr, List, [], ◌∷◌, ◌++◌,
  length, take, drop, bit_and, ok, All, ltb, ◌==◌, if◌then◌else◌, ◌≡◌, refl, sym, ap, subst, ◌∙◌,
  arith, length-append, append_assoc, append-nil, take-append, drop-append, take_all,
}
use go_crypto.Base.Words.{u8}
use go_crypto.Packet.SignatureArea.{OutputSubpacket}
use go_crypto.Packet.Signature.{SignatureFields, KeyFlags, Notation, no_flags}
use go_crypto.Packet.Signature.Notations.{get_data, parse_notation}
use go_crypto.Packet.Signature.Subpacket.{set_field, add_flags, has_flag}
use go_crypto.Packet.Signature.Build.{
  hashed_part, flags_part, flags_octet, flag_bit, features_part, features_octet, trust_part,
  notation_parts,
}
use go_crypto.Packet.Signature.Gives.{with_raw, Gives, Gives-none, Gives-one, Gives-append}

-- Read flags are the flags that were written.
flags_back : (f : KeyFlags) → add_flags (flags_octet f) no_flags ≡ record f { flags_valid = true }
unfolding add_flags has_flag flags_octet flag_bit
flags_back f = ground arith

pub Gives-flags :
    (s : SignatureFields) (f : KeyFlags)
    → s.flags ≡ no_flags
    → Gives s
        (flags_part f)
        (record (with_raw s (flags_part f)) { flags = if f.flags_valid then f else no_flags })
unfolding set_field flags_part
Gives-flags s f fresh = elim (Bool-cases f.flags_valid) [
  | inl e ↦
      let same : record f { flags_valid = true } ≡ (if f.flags_valid then f else no_flags) =
        valid f e in
      let part : List OutputSubpacket = hashed_part 27 false (flags_octet f ∷ []) ∷ [] in
      let here : part ≡ flags_part f = rw e refl in
      subst (λ fl. Gives s (flags_part f) (record (with_raw s (flags_part f)) { flags = fl })) same
        (subst
          (λ ps. Gives s ps (record (with_raw s ps) { flags = record f { flags_valid = true } }))
          here (Gives-one _ _ 27 false (flags_octet f ∷ []) refl (rw (fresh, flags_back f) refl)))
  | inr e ↦
      rw e (Gives-none s (record s { flags = no_flags }) (ap (λ i. record s { flags = i }) fresh))
]
  where
    valid :
        (f : KeyFlags)
        → f.flags_valid ≡ true
        → record f { flags_valid = true } ≡ (if f.flags_valid then f else no_flags)
    valid f e =
        ap (λ v. record f { flags_valid = v }) (sym e) ∙ ap (λ b. if b then f else no_flags) (sym e)

pub Gives-features :
    (s : SignatureFields) (v1 v2 : Bool)
    → s.seipd_v1 ≡ false
    → s.seipd_v2 ≡ false
    → Gives s
        (features_part v1 v2)
        (record (with_raw s (features_part v1 v2)) { seipd_v1 = v1; seipd_v2 = v2 })
unfolding set_field features_part features_octet flag_bit has_flag
Gives-features s false false f1 f2 =
    Gives-none s (record s { seipd_v1 = false; seipd_v2 = false })
      (ap (λ t. record s { seipd_v1 = t }) f1
        ∙ ap (λ t. record s { seipd_v1 = false; seipd_v2 = t }) f2)
Gives-features s false true f1 f2 = Gives-one _ _ 30 false (8 ∷ []) refl (rw (f1, f2) refl)
Gives-features s true false f1 f2 = Gives-one _ _ 30 false (1 ∷ []) refl (rw (f1, f2) refl)
Gives-features s true true f1 f2 = Gives-one _ _ 30 false (9 ∷ []) refl (rw (f1, f2) refl)

pub Gives-trust :
    (s : SignatureFields) (level amount : ℕ)
    → level < 256
    → amount < 256
    → s.trust_level ≡ 0
    → s.trust_amount ≡ 0
    → Gives s (trust_part level amount) (record (with_raw s (trust_part level amount)) {
      trust_level = level;
      trust_amount = if level == 0 then 0 else amount;
    })
unfolding set_field trust_part
Gives-trust s level amount small small' fresh fresh' = elim (Bool-cases (level == 0)) [
  | inl e ↦
      let zero_level : level ≡ 0 = ground (arith, e) in
      rw (e, zero_level)
        (Gives-none s (record s { trust_level = 0; trust_amount = 0 })
          (ap (λ (t : ℕ). record s { trust_level = t }) fresh
            ∙ ap (λ (t : ℕ). record s { trust_level = 0; trust_amount = t }) fresh'))
  | inr e ↦
      let same : u8 level ≡ level = omega (arith, small) in
      let same' : u8 amount ≡ amount = omega (arith, small') in
      rw e (Gives-one _ _ 5 true (u8 level ∷ u8 amount ∷ []) refl (rw (same, same') refl))
]

-- A notation whose name and value are shorter than 2 ^ 16 bytes.
abbrev pub IsNotation : Notation → Type 0
IsNotation n = (length n.name < 2 ^ 16) × (length n.value < 2 ^ 16)

-- A notation is read as it was written.
pub parse_notation-get_data :
    (n : Notation) → IsNotation n → parse_notation n.is_critical (get_data n) ≡ ok n
unfolding parse_notation get_data
parse_notation-get_data n (h, h') =
    let a = length n.name in
    let b = length n.value in
    let name : u8 (a / 2 ^ 8) * 2 ^ 8 + u8 a ≡ a = omega (arith, h) in
    let value : u8 (b / 2 ^ 8) * 2 ^ 8 + u8 b ≡ b = omega (arith, h') in
    let size = length-append n.name n.value in
    let long : ltb (suc (suc (suc (suc (suc (suc (suc (suc (length (n.name ++ n.value)))))))))) 8
        ≡ false =
      ground arith in
    let whole : (suc (suc (suc (suc (suc (suc (suc (suc (length (n.name ++ n.value)))))))))
          == a + b + 8)
        ≡ true =
      ground (arith, size) in
    let behind : take b (drop (a + 8) (get_data n)) ≡ n.value =
      ap (take b) (drop-append (a + 8) (take 8 (get_data n) ++ n.name) n.value (omega arith))
      ∙ take_all b n.value (omega arith) in
    let human : (bit_and (if n.is_human_readable then 128 else 0) 128 == 128)
        ≡ n.is_human_readable =
      ground arith in
    rw (long, name, value, whole, take-append a n.name n.value refl, behind, human) refl

pub Gives-notations :
    (s : SignatureFields) (ns : List Notation)
    → All IsNotation ns
    → Gives s
        (notation_parts ns)
        (record (with_raw s (notation_parts ns)) { notations = s.notations ++ ns })
unfolding set_field notation_parts
Gives-notations s [] h =
    Gives-none s (record s { notations = s.notations ++ [] })
      (ap (λ l. record s { notations = l }) (sym (append-nil s.notations)))
Gives-notations s (n ∷ ns) (h, hs) =
    let part : List OutputSubpacket = hashed_part 20 n.is_critical (get_data n) ∷ [] in
    let s' : SignatureFields = record (with_raw s part) { notations = s.notations ++ n ∷ [] } in
    let first : Gives s part s' =
      Gives-one _ _ 20 n.is_critical (get_data n) refl (rw (parse_notation-get_data n h) refl) in
    let all = Gives-append s s' _ part (notation_parts ns) first (Gives-notations s' ns hs) in
    subst
      (λ raw.
        Gives s (part ++ notation_parts ns)
          (record s { raw_subpackets = raw; notations = s.notations ++ n ∷ ns }))
      (append_assoc s.raw_subpackets part (notation_parts ns))
      (subst
        (λ l. Gives s (part ++ notation_parts ns) (record s {
          raw_subpackets = (s.raw_subpackets ++ part) ++ notation_parts ns;
          notations = l;
        }))
        (append_assoc s.notations (n ∷ []) ns) all)
