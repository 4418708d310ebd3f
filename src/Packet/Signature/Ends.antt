-- ===== src/Packet/Signature/Ends.antt =====
-- The parse of a signature ends, whatever signatures are embedded in it.
use go_crypto.Base.{
  ℕ, zero, suc, ◌≤◌, ◌<◌, Bool, true, false, Bool-cases, inl, inr, none, some, [], ◌∷◌, length,
  drop, get_or, bit_and, Bytes, Result, ok, err, panic, stuck, Error, ◌>>=◌, ◌>>◌, fail_if,
  >>=-eq-ok, ltb, ◌==◌, if◌then◌else◌, ◌≡◌, ◌≢◌, refl, subst, arith, length-take, length-drop,
}
use go_crypto.Base.Words.{u32}
use go_crypto.Packet.SignatureArea.{OutputSubpacket}
use go_crypto.Packet.Signature.{SignatureFields, Signature, Sig}
use go_crypto.Packet.Signature.Notations.{parse_notation}
use go_crypto.Packet.Signature.Subpacket.{
  cut_subpacket, split_subpacket, set_field, parse_regular_expression, parse_fingerprint,
  parse_cross_signature, apply_subpacket, parse_subpacket, subpackets_loop, parse_subpackets,
}

-- Not out of fuel.
pub record Ends {ℓ} {A : Type ℓ} (r : Result A) : Type ℓ where
  pub ends : r ≢ stuck

pub Ends-ok {ℓ} : {A : Type ℓ} (a : A) → Ends (ok a)
Ends-ok a = record { ends = λ e. cc }

pub Ends-err {ℓ} : {A : Type ℓ} (e : Error) → Ends {A = A} (err e)
Ends-err e = record { ends = λ e. cc }

pub Ends->>= {ℓ κ} :
    {A : Type ℓ} {B : Type κ} (r : Result A) (f : A → Result B)
    → Ends r
    → ((a : A) → r ≡ ok a → Ends (f a))
    → Ends (r >>= f)
Ends->>= panic f h k = record { ends = λ e. cc }
Ends->>= stuck f h k = absurd (h.ends refl)
Ends->>= (err e) f h k = record { ends = λ e. cc }
Ends->>= (ok a) f h k = k a refl

pub Ends-check {κ} :
    {B : Type κ} (b : Bool) (e : Error) (r : Result B) → Ends r → Ends (fail_if b e >> r)
Ends-check true e r h = record { ends = λ e. cc }
Ends-check false e r h = h

Ends-if {κ} : {B : Type κ} (b : Bool) (r s : Result B) → Ends r → Ends s → Ends (if b then r else s)
Ends-if true r s h k = h
Ends-if false r s h k = k

Ends-regular_expression : (bs : Bytes) → Ends (parse_regular_expression bs)
unfolding parse_regular_expression
Ends-regular_expression bs = search (Ends-check, Ends-ok)

Ends-fingerprint : (bs : Bytes) → Ends (parse_fingerprint bs)
unfolding parse_fingerprint
Ends-fingerprint [] = Ends-err _
Ends-fingerprint (v ∷ bs) = search (Ends-check, Ends-ok)

Ends-notation : (c : Bool) (bs : Bytes) → Ends (parse_notation c bs)
unfolding parse_notation
Ends-notation c bs = search (Ends-check, Ends-ok)

Ends-set_field : (s : SignatureFields) (t : ℕ) (c : Bool) (bs : Bytes) → Ends (set_field s t c bs)
unfolding set_field
Ends-set_field s t c bs =
    search
      (
        Ends-if, Ends-check, Ends-ok, Ends->>=, Ends-regular_expression, Ends-fingerprint,
        Ends-notation,
      )
      depth 30

-- What is cut off the front, and what is left, are inside the area, and the rest is shorter.
CutsOff : Bytes → Result (Bytes × Bytes) → Type 0
CutsOff area (ok (first, rest)) = (length first ≤ length area) × (length rest < length area)
CutsOff area stuck = ⊥
CutsOff area _ = Unit {0}

cut_subpacket-CutsOff :
    (n : ℕ) (b : ℕ) (rest more : Bytes)
    → length rest ≤ length more
    → CutsOff (b ∷ more) (cut_subpacket n rest)
unfolding CutsOff cut_subpacket
cut_subpacket-CutsOff n b rest more h = elim (Bool-cases (ltb (u32 (length rest)) n)) [
  | inl e ↦ rw e tt
  | inr e ↦ elim (Bool-cases (n == 0)) [
    | inl z ↦ rw (e, z) tt
    | inr p ↦ rw (e, p) (omega (arith, h, length-take n rest), omega (arith, h, length-drop n rest))
  ]
]

CutsOff-if :
    (area : Bytes) (b : Bool) (r s : Result (Bytes × Bytes))
    → CutsOff area r
    → CutsOff area s
    → CutsOff area (if b then r else s)
CutsOff-if area true r s h k = h
CutsOff-if area false r s h k = k

split_subpacket-CutsOff : (area : Bytes) → CutsOff area (split_subpacket area)
unfolding split_subpacket CutsOff
split_subpacket-CutsOff [] = tt
split_subpacket-CutsOff (b ∷ rest) =
    CutsOff-if (b ∷ rest) (ltb b 192) _ _ (cut_subpacket-CutsOff _ b rest rest (omega arith)) (
      CutsOff-if (b ∷ rest) (ltb b 255) _ _
        (CutsOff-if (b ∷ rest) (ltb (suc (length rest)) 2) _ _ tt
          (cut_subpacket-CutsOff _ b (drop 1 rest) rest (omega (arith, length-drop 1 rest))))
        (CutsOff-if (b ∷ rest) (ltb (suc (length rest)) 5) _ _ tt
          (cut_subpacket-CutsOff _ b (drop 4 rest) rest (omega (arith, length-drop 4 rest)))))

module _ (pe : Bytes → Result Signature) where
  Ends-cross_signature :
      (sig : Sig) (bs : Bytes) → Ends (pe bs) → Ends (parse_cross_signature pe sig bs)
  unfolding parse_cross_signature
  Ends-cross_signature (s, some e) bs h = Ends-err _
  Ends-cross_signature (s, none) bs h = Ends->>= _ _ h (λ e same. Ends-check _ _ _ (Ends-ok _))

  Ends-apply_subpacket :
      (sig : Sig) (p : OutputSubpacket) → Ends (pe p.contents) → Ends (apply_subpacket pe sig p)
  unfolding apply_subpacket
  Ends-apply_subpacket (s, e) p h = Ends-if _ _ _ (Ends-ok _) (
      Ends-if _ _ _ (Ends-cross_signature _ p.contents h)
        (Ends->>= _ _ (Ends-set_field _ _ _ _) (λ s' same. Ends-ok _)))

  -- A subpacket is read, and the area gets shorter, if the parser of embedded signatures ends on
  -- what is shorter.
  EndsBelow : ℕ → Type 0
  EndsBelow n = (bs : Bytes) → length bs < n → Ends (pe bs)

  -- What a subpacket ends with, and that the area is shorter behind it.
  Shrinks : Bytes → Result (Bytes × Sig) → Type 0
  Shrinks area r =
      Ends r × ((rest : Bytes) (sig : Sig) → r ≡ ok (rest, sig) → length rest < length area)

  -- What follows the split of a subpacket.
  behind_split : Sig → Bool → Bytes × Bytes → Result (Bytes × Sig)
  behind_split sig hashed (first, rest) =
      apply_subpacket pe sig (record {
        hashed = hashed;
        subpacket_type = bit_and (get_or first 0 0) 0x7f;
        is_critical = bit_and (get_or first 0 0) 0x80 == 0x80;
        contents = drop 1 first;
      })
      >>= λ sig'. ok (rest, sig')

  behind_split-Shrinks :
      (sig : Sig) (area : Bytes) (hashed : Bool) (split : Result (Bytes × Bytes))
      → EndsBelow (length area)
      → CutsOff area split
      → Shrinks area (split >>= behind_split sig hashed)
  unfolding Shrinks EndsBelow behind_split CutsOff
  behind_split-Shrinks sig area hashed panic h c = (record { ends = λ e. cc }, λ rest sig' e. cc)
  behind_split-Shrinks sig area hashed stuck h c = elim c [ ]
  behind_split-Shrinks sig area hashed (err x) h c = (Ends-err x, λ rest sig' e. cc)
  behind_split-Shrinks sig area hashed (ok (first, rest)) h c = (
    Ends->>= _ _
        (Ends-apply_subpacket sig _
          (h (drop 1 first) (omega (arith, length-drop 1 first, c.0, c.1))))
        (λ sig' same. Ends-ok _),
    λ rest' sig' e.
        let (x, applied, same) = >>=-eq-ok (apply_subpacket pe sig _) _ e in
        let equal : rest ≡ rest' = cc in subst (λ xs. length xs < length area) equal c.1,
  )

  parse_subpacket-Shrinks :
      (sig : Sig) (area : Bytes) (hashed : Bool)
      → EndsBelow (length area)
      → Shrinks area (parse_subpacket pe sig area hashed)
  unfolding parse_subpacket behind_split
  parse_subpacket-Shrinks sig area hashed h =
      behind_split-Shrinks sig area hashed (split_subpacket area) h (split_subpacket-CutsOff area)

  Ends-subpackets_loop :
      (fuel : ℕ) (sig : Sig) (area : Bytes) (hashed : Bool)
      → EndsBelow (length area)
      → length area ≤ fuel
      → Ends (subpackets_loop pe fuel sig area hashed)
  unfolding subpackets_loop Shrinks EndsBelow
  Ends-subpackets_loop fuel sig [] hashed h enough = Ends-ok sig
  Ends-subpackets_loop zero sig (b ∷ area) hashed h enough = absurd (omega arith)
  Ends-subpackets_loop (suc fuel) sig (b ∷ area) hashed h enough =
      let (done, shorter) = parse_subpacket-Shrinks sig (b ∷ area) hashed h in
      Ends->>= _ _ done (λ r same.
        let less = shorter r.0 r.1 same in
        Ends-subpackets_loop fuel r.1 r.0 hashed (λ bs lt. h bs (omega (arith, less, lt)))
          (omega (arith, less)))

  pub Ends-parse_subpackets :
      (sig : Sig) (area : Bytes) (hashed : Bool)
      → ((bs : Bytes) → length bs < length area → Ends (pe bs))
      → Ends (parse_subpackets pe sig area hashed)
  unfolding parse_subpackets EndsBelow
  Ends-parse_subpackets sig area hashed h =
      Ends->>= _ _ (Ends-subpackets_loop (length area) sig area hashed h (omega arith))
        (λ s same. Ends-check _ _ _ (Ends-ok s))
