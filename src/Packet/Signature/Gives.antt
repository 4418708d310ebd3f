-- ===== src/Packet/Signature/Gives.antt =====
-- What subpackets do to the signature that is read.
use go_crypto.Base.{
  ℕ, Bool, false, Option, none, some, List, [], ◌∷◌, ◌++◌, Bytes, Result, ok, ◌==◌, ◌≡◌, refl, ap,
  ◌∙◌, append_assoc, append-nil,
}
use go_crypto.Packet.SignatureArea.{OutputSubpacket}
use go_crypto.Packet.Signature.{Signature, SignatureFields}
use go_crypto.Packet.Signature.Subpacket.{apply_subpacket, set_field}
use go_crypto.Packet.Signature.Build.{hashed_part}
use go_crypto.Packet.Signature.Split.{apply_all}

-- A condition on what an option holds.
abbrev pub Given : {A : Type 0} → (A → Type 0) → Option A → Type 0
Given P none = Unit {0}
Given P (some a) = P a

abbrev pub with_raw : SignatureFields → List OutputSubpacket → SignatureFields
with_raw s ps = record s { raw_subpackets = s.raw_subpackets ++ ps }

-- The subpackets in front of others make the second signature of the first.
pub record Gives (s : SignatureFields) (ps : List OutputSubpacket) (s' : SignatureFields)
    : Type 0 where
  pub gives :
      (pe : Bytes → Result Signature) (e : Option Signature) (rest : List OutputSubpacket)
      → apply_all pe (s, e) (ps ++ rest) ≡ apply_all pe (s', e) rest

pub Gives-nil : (s : SignatureFields) → Gives s [] s
Gives-nil s = record { gives = λ pe e rest. refl }

pub Gives-none : (s s' : SignatureFields) → s ≡ s' → Gives s [] (with_raw s' [])
Gives-none s s' same = record {
  gives = λ pe e rest. rw append-nil (ap (λ t. apply_all pe (t, e) rest) same);
}

pub Gives-one :
    (s s' : SignatureFields) (t : ℕ) (c : Bool) (contents : Bytes)
    → (t == 32) ≡ false
    → set_field (with_raw s (hashed_part t c contents ∷ [])) t c contents ≡ ok s'
    → Gives s (hashed_part t c contents ∷ []) s'
unfolding apply_all apply_subpacket
Gives-one s s' t c contents other e = record { gives = λ pe emb rest. rw (other, e) refl }

pub Gives-append :
    (s s' s'' : SignatureFields) (ps qs : List OutputSubpacket)
    → Gives s ps s'
    → Gives s' qs s''
    → Gives s (ps ++ qs) s''
Gives-append s s' s'' ps qs first second = record {
  gives = λ pe e rest. rw append_assoc (first.gives pe e (qs ++ rest) ∙ second.gives pe e rest);
}
