-- ===== src/Packet/Opaque/Serialized.antt =====
-- Subpackets that were put together are read apart again.
use go_crypto.Base.{
  ℕ, zero, suc, ◌+◌, ◌^◌, ◌≤◌, ◌<◌, false, List, [], ◌∷◌, ◌++◌, length, drop, Bytes, ok, ◌==◌, ltb,
  ◌≡◌, refl, sym, ap, ◌∙◌, subst, arith, length-append, append_assoc, take-append, drop-append, All,
}
use go_crypto.Base.Words.{u32}
use go_crypto.Packet.Opaque.{
  OpaqueSubpacket, sub_length, sub_body, next_subpacket, after_subpacket, opaque_subpackets,
  serialize_subpackets,
}
use go_crypto.Packet.Opaque.Subpackets.{bytes_of, serialize_subpacket_lem}

-- A subpacket whose length is encoded as the code reads it, whatever follows.
pub record IsSubpacket (p : OpaqueSubpacket) : Type 0 where
  pub first : ℕ
  pub others : Bytes
  pub encoded : p.encoded_length ≡ first ∷ others
  pub fits : suc (length others) ≤ 5
  pub encodes :
      (more : Bytes)
      → sub_length first (first ∷ (others ++ more)) ≡ (suc (length others), suc (length p.contents))

sub_body_lem :
    (enc : Bytes) (t : ℕ) (contents more : Bytes)
    → length (t ∷ (contents ++ more)) < 2 ^ 32
    → sub_body (length enc) (suc (length contents)) (enc ++ (t ∷ (contents ++ more)))
      ≡ ok (suc (length enc), record { sub_type = t; encoded_length = enc; contents = contents })
unfolding sub_body
sub_body_lem enc t contents more all =
    let size = length-append contents more in
    let short : ltb (u32 (suc (length (contents ++ more)))) (suc (length contents)) ≡ false =
      ground (arith, size, all) in
    let enough : ltb (suc (length (contents ++ more))) (suc (length contents)) ≡ false =
      ground (arith, size) in
    let given : (suc (length contents) == 0) ≡ false = ground arith in
    rw
      (
        drop-append (length enc) enc (t ∷ (contents ++ more)) refl,
        short,
        given,
        enough,
        take-append (length enc) enc (t ∷ (contents ++ more)) refl,
        take-append (length contents) contents more refl,
      )
      refl

next_subpacket_fields :
    (first t : ℕ) (others contents more : Bytes)
    → sub_length first (first ∷ (others ++ (t ∷ (contents ++ more))))
      ≡ (suc (length others), suc (length contents))
    → length (t ∷ (contents ++ more)) < 2 ^ 32
    → next_subpacket ((first ∷ others) ++ (t ∷ (contents ++ more)))
      ≡ ok (
        suc (suc (length others)),
        record { sub_type = t; encoded_length = first ∷ others; contents = contents },
      )
unfolding next_subpacket
next_subpacket_fields first t others contents more encodes all =
    let large : ltb (suc (length (others ++ (t ∷ (contents ++ more))))) (suc (suc (length others)))
        ≡ false =
      ground (arith, length-append others (t ∷ (contents ++ more))) in
    rw (encodes, large) (sub_body_lem (first ∷ others) t contents more all)

next_subpacket_lem :
    (p : OpaqueSubpacket) (more : Bytes)
    → IsSubpacket p
    → length (bytes_of p ++ more) < 2 ^ 32
    → next_subpacket (bytes_of p ++ more) ≡ ok (suc (length p.encoded_length), p)
next_subpacket_lem p more is all =
    let body : Bytes = p.sub_type ∷ (p.contents ++ more) in
    let same : bytes_of p ++ more ≡ p.encoded_length ++ body =
      append_assoc p.encoded_length (p.sub_type ∷ p.contents) more in
    let fields =
      next_subpacket_fields is.first p.sub_type is.others p.contents more (is.encodes body)
        (omega (arith, all, ap length same, length-append p.encoded_length body)) in
    ap next_subpacket same
    ∙ subst
        (λ (enc : Bytes).
          next_subpacket (enc ++ body)
          ≡ ok (
            suc (length enc),
            record { sub_type = p.sub_type; encoded_length = enc; contents = p.contents },
          ))
        (sym is.encoded) fields

opaque_subpackets_step :
    (fuel n : ℕ) (contents rest : Bytes) (p : OpaqueSubpacket) (ps : List OpaqueSubpacket)
    → next_subpacket contents ≡ ok (n, p)
    → drop (n + length p.contents) contents ≡ rest
    → opaque_subpackets fuel rest ≡ (ok tt, ps)
    → opaque_subpackets (suc fuel) contents ≡ (ok tt, p ∷ ps)
unfolding opaque_subpackets after_subpacket next_subpacket
opaque_subpackets_step fuel n [] rest p ps e back more = absurd cc
opaque_subpackets_step fuel n (b ∷ contents) rest p ps e back more = rw (e, back, more) refl

-- The bytes of all subpackets.
abbrev pub all_bytes : List OpaqueSubpacket → Bytes
all_bytes [] = []
all_bytes (p ∷ ps) = bytes_of p ++ all_bytes ps

-- Subpackets whose lengths are encoded as the code reads them, of fewer than 2 ^ 32 bytes together,
-- are serialized one after the other and read back as they were.
pub opaque_subpackets-serialize_subpackets :
    (fuel : ℕ) (ps : List OpaqueSubpacket)
    → All IsSubpacket ps
    → length (all_bytes ps) < 2 ^ 32
    → length (all_bytes ps) ≤ fuel
    → (serialize_subpackets ps ≡ ok (all_bytes ps))
      × (opaque_subpackets fuel (all_bytes ps) ≡ (ok tt, ps))
unfolding opaque_subpackets serialize_subpackets
opaque_subpackets-serialize_subpackets fuel [] is small enough = (refl, refl)
opaque_subpackets-serialize_subpackets zero (p ∷ ps) (first, others) small enough = absurd (
    omega (
      arith,
      enough,
      length-append (bytes_of p) (all_bytes ps),
      length-append p.encoded_length (p.sub_type ∷ p.contents),
    ))
opaque_subpackets-serialize_subpackets (suc fuel) (p ∷ ps) (first, others) small enough =
    let bytes = all_bytes ps in
    let size = length-append (bytes_of p) bytes in
    let size' = length-append p.encoded_length (p.sub_type ∷ p.contents) in
    let (e, same) =
      opaque_subpackets-serialize_subpackets fuel ps others (omega (arith, small, size))
        (omega (arith, enough, size, size')) in
    let fits = serialize_subpacket_lem p (omega (arith, first.fits, ap length first.encoded)) in
    (
      rw (fits, e) refl,
      opaque_subpackets_step fuel (suc (length p.encoded_length)) (bytes_of p ++ bytes) bytes p ps
          (next_subpacket_lem p bytes first small)
          (drop-append (suc (length p.encoded_length) + length p.contents) (bytes_of p) bytes
            (omega (arith, size')))
          same,
    )
