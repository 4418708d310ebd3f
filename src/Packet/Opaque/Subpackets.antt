-- ===== src/Packet/Opaque/Subpackets.antt =====
-- Reading subpackets apart, and putting them together again.
use go_crypto.Base.{
  ℕ, zero, suc, ◌+◌, ◌≤◌, ◌<◌, false, Bool-cases, inl, inr, ◌⊎◌, List, [], ◌∷◌, ◌++◌, length, take,
  drop, Bytes, Result, ok, err, ◌==◌, ltb, ltb-eq-false, ◌≡◌, refl, sym, ap, ◌∙◌, arith,
  length-append, length-take, length-drop, take-append-drop, append_assoc, drop-append,
}
use go_crypto.Base.Words.{u32}
use go_crypto.Packet.Opaque.{
  OpaqueSubpacket, truncated, sub_length, sub_body, next_subpacket, after_subpacket,
  opaque_subpackets, serialize_subpacket, serialize_subpackets,
}

-- The bytes of a subpacket.
abbrev pub bytes_of : OpaqueSubpacket → Bytes
bytes_of p = p.encoded_length ++ p.sub_type ∷ p.contents

-- A subpacket was split off the front.
pub record SplitsOff (contents : Bytes) (n : ℕ) (p : OpaqueSubpacket) (rest : Bytes) : Type 0 where
  pub fits : length p.encoded_length ≤ 5
  pub front : bytes_of p ++ rest ≡ contents
  pub back : drop (n + length p.contents) contents ≡ rest

sub_length_small : (b : ℕ) (contents : Bytes) → (sub_length b contents).0 ≤ 5
unfolding sub_length
sub_length_small b contents = ground arith

sub_body-SplitsOff :
    (n sub_len : ℕ) (contents : Bytes)
    → n ≤ 5
    → n < length contents
    → (sub_body n sub_len contents ≡ err truncated)
      ⊎ ((p : OpaqueSubpacket) × (rest : Bytes) × (sub_body n sub_len contents ≡ ok (suc n, p))
          × SplitsOff contents (suc n) p rest)
unfolding sub_body
sub_body-SplitsOff n zero contents small some = inl (ground arith)
sub_body-SplitsOff n (suc m) contents small some = go (drop n contents) refl
  where
    go :
        (rest : Bytes)
        → drop n contents ≡ rest
        → (sub_body n (suc m) contents ≡ err truncated)
          ⊎ ((p : OpaqueSubpacket) × (rest : Bytes) × (sub_body n (suc m) contents ≡ ok (suc n, p))
              × SplitsOff contents (suc n) p rest)
    go [] e = absurd (omega (arith, ap length e, length-drop n contents, some))
    go (t ∷ rest) e = elim (Bool-cases (ltb (u32 (suc (length rest))) (suc m))) [
      | inl long ↦ inl (rw (e, long) refl)
      | inr short ↦
          let enough : ltb (suc (length rest)) (suc m) ≡ false = ground (arith, short) in
          let given : (suc m == 0) ≡ false = ground arith in
          let size : m ≤ length rest =
            omega (arith, ltb-eq-false (suc (length rest)) (suc m) enough) in
          let whole : (take n contents ++ t ∷ take m rest) ++ drop m rest ≡ contents =
            append_assoc (take n contents) (t ∷ take m rest) (drop m rest)
            ∙ ap (λ xs. take n contents ++ t ∷ xs) (take-append-drop m rest)
            ∙ ap (λ xs. take n contents ++ xs) (sym e)
            ∙ take-append-drop n contents in
          inr (
            record { sub_type = t; encoded_length = take n contents; contents = take m rest },
            drop m rest,
            rw (e, short, enough, given) refl,
            record {
              fits = omega (arith, small, length-take n contents);
              front = whole;
              back =
                  ap (drop (suc n + length (take m rest))) (sym whole)
                  ∙ drop-append (suc n + length (take m rest)) (take n contents ++ t ∷ take m rest)
                      (drop m rest)
                      (omega (
                        arith,
                        length-append (take n contents) (t ∷ take m rest),
                        length-take n contents,
                        some,
                      ));
            },
          )
    ]

next_subpacket-SplitsOff :
    (b : ℕ) (contents : Bytes)
    → (next_subpacket (b ∷ contents) ≡ err truncated)
      ⊎ ((n : ℕ) × (p : OpaqueSubpacket) × (rest : Bytes) × (next_subpacket (b ∷ contents)
            ≡ ok (n, p))
          × SplitsOff (b ∷ contents) n p rest)
unfolding next_subpacket
next_subpacket-SplitsOff b contents =
    let n = (sub_length b (b ∷ contents)).0 in
    let sub_len = (sub_length b (b ∷ contents)).1 in
    elim (Bool-cases (ltb (suc (length contents)) (suc n))) [
      | inl short ↦ inl (rw short refl)
      | inr large ↦
          let cases =
            sub_body-SplitsOff n sub_len (b ∷ contents) (sub_length_small b (b ∷ contents))
              (omega (arith, ltb-eq-false _ _ large)) in
          elim cases [
            | inl e ↦ inl (rw (large, e) refl)
            | inr (p, rest, e, splits) ↦ inr (suc n, p, rest, rw (large, e) refl, splits)
          ]
    ]

pub serialize_subpacket_lem :
    (p : OpaqueSubpacket) → length p.encoded_length ≤ 5 → serialize_subpacket p ≡ ok (bytes_of p)
unfolding serialize_subpacket
serialize_subpacket_lem p h =
    let fits : ltb 5 (length p.encoded_length) ≡ false = ground (arith, h) in rw fits refl

-- The contents were read apart: all of them, or up to a part that is truncated.
pub record ReadsApart (contents : Bytes) (result : Result (Unit {0}) × List OpaqueSubpacket)
    : Type 0 where
  pub read : Bytes
  pub rest : Bytes
  pub splits : read ++ rest ≡ contents
  pub serializes : serialize_subpackets result.1 ≡ ok read
  pub ends :
      ((result.0 ≡ ok tt) × (rest ≡ []))
      ⊎ ((result.0 ≡ err truncated) × (next_subpacket rest ≡ err truncated))

-- OpaqueSubpackets ends on any contents, without a panic: it reads all of them, or up to a part on
-- which nextSubpacket reports a truncated subpacket, and what it has read so far serializes to
-- exactly the bytes before that part.
pub opaque_subpackets-ReadsApart :
    (fuel : ℕ) (contents : Bytes)
    → length contents ≤ fuel
    → ReadsApart contents (opaque_subpackets fuel contents)
unfolding opaque_subpackets after_subpacket serialize_subpackets
opaque_subpackets-ReadsApart fuel [] h = record {
  read = [];
  rest = [];
  splits = refl;
  serializes = refl;
  ends = inl (refl, refl);
}
opaque_subpackets-ReadsApart zero (b ∷ contents) h = absurd (omega (arith, h))
opaque_subpackets-ReadsApart (suc fuel) (b ∷ contents) h =
    elim (next_subpacket-SplitsOff b contents) [
      | inl e ↦ rw e (record {
        read = [];
        rest = b ∷ contents;
        splits = refl;
        serializes = refl;
        ends = inr (refl, e);
      })
      | inr (n, p, rest, e, splits) ↦
          let ih = opaque_subpackets-ReadsApart fuel rest (
            omega (
              arith,
              h,
              ap length splits.front,
              length-append (bytes_of p) rest,
              length-append p.encoded_length (p.sub_type ∷ p.contents),
            )) in
          rw (e, splits.back)
            (record {
              read = bytes_of p ++ ih.read;
              rest = ih.rest;
              splits =
                  append_assoc (bytes_of p) ih.read ih.rest
                  ∙ ap (λ xs. bytes_of p ++ xs) ih.splits
                  ∙ splits.front;
              serializes = rw (serialize_subpacket_lem p splits.fits, ih.serializes) refl;
              ends = ih.ends;
            })
    ]
