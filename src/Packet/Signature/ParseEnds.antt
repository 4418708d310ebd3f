-- ===== src/Packet/Signature/ParseEnds.antt =====
-- The parse of a whole signature ends, whatever signatures are embedded in it.
use go_crypto.Base.{
  ℕ, zero, suc, ◌+◌, ◌*◌, ◌/◌, ◌^◌, bit_or, get_or, ◌<◌, Bool-cases, ltb, ltb-eq-true, ltb-eq-false,
  inl, inr, Option, Option-cases, none, some, [], ◌∷◌, length, take, drop, Bytes, Result, ok, err,
  unexpected_eof, ◌>>=◌, ◌≡◌, refl, sym, ap, ◌∙◌, arith, take-append-drop, length-take, length-drop,
}
use go_crypto.Io.{read_full, within_packet}
use go_crypto.Io.Laws.{read_full_short}
use go_crypto.Encoding.Mpi.{read_from}
use go_crypto.S2k.Hash.{Hash}
use go_crypto.Packet.Framing.Length.{read_full_packet}
use go_crypto.Packet.Framing.Length.Laws.{read_full_packet-append}
use go_crypto.Packet.Signature.{SignatureFields, Signature, Sig}
use go_crypto.Packet.Signature.HashSuffix.{build_hash_suffix, hash_octet}
use go_crypto.Packet.Signature.Parse.{
  read_numbers, known_hash, parse_unhashed, parse_with, parse_signature,
}
use go_crypto.Packet.Signature.Ends.{
  Ends, Ends-ok, Ends-err, Ends->>=, Ends-check, Ends-parse_subpackets,
}

read_full_short_packet :
    (n : ℕ) (src : Bytes) → length src < n → read_full_packet n src ≡ err unexpected_eof
unfolding read_full_packet within_packet
read_full_short_packet zero src h = absurd (omega arith)
read_full_short_packet (suc n) [] h = refl
read_full_short_packet (suc n) (b ∷ src) h = rw (read_full_short (suc n) b src h) refl

-- What follows a full read, of the bytes that were read and the rest, ends, and so does the read.
Ends-read {κ} :
    {B : Type κ} (n : ℕ) (src : Bytes) (f : Bytes × Bytes → Result B)
    → ((bs rest : Bytes)
        → length bs + length rest ≡ length src
        → length bs ≡ n
        → Ends (f (bs, rest)))
    → Ends (read_full_packet n src >>= f)
Ends-read n src f h = elim (Bool-cases (ltb (length src) n)) [
  | inl short ↦ rw (read_full_short_packet n src (ltb-eq-true _ _ short)) (Ends-err unexpected_eof)
  | inr enough ↦
      let fits = ltb-eq-false _ _ enough in
      let whole : read_full_packet n src ≡ ok (take n src, drop n src) =
        ap (read_full_packet n) (sym (take-append-drop n src))
        ∙ read_full_packet-append n (take n src) (drop n src) (omega (arith, length-take n src)) in
      rw whole (
        h (take n src) (drop n src) (omega (arith, length-take n src, length-drop n src))
          (omega (arith, length-take n src)))
]

Ends-within {κ} :
    {B : Type κ} (n : ℕ) (src : Bytes) (f : Bytes × Bytes → Result B)
    → ((bs rest : Bytes) → Ends (f (bs, rest)))
    → Ends (within_packet (read_full n src) >>= f)
unfolding read_full_packet
Ends-within n src f h = Ends-read n src f (λ bs rest e l. h bs rest)

Ends-read_from : (src : Bytes) → Ends (read_from src)
unfolding read_from
Ends-read_from src = Ends-within 2 src _ (λ buf rest.
    let n = bit_or (get_or buf 0 0 * 2 ^ 8) (get_or buf 1 0) in
    Ends-within ((n + 7) / 8) rest
      (λ r. ok (record { bytes = r.0; bit_length = n }, 2 + length r.0, r.1))
      (λ bs more. Ends-ok (record { bytes = bs; bit_length = n }, 2 + length bs, more)))

Ends-read_numbers : (n : ℕ) (src : Bytes) → Ends (read_numbers n src)
unfolding read_numbers
Ends-read_numbers zero src = Ends-ok _
Ends-read_numbers (suc n) src =
    Ends->>= _ _ (Ends-read_from src)
      (λ r e. Ends->>= _ _ (Ends-read_numbers n r.2) (λ rs e'. Ends-ok _))

Ends-known_hash : (h : Option Hash) → Ends (known_hash h)
unfolding known_hash
Ends-known_hash none = Ends-err _
Ends-known_hash (some h) = Ends-ok h

Ends-build_hash_suffix : (s : SignatureFields) (bs : Bytes) → Ends (build_hash_suffix s bs)
unfolding build_hash_suffix
Ends-build_hash_suffix s bs = elim (Option-cases (hash_octet s.version s.hash)) [
  | inl e ↦ rw (build_hash_suffix, e) (Ends-err _)
  | inr (id, e) ↦ rw (build_hash_suffix, e) (Ends-ok _)
]

module _ (pe : Bytes → Result Signature) where
  Ends-parse_unhashed :
      (sig : Sig) (r : Bytes)
      → ((bs : Bytes) → length bs < length r → Ends (pe bs))
      → Ends (parse_unhashed pe sig r)
  unfolding parse_unhashed
  Ends-parse_unhashed sig r h = Ends-read 2 r _ (λ size r1 e1 l1.
      Ends-read _ r1 _ (λ unhashed r2 e2 l2.
        Ends->>= _ _
          (Ends-parse_subpackets pe sig unhashed _ (λ bs lt. h bs (omega (arith, e1, e2, l1, lt))))
          (λ s same.
            Ends-read 2 r2 _
              (λ tag r3 e3 l3. Ends->>= _ _ (Ends-read_numbers _ r3) (λ ms same'. Ends-ok _)))))

  Ends-parse_with :
      (r : Bytes) → ((bs : Bytes) → length bs < length r → Ends (pe bs)) → Ends (parse_with pe r)
  unfolding parse_with
  Ends-parse_with r h = Ends-read 1 r _ (λ first r1 e1 l1. Ends-check _ _ _ (
      Ends-read 5 r1 _ (λ buf r2 e2 l2. Ends-check _ _ _ (
        Ends->>= _ _ (Ends-known_hash _) (λ hash known. Ends-read _ r2 _ (λ hashed r3 e3 l3.
          Ends->>= _ _ (Ends-build_hash_suffix _ hashed) (λ s built.
            Ends->>= _ _
              (Ends-parse_subpackets pe _ hashed _
                (λ bs lt. h bs (omega (arith, e1, e2, e3, l1, lt))))
              (λ sig parsed.
                Ends-parse_unhashed sig r3
                  (λ bs lt. h bs (omega (arith, e1, e2, e3, l1, lt)))))))))))

-- The parse of a signature ends with one unit of fuel for each byte and one more: each embedded
-- signature is shorter than the one it stands in.
pub Ends-parse_signature :
    (depth : ℕ) (r : Bytes) → length r < depth → Ends (parse_signature depth r)
unfolding parse_signature
Ends-parse_signature zero r h = absurd (omega arith)
Ends-parse_signature (suc depth) r h = Ends-parse_with _ r (λ bs lt.
    Ends->>= _ _ (Ends-parse_signature depth bs (omega (arith, lt))) (λ p same. Ends-ok _))
