-- ===== src/Text/Armor/Encoded.antt =====
-- All that is written of armor.
use go_crypto.Base.{
  ℕ, ◌*◌, ◌^◌, bit_xor, ◌<◌, List, [], ◌∷◌, ◌++◌, length, concat, All, ◌≤◌, Bytes, ok, ◌>>=◌,
  >>=_assoc, >>=_cong, ◌≡◌, refl, sym, ap, ◌∙◌, arith, append_assoc,
}
use go_crypto.Base.Words.{u32}
use go_crypto.Text.Armor.{
  crc24, crc24_rounds, crc24_init, armor_end, block_end, newline, armor_end_of_line,
}
use go_crypto.Text.Armor.Breaker.{
  LineBreaker, breaker_write, breaker_writes, breaker_close, join_lines,
}
use go_crypto.Text.Armor.Broken.{breaker_close-breaker_writes}
use go_crypto.Text.Armor.Encode.{
  Encoding, block_start, checksum_bytes, new_encoding, encoding_write, encoding_writes,
  encoding_close,
}

pub crc24-append : (crc : ℕ) (a b : Bytes) → crc24 crc (a ++ b) ≡ crc24 (crc24 crc a) b
unfolding crc24
crc24-append crc [] b = refl
crc24-append crc (x ∷ a) b = crc24-append (crc24_rounds 8 (bit_xor crc (u32 (x * 2 ^ 16)))) a b

breaker_writes-append :
    (l : LineBreaker) (xs ys : List Bytes)
    → breaker_writes l (xs ++ ys) ≡ breaker_writes l xs >>= λ l'. breaker_writes l' ys
unfolding breaker_writes
breaker_writes-append l [] ys = refl
breaker_writes-append l (x ∷ xs) ys =
    >>=_cong (breaker_write _ l x) _ _ (λ l'. breaker_writes-append l' xs ys)
    ∙ sym (>>=_assoc (breaker_write _ l x) _ _)

module _ {ℓ} {E : Type ℓ} (b64_write : E → Bytes → E × List Bytes) (b64_close : E → List Bytes)
    (b64_encode : Bytes → Bytes) where
  -- The calls that the encoder makes of the breaker for some texts, with its close.
  unfoldable pub b64_pieces : E → List Bytes → List Bytes
  b64_pieces s [] = b64_close s
  b64_pieces s (text ∷ texts) = let (s', pieces) = b64_write s text in pieces ++ b64_pieces s' texts

  -- What stands behind the lines, from their last LF on.
  abbrev pub block_close : ℕ → Bytes → Bytes
  block_close crc block_type =
      block_end
      ++ (b64_encode (checksum_bytes crc)
          ++ (newline ++ (armor_end ++ (block_type ++ armor_end_of_line))))

  encoding_writes-pieces :
      (e : Encoding E) (texts : List Bytes)
      → encoding_writes b64_write b64_close b64_encode e texts
          >>= encoding_close b64_write b64_close b64_encode
        ≡ breaker_writes e.breaker (b64_pieces e.b64 texts) >>= λ l.
            ok (breaker_close l ++ block_close (crc24 e.crc (concat texts)) e.block_type)
  unfolding encoding_writes encoding_close b64_pieces crc24 encoding_write
  encoding_writes-pieces e [] = refl
  encoding_writes-pieces e (text ∷ texts) =
      let (b64, pieces) = b64_write e.b64 text in
      let first = breaker_writes e.breaker pieces in
      let close = encoding_close b64_write b64_close b64_encode in
      let crc = sym (crc24-append e.crc text (concat texts)) in
      >>=_assoc (encoding_write b64_write b64_close b64_encode e text) _ close
      ∙ >>=_assoc first _ _
      ∙ >>=_cong first _ _ (λ l.
        encoding_writes-pieces (record e { breaker = l; b64 = b64; crc = crc24 e.crc text }) texts
        ∙ ap
            (λ c. breaker_writes l (b64_pieces b64 texts) >>= λ l'.
              ok (breaker_close l' ++ block_close c e.block_type))
            crc)
      ∙ sym (>>=_assoc first _ _)
      ∙ ap
          (λ r. r >>= λ l.
            ok (breaker_close l ++ block_close (crc24 e.crc (text ++ concat texts)) e.block_type))
          (sym (breaker_writes-append e.breaker pieces (b64_pieces b64 texts)))

  -- Armor as it is written, over lines of 64 bytes.
  pub record IsArmor (block_type : Bytes) (headers : List (Bytes × Bytes)) (crc : ℕ)
      (text out : Bytes) : Type 0 where
    pub full : List Bytes
    pub last : List Bytes
    pub all : All (λ (line : Bytes). length line ≡ 64) full
    pub short : All (λ (line : Bytes). length line < 64) last
    pub single : length last ≤ 1
    pub holds : text ≡ concat (full ++ last)
    pub written :
        out
        ≡ block_start block_type headers
          ++ (join_lines (full ++ last)
              ++ 61
                ∷ (b64_encode (checksum_bytes crc)
                    ++ (newline ++ (armor_end ++ (block_type ++ armor_end_of_line)))))

  -- What an encoder writes for some texts is their encoding.
  abbrev pub IsEncoder : E → Type 0
  IsEncoder new = (texts : List Bytes) → concat (b64_pieces new texts) ≡ b64_encode (concat texts)

  pub encoding_close-encoding_writes :
      (new : E) (block_type : Bytes) (headers : List (Bytes × Bytes)) (texts : List Bytes)
      → IsEncoder new
      → (out : Bytes) × (encoding_writes b64_write b64_close b64_encode
              (new_encoding new block_type headers)
              texts
            >>= encoding_close b64_write b64_close b64_encode
          ≡ ok out)
        × IsArmor block_type headers
            (crc24 crc24_init (concat texts))
            (b64_encode (concat texts))
            out
  encoding_close-encoding_writes new block_type headers texts encodes =
      let start = block_start block_type headers in
      let (l, e, h) = breaker_close-breaker_writes start 64 (b64_pieces new texts) (omega arith) in
      let crc = crc24 crc24_init (concat texts) in
      let out = breaker_close l ++ block_close crc block_type in
      let behind : Bytes =
        61
        ∷ (b64_encode (checksum_bytes crc)
            ++ (newline ++ (armor_end ++ (block_type ++ armor_end_of_line)))) in
      (
        out,
        encoding_writes-pieces (new_encoding new block_type headers) texts
            ∙ ap (λ r. r >>= λ l'. ok (breaker_close l' ++ block_close crc block_type)) e,
        record {
          full = h.full;
          last = h.last;
          all = h.all;
          short = h.short;
          single = h.single;
          holds = sym (encodes texts) ∙ h.holds;
          written =
              sym (append_assoc (breaker_close l) (10 ∷ []) behind)
              ∙ ap (λ xs. xs ++ behind) h.lines
              ∙ append_assoc start (join_lines (h.full ++ h.last)) behind;
        },
      )
