-- ===== src/Text/Armor/RoundTrip.antt =====
-- What is armored is read back, and its checksum agrees.
use go_crypto.Base.{
  ℕ, suc, ◌+◌, ◌/◌, ◌%◌, ◌^◌, ◌≤◌, ◌<◌, bit_and, true, false, some, List, [], ◌∷◌, ◌++◌, length,
  concat, Bytes, All, All-append, Result, ok, err, eof, ◌>>=◌, ◌≡◌, refl, sym, ap, subst, ◌∙◌,
  arith, length-append,
}
use go_crypto.Base.Words.{u8}
use go_crypto.Text.Cleartext.{has_prefix}
use go_crypto.Text.Cleartext.Lines.{IsText}
use go_crypto.Text.Armor.{crc24, crc24_init, crc24_mask, armor_end, newline, armor_end_of_line}
use go_crypto.Text.Armor.Breaker.{join_lines}
use go_crypto.Text.Armor.Encode.{
  block_start, checksum_bytes, new_encoding, encoding_writes, encoding_close,
}
use go_crypto.Text.Armor.Encoded.{IsEncoder, encoding_close-encoding_writes}
use go_crypto.Text.Armor.Reader.{
  LineReader, new_line_reader, read_line, read_end, read_checksum, take_line, line_read, read_block,
}
use go_crypto.Text.Armor.Lines.{read_line-append, read_line-last, reading, read_block-lines}
use go_crypto.Text.Armor.Base64.{
  IsPlain, IsBase64, without_cr-plain, without_cr-more, plain-IsText, lines-IsArmorLine,
  checksum-bytes,
}

-- What stands behind the lines of a block.
abbrev behind : (Bytes → Bytes) → ℕ → Bytes → Bytes
behind b64_encode crc block_type =
    61
    ∷ (b64_encode (checksum_bytes crc)
        ++ (newline ++ (armor_end ++ (block_type ++ armor_end_of_line))))

-- The reader where it has found the end.
abbrev pub finished : ℕ → LineReader
finished crc = record {
  inp = [];
  buf = [];
  at_end = true;
  crc = bit_and crc crc24_mask;
  crc_set = true;
}

armor_end-IsText : All IsText armor_end
armor_end-IsText = (refl, (refl, (refl, (refl, (refl, (refl, (refl, (refl, (refl, tt)))))))))

armor_end_of_line-IsText : All IsText armor_end_of_line
armor_end_of_line-IsText = (refl, (refl, (refl, (refl, (refl, tt)))))

module _ (b64_encode : Bytes → Bytes) (b64_decode : Bytes → Result Bytes)
    (b64 : IsBase64 b64_encode b64_decode) where
  -- The last line of a block ends with the source.
  read_line-end :
      (block_type : Bytes)
      → All IsText block_type
      → length block_type ≤ 80
      → read_line (armor_end ++ (block_type ++ armor_end_of_line))
        ≡ some (armor_end ++ (block_type ++ armor_end_of_line), false, [])
  read_line-end block_type text fits =
      read_line-last (armor_end ++ (block_type ++ armor_end_of_line))
        (All-append IsText armor_end (block_type ++ armor_end_of_line) armor_end-IsText
          (All-append IsText block_type armor_end_of_line text armor_end_of_line-IsText))
        (omega arith) (omega (arith, length-append block_type armor_end_of_line))

  line_read-behind :
      (crc : ℕ) (block_type : Bytes) (n : ℕ)
      → All IsText block_type
      → length block_type ≤ 80
      → line_read b64_decode (reading (behind b64_encode crc block_type) []) n
        ≡ (err eof, finished crc)
  unfolding line_read take_line read_checksum read_end has_prefix
  line_read-behind crc block_type n text fits =
      let line = b64_encode (checksum_bytes crc) in
      let plain = b64.plain (checksum_bytes crc) in
      let size = b64.quad (u8 (crc / 2 ^ 16)) (u8 (crc / 2 ^ 8)) (u8 crc) in
      let read =
        read_line-append (61 ∷ line) (armor_end ++ (block_type ++ armor_end_of_line))
          (refl, plain-IsText line plain)
          (without_cr-more 61 line refl (without_cr-plain line plain)) (omega (arith, size)) in
      let decoded =
        b64.decodes (u8 (crc / 2 ^ 16)) (u8 (crc / 2 ^ 8)) (u8 crc)
          (omega arith, (omega arith, (omega arith, tt))) in
      rw
        (
          line_read,
          read,
          take_line,
          size,
          decoded,
          read_checksum,
          read_end,
          read_line-end block_type text fits,
          checksum-bytes crc,
        )
        refl

length-join_lines :
    (lines : List Bytes) → length (join_lines lines) ≡ length lines + length (concat lines)
unfolding join_lines
length-join_lines [] = refl
length-join_lines (line ∷ lines) = omega (
  arith,
  length-join_lines lines,
  length-append line (10 ∷ join_lines lines),
  length-append line (concat lines),
)

module _ {ℓ} {E : Type ℓ} (b64_write : E → Bytes → E × List Bytes) (b64_close : E → List Bytes)
    (b64_encode : Bytes → Bytes) (b64_decode : Bytes → Result Bytes) where
  -- Over a base64 whose texts are quads of characters other than LF, CR and hyphen, and that decodes
  -- three bytes, and an encoder that writes the encoding of what it is given, whatever the block
  -- type without an LF, of at most 80 bytes, the headers and the texts: Encode, Write of the texts
  -- and Close put out the start of the block and a body, from which the line reader, by reads into
  -- any number of bytes, with one unit of fuel for each byte and one more, reads the encoding of the
  -- texts and then the end, with the checksum that crc24 gives for the texts.
  pub read_block-encoding_close :
      (new : E) (block_type : Bytes) (headers : List (Bytes × Bytes)) (texts : List Bytes) (n : ℕ)
      → IsBase64 b64_encode b64_decode
      → IsEncoder b64_write b64_close b64_encode new
      → All IsText block_type
      → length block_type ≤ 80
      → 0 < n
      → (body : Bytes) × (encoding_writes b64_write b64_close b64_encode
              (new_encoding new block_type headers)
              texts
            >>= encoding_close b64_write b64_close b64_encode
          ≡ ok (block_start block_type headers ++ body))
        × (read_block b64_decode (suc (length body)) n (new_line_reader body)
            ≡ ok (b64_encode (concat texts), finished (crc24 crc24_init (concat texts))))
  read_block-encoding_close new block_type headers texts n b64 encodes text fits pos =
      let (out, e, h) =
        encoding_close-encoding_writes b64_write b64_close b64_encode new block_type headers texts
          encodes in
      let crc = crc24 crc24_init (concat texts) in
      let lines = h.full ++ h.last in
      let rest = behind b64_encode crc block_type in
      let body = join_lines lines ++ rest in
      let good =
        lines-IsArmorLine h.full h.last h.all h.short h.single
          (subst (All IsPlain) h.holds (b64.plain (concat texts)))
          (ap (λ xs. length xs % 4) (sym h.holds) ∙ b64.quads (concat texts)) in
      (
        body,
        e ∙ ap ok h.written,
        read_block-lines b64_decode (suc (length body)) n [] rest lines (finished crc) pos
              (omega (arith, length-join_lines lines, length-append (join_lines lines) rest)) good
              (λ k. line_read-behind b64_encode b64_decode b64 crc block_type k text fits)
            ∙ ap (λ xs. ok (xs, finished crc)) (sym h.holds),
      )
