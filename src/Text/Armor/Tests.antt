-- ===== src/Text/Armor/Tests.antt =====
-- A block over an encoding like base64, with the characters from "@" on.
use go_crypto.Base.{
  ℕ, suc, ◌+◌, ◌*◌, ◌/◌, ◌%◌, List, [], ◌∷◌, ◌++◌, length, concat, Bytes, All, Result, ok, err, eof,
  ◌>>=◌, ◌≡◌, refl, sym, ap, ◌∙◌, arith, append_assoc, append-nil,
}
use go_crypto.Text.Armor.{crc24, crc24_init}
use go_crypto.Text.Armor.Encode.{block_start, new_encoding, encoding_writes, encoding_close}
use go_crypto.Text.Armor.Encoded.{b64_pieces}
use go_crypto.Text.Armor.Reader.{new_line_reader, read_block}
use go_crypto.Text.Armor.Base64.{IsPlain, IsBase64}
use go_crypto.Text.Armor.RoundTrip.{finished, read_block-encoding_close}

quad_encode : Bytes → Bytes
quad_encode [] = []
quad_encode (a ∷ []) = (64 + a / 4 % 64) ∷ (64 + a % 4 * 16) ∷ 61 ∷ 61 ∷ []
quad_encode (a ∷ b ∷ []) =
    (64 + a / 4 % 64) ∷ (64 + (a % 4 * 16 + b / 16 % 16)) ∷ (64 + b % 16 * 4) ∷ 61 ∷ []
quad_encode (a ∷ b ∷ c ∷ bytes) =
    (64 + a / 4 % 64)
    ∷ (64 + (a % 4 * 16 + b / 16 % 16))
    ∷ (64 + (b % 16 * 4 + c / 64 % 4))
    ∷ (64 + c % 64)
    ∷ quad_encode bytes

quad_decode : Bytes → Result Bytes
quad_decode (p ∷ q ∷ r ∷ s ∷ []) =
    ok ((p % 64 * 4 + q % 64 / 16) ∷ (q % 16 * 16 + r % 64 / 4) ∷ (r % 4 * 64 + s % 64) ∷ [])
quad_decode text = err eof

plain_from : (n : ℕ) → IsPlain (64 + n)
plain_from n = (ground arith, ground arith, ground arith)

plain_pad : IsPlain 61
plain_pad = (refl, refl, refl)

quad_encode-IsPlain : (bytes : Bytes) → All IsPlain (quad_encode bytes)
unfolding quad_encode
quad_encode-IsPlain [] = tt
quad_encode-IsPlain (a ∷ []) = (plain_from _, (plain_from _, (plain_pad, (plain_pad, tt))))
quad_encode-IsPlain (a ∷ b ∷ []) = (plain_from _, (plain_from _, (plain_from _, (plain_pad, tt))))
quad_encode-IsPlain (a ∷ b ∷ c ∷ bytes) =
    (plain_from _, (plain_from _, (plain_from _, (plain_from _, quad_encode-IsPlain bytes))))

length-quad_encode : (bytes : Bytes) → length (quad_encode bytes) % 4 ≡ 0
unfolding quad_encode
length-quad_encode [] = refl
length-quad_encode (a ∷ []) = refl
length-quad_encode (a ∷ b ∷ []) = refl
length-quad_encode (a ∷ b ∷ c ∷ bytes) = omega (arith, length-quad_encode bytes)

quad_encode-IsBase64 : IsBase64 quad_encode quad_decode
unfolding quad_encode quad_decode
quad_encode-IsBase64 = record {
  plain = quad_encode-IsPlain;
  quads = length-quad_encode;
  quad = λ a b c. refl;
  decodes = λ a b c h. ground (arith, h);
}

-- An encoder that waits for its close.
abbrev wait : Bytes → Bytes → Bytes × List Bytes
wait held text = (held ++ text, [])

abbrev encode_held : Bytes → List Bytes
encode_held held = quad_encode held ∷ []

held-encodes :
    (held : Bytes) (texts : List Bytes)
    → concat (b64_pieces wait encode_held quad_encode held texts)
      ≡ quad_encode (held ++ concat texts)
unfolding b64_pieces
held-encodes held [] = append-nil _ ∙ ap quad_encode (sym (append-nil held))
held-encodes held (text ∷ texts) =
    held-encodes (held ++ text) texts ∙ ap quad_encode (append_assoc held text (concat texts))

-- "AB", and texts of four bytes in two pieces.
abbrev letters : Bytes
letters = 65 ∷ 66 ∷ []

abbrev two_texts : List Bytes
two_texts = (1 ∷ 2 ∷ 3 ∷ []) ∷ (255 ∷ []) ∷ []

read_block-encoding_close_example :
    (body : Bytes) × (encoding_writes wait encode_held quad_encode
          (new_encoding [] letters [])
          two_texts
        >>= encoding_close wait encode_held quad_encode
      ≡ ok (block_start letters [] ++ body))
    × (read_block quad_decode (suc (length body)) 10 (new_line_reader body)
        ≡ ok (quad_encode (concat two_texts), finished (crc24 crc24_init (concat two_texts))))
read_block-encoding_close_example =
    read_block-encoding_close wait encode_held quad_encode quad_decode [] letters [] two_texts 10
      quad_encode-IsBase64 (held-encodes []) (refl, (refl, tt)) (omega arith) (omega arith)
