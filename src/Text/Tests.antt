-- ===== src/Text/Tests.antt =====
-- Concrete texts.
use go_crypto.Base.{
  suc, ◌+◌, true, Option, none, some, List, [], ◌∷◌, ◌++◌, length, drop, Bytes, ◌==◌, if◌then◌else◌,
  ◌≡◌, ◌≢◌, refl,
}
use go_crypto.S2k.Hash.{sha256}
use go_crypto.Text.Cleartext.{end_text, end_marker, index_of, skip_newlines, body_loop, decode}
use go_crypto.Text.Cleartext.Escape.{new_escaper, write_pieces, close_text}
use go_crypto.Text.Cleartext.Names.{name_of_hash, message_start}
use go_crypto.Text.Cleartext.RoundTrip.{body_loop-write_pieces}
use go_crypto.Text.Cleartext.Message.{decode-write_pieces}
use go_crypto.Text.Canonical.{
  plain, after_cr, CanonicalText, write_canonical, canonical, canonical_byte, write_canonical_twice,
}

abbrev begun : CanonicalText
begun = record { written = 65 ∷ 13 ∷ []; state = after_cr }

abbrev two_lines : Bytes
two_lines = 10 ∷ 66 ∷ 10 ∷ 67 ∷ []

canonical-two_lines : canonical plain two_lines ≡ (13 ∷ 10 ∷ 66 ∷ 13 ∷ 10 ∷ 67 ∷ [], plain)
unfolding canonical canonical_byte
canonical-two_lines = refl

write_canonical_twice_example :
    write_canonical (write_canonical begun two_lines) two_lines
    ≡ write_canonical begun (two_lines ++ two_lines)
write_canonical_twice_example = write_canonical_twice begun two_lines two_lines

-- "- a ", LF and "b", in two pieces.
abbrev two_pieces : List Bytes
two_pieces = (45 ∷ 32 ∷ 97 ∷ 32 ∷ []) ∷ (10 ∷ 98 ∷ []) ∷ []

body_loop-write_pieces_example :
    (plain : Bytes) × (body_loop
        (suc (length (close_text (write_pieces new_escaper two_pieces) ++ (end_text ++ 10 ∷ []))))
        true
        []
        []
        (close_text (write_pieces new_escaper two_pieces) ++ (end_text ++ 10 ∷ []))
      ≡ some ((write_pieces new_escaper two_pieces).hashed, plain, end_text ++ 10 ∷ []))
body_loop-write_pieces_example = body_loop-write_pieces two_pieces []

-- A signature of the two lines "x" and its end, and a line behind it.
abbrev signature_tail : Bytes
signature_tail = 120 ∷ end_marker ++ 10 ∷ []

abbrev signature_text : Bytes
signature_text = end_text ++ 10 ∷ signature_tail

-- An `armor.Decode` that takes every text that is not empty.
accept : Bytes → Option Bytes
accept text = if length text == 0 then none else some text

name_of_hash-sha256 : name_of_hash sha256 ≢ []
unfolding name_of_hash
name_of_hash-sha256 = λ same. cc same

index_of-signature_text : index_of (signature_text ++ 122 ∷ []) end_marker ≡ some 31
unfolding index_of
index_of-signature_text = refl

skip_newlines-signature_text :
    31
      + length end_marker
      + skip_newlines (drop (31 + length end_marker) (signature_text ++ 122 ∷ []))
    ≡ length signature_text
unfolding skip_newlines
skip_newlines-signature_text = refl

decode-write_pieces_example :
    (plain : Bytes) × (decode accept (
        message_start (name_of_hash sha256)
        ++ (close_text (write_pieces new_escaper two_pieces) ++ (signature_text ++ 122 ∷ [])))
      ≡ some (
        record {
          headers = name_of_hash sha256 ∷ [];
          plaintext = plain;
          signed = (write_pieces new_escaper two_pieces).hashed;
          armored_signature = signature_text;
        },
        122 ∷ [],
      ))
unfolding accept
decode-write_pieces_example =
    decode-write_pieces accept sha256 two_pieces signature_tail (122 ∷ []) 31 signature_text
      name_of_hash-sha256 index_of-signature_text skip_newlines-signature_text refl
