-- ===== src/Text/Cleartext/Message.antt =====
-- A whole cleartext message is read as it was written.
use go_crypto.Base.{
  ℕ, suc, ◌+◌, false, Option, some, List, [], ◌∷◌, ◌++◌, length, drop, Bytes, ◌==◌, bytes_equal,
  ◌≡◌, ◌≢◌, refl, ◌∙◌, arith, take-append, drop-append,
}
use go_crypto.S2k.Hash.{Hash, sha1, sha224, sha256, sha384, sha512, sha3_256, sha3_512, other}
use go_crypto.Text.Cleartext.{
  end_text, end_marker, index_of, get_line, trim_right, trim_left, header_values, headers_loop,
  find_start, skip_newlines, take_signature, decode,
}
use go_crypto.Text.Cleartext.Escape.{new_escaper, write_pieces, close_text}
use go_crypto.Text.Cleartext.Names.{name_of_hash, message_start}
use go_crypto.Text.Cleartext.RoundTrip.{body_loop-write_pieces}

find_start-message_start :
    (name rest : Bytes)
    → find_start (message_start name ++ rest)
      ≡ some (10 ∷ 72 ∷ 97 ∷ 115 ∷ 104 ∷ 58 ∷ 32 ∷ ((name ++ 10 ∷ 10 ∷ []) ++ rest))
unfolding find_start message_start
find_start-message_start name rest = refl

get_line-start :
    (name rest : Bytes)
    → get_line (10 ∷ 72 ∷ 97 ∷ 115 ∷ 104 ∷ 58 ∷ 32 ∷ ((name ++ 10 ∷ 10 ∷ []) ++ rest))
      ≡ ([], 72 ∷ 97 ∷ 115 ∷ 104 ∷ 58 ∷ 32 ∷ ((name ++ 10 ∷ 10 ∷ []) ++ rest))
unfolding get_line
get_line-start name rest = refl

-- The line of the header, and what it says.
abbrev header_line : Bytes → Bytes
header_line name = 72 ∷ 97 ∷ 115 ∷ 104 ∷ 58 ∷ 32 ∷ name

get_line-header_line :
    (h : Hash) (rest : Bytes)
    → get_line (header_line ((name_of_hash h ++ 10 ∷ 10 ∷ []) ++ rest))
      ≡ (header_line (name_of_hash h), 10 ∷ rest)
unfolding get_line name_of_hash
get_line-header_line sha1 rest = refl
get_line-header_line sha224 rest = refl
get_line-header_line sha256 rest = refl
get_line-header_line sha384 rest = refl
get_line-header_line sha512 rest = refl
get_line-header_line sha3_256 rest = refl
get_line-header_line sha3_512 rest = refl
get_line-header_line (other n) rest = refl

header_values-header_line :
    (h : Hash)
    → name_of_hash h ≢ []
    → header_values (header_line (name_of_hash h)) ≡ some (name_of_hash h ∷ [])
unfolding header_values name_of_hash bytes_equal trim_right trim_left
header_values-header_line sha1 named = absurd (named refl)
header_values-header_line sha224 named = refl
header_values-header_line sha256 named = refl
header_values-header_line sha384 named = refl
header_values-header_line sha512 named = refl
header_values-header_line sha3_256 named = refl
header_values-header_line sha3_512 named = refl
header_values-header_line (other n) named = absurd (named refl)

headers_step :
    (fuel : ℕ) (headers values : List Bytes) (line rest rest' : Bytes)
    → get_line rest ≡ (line, rest')
    → (length rest == 0) ≡ false
    → (length line == 0) ≡ false
    → header_values line ≡ some values
    → headers_loop (suc fuel) headers rest ≡ headers_loop fuel (headers ++ values) rest'
unfolding headers_loop
headers_step fuel headers values line rest rest' cut full some_line known =
    rw (headers_loop, full, cut, some_line, known, cut) refl

headers_end :
    (fuel : ℕ) (headers : List Bytes) (rest : Bytes)
    → headers_loop (suc fuel) headers (10 ∷ rest) ≡ some (headers, rest)
unfolding headers_loop get_line
headers_end fuel headers rest =
    let full : (suc (length rest) == 0) ≡ false = ground arith in rw full refl

headers_loop-header_line :
    (fuel : ℕ) (h : Hash) (rest : Bytes)
    → name_of_hash h ≢ []
    → headers_loop (suc (suc fuel)) [] (header_line ((name_of_hash h ++ 10 ∷ 10 ∷ []) ++ rest))
      ≡ some (name_of_hash h ∷ [], rest)
headers_loop-header_line fuel h rest named =
    headers_step (suc fuel) [] (name_of_hash h ∷ []) (header_line (name_of_hash h)) _ (10 ∷ rest)
      (get_line-header_line h rest) (ground arith) (ground arith)
      (header_values-header_line h named)
    ∙ headers_end fuel (name_of_hash h ∷ []) rest

module _ {ℓ} {S : Type ℓ} (armor_decode : Bytes → Option S) where
  take_signature-armored :
      (headers : List Bytes) (text plain armored rest : Bytes) (i : ℕ) (s : S)
      → index_of (armored ++ rest) end_marker ≡ some i
      → i + length end_marker + skip_newlines (drop (i + length end_marker) (armored ++ rest))
        ≡ length armored
      → armor_decode armored ≡ some s
      → take_signature armor_decode headers (text, plain, armored ++ rest)
        ≡ some (
          record { headers = headers; plaintext = plain; signed = text; armored_signature = s },
          rest,
        )
  unfolding take_signature
  take_signature-armored headers text plain armored rest i s found whole decoded =
      rw
        (
          take_signature,
          found,
          whole,
          take-append _ armored rest refl,
          decoded,
          whole,
          drop-append _ armored rest refl,
        )
        refl

  -- A message signed with one hash function that has a name, written in any pieces and closed, with
  -- an armored signature that starts with its line, in which, before the rest, the first end marker
  -- is at its end but for newlines, and which armor.Decode accepts: Decode finds the name in the
  -- header, the text that was hashed as the signed text, that signature, and the rest.
  pub decode-write_pieces :
      (h : Hash) (pieces : List Bytes) (tail rest : Bytes) (i : ℕ) (s : S)
      → let armored : Bytes = end_text ++ 10 ∷ tail in
        name_of_hash h ≢ []
        → index_of (armored ++ rest) end_marker ≡ some i
        → i + length end_marker + skip_newlines (drop (i + length end_marker) (armored ++ rest))
          ≡ length armored
        → armor_decode armored ≡ some s
        → let d = write_pieces new_escaper pieces in
          (plain : Bytes) × (decode armor_decode
              (message_start (name_of_hash h) ++ (close_text d ++ (armored ++ rest)))
            ≡ some (
              record {
                headers = name_of_hash h ∷ [];
                plaintext = plain;
                signed = d.hashed;
                armored_signature = s;
              },
              rest,
            ))
  unfolding decode
  decode-write_pieces h pieces tail rest i s named found whole decoded =
      let d = write_pieces new_escaper pieces in
      let name = name_of_hash h in
      let armored : Bytes = end_text ++ 10 ∷ tail in
      let message = close_text d ++ (armored ++ rest) in
      let (plain, read) = body_loop-write_pieces pieces (tail ++ rest) in
      (
        plain,
        rw
            (
              decode,
              find_start-message_start name message,
              get_line-start name message,
              headers_loop-header_line
                  (length (97 ∷ 115 ∷ 104 ∷ 58 ∷ 32 ∷ ((name ++ 10 ∷ 10 ∷ []) ++ message))) h
                  message named,
              read,
              take_signature-armored (name ∷ []) d.hashed plain armored rest i s found whole
                  decoded,
            )
            refl,
      )
