-- ===== src/Text/Cleartext/Lines.antt =====
-- Text as lines: how they are escaped, signed and read.
use go_crypto.Base.{
  ℕ, zero, suc, ◌<◌, Bool, false, ◌&&◌, Bool-cases, inl, inr, some, List, [], ◌∷◌, ◌++◌, length,
  drop, Bytes, All, ◌==◌, bytes_equal, bytes_equal_refl, if◌then◌else◌, ◌≡◌, refl, sym, ap, ◌∙◌,
  arith, append_assoc, length-append,
}
use go_crypto.Text.Cleartext.{
  dash_escape, end_text, crlf, has_prefix, without_cr, cut_line, get_line, trim_right, body_loop,
}

-- A line in the message: one that begins with a hyphen is escaped.
unfoldable pub escape_line : Bytes → Bytes
escape_line [] = []
escape_line (c ∷ line) = if c == 45 then dash_escape ++ c ∷ line else c ∷ line

unfoldable pub encode_lines : List Bytes → Bytes
encode_lines [] = []
encode_lines (line ∷ lines) = escape_line line ++ 10 ∷ encode_lines lines

-- Lines behind a signed text, of which it is known whether it is empty: CRLFs stand between them.
unfoldable pub opened : Bool × Bytes → Bytes
opened (at_first, text) = if at_first then text else text ++ crlf

unfoldable pub add_lines : Bool × Bytes → List Bytes → Bool × Bytes
unfolding opened
add_lines s [] = s
add_lines s (line ∷ lines) = add_lines (false, opened s ++ line) lines

-- The lines with their ends.
unfoldable pub plain_lines : Bytes → List Bytes → Bytes
plain_lines plain [] = plain
plain_lines plain (line ∷ lines) = plain_lines (plain ++ (line ++ 10 ∷ [])) lines

abbrev pub IsText : ℕ → Type 0
IsText c = (c == 10) ≡ false

-- A line without an LF, and without whitespace at its end.
pub record IsLine (line : Bytes) : Type 0 where
  pub no_lf : All IsText line
  pub no_space : trim_right line ≡ line
  pub no_cr : without_cr line ≡ line

pub add_lines-append :
    (s : Bool × Bytes) (lines : List Bytes) (line : Bytes)
    → add_lines s (lines ++ line ∷ []) ≡ (false, opened (add_lines s lines) ++ line)
unfolding add_lines
add_lines-append s [] line = refl
add_lines-append s (l ∷ lines) line = add_lines-append (false, opened s ++ l) lines line

pub encode_lines-append :
    (lines : List Bytes) (line : Bytes)
    → encode_lines (lines ++ line ∷ []) ≡ (encode_lines lines ++ escape_line line) ++ 10 ∷ []
unfolding encode_lines
encode_lines-append [] line = refl
encode_lines-append (l ∷ lines) line =
    ap (λ xs. escape_line l ++ 10 ∷ xs) (encode_lines-append lines line)
    ∙ ap (λ xs. escape_line l ++ 10 ∷ xs)
        (append_assoc (encode_lines lines) (escape_line line) (10 ∷ []))
    ∙ sym (append_assoc (escape_line l) (10 ∷ encode_lines lines) (escape_line line ++ 10 ∷ []))
    ∙ sym (append_assoc (escape_line l ++ 10 ∷ encode_lines lines) (escape_line line) (10 ∷ []))

pub cut_line-append :
    (line rest : Bytes) → All IsText line → cut_line (line ++ 10 ∷ rest) ≡ some (line, rest)
unfolding cut_line
cut_line-append [] rest h = refl
cut_line-append (c ∷ line) rest (h, hs) = rw (h, cut_line-append line rest hs) refl

escape_line-IsText : (line : Bytes) → All IsText line → All IsText (escape_line line)
unfolding escape_line
escape_line-IsText [] h = tt
escape_line-IsText (c ∷ line) (h, hs) = elim (Bool-cases (c == 45)) [
  | inl e ↦ rw e (refl, (refl, (h, hs)))
  | inr e ↦ rw e (h, hs)
]

without_cr-escape_line :
    (line : Bytes) → without_cr line ≡ line → without_cr (escape_line line) ≡ escape_line line
unfolding escape_line without_cr
without_cr-escape_line [] h = h
without_cr-escape_line (c ∷ line) h = elim (Bool-cases (c == 45)) [
  | inl e ↦ rw e (ap (λ l. 45 ∷ 32 ∷ l) h)
  | inr e ↦ rw e h
]

get_line-escape_line :
    (line rest : Bytes)
    → IsLine line
    → get_line (escape_line line ++ 10 ∷ rest) ≡ (escape_line line, rest)
unfolding get_line
get_line-escape_line line rest h =
    rw
      (
        get_line,
        cut_line-append (escape_line line) rest (escape_line-IsText line h.no_lf),
        without_cr-escape_line line h.no_cr,
      )
      refl

-- What is read of a line that was escaped.
unescape_line :
    (line : Bytes)
    → (bytes_equal (escape_line line) end_text ≡ false)
      × ((if has_prefix (escape_line line) dash_escape
            then drop 2 (escape_line line)
            else escape_line line)
          ≡ line)
unfolding escape_line bytes_equal has_prefix
unescape_line [] = (refl, refl)
unescape_line (c ∷ line) = elim (Bool-cases (c == 45)) [
  | inl e ↦ rw e (refl, refl)
  | inr e ↦ rw (e, e) (refl, refl)
]

-- The loop over the lines of a message reads them up to the start of the signature.
pub body_loop-encode_lines :
    (fuel : ℕ) (at_first : Bool) (text plain tail : Bytes) (lines : List Bytes)
    → All IsLine lines
    → length lines < fuel
    → body_loop fuel at_first text plain (encode_lines lines ++ (end_text ++ 10 ∷ tail))
      ≡ some ((add_lines (at_first, text) lines).1, plain_lines plain lines, end_text ++ 10 ∷ tail)
unfolding body_loop encode_lines add_lines plain_lines
body_loop-encode_lines zero at_first text plain tail lines h enough = absurd (omega arith)
body_loop-encode_lines (suc fuel) at_first text plain tail [] h enough =
    rw (bytes_equal_refl end_text) refl
body_loop-encode_lines (suc fuel) at_first text plain tail (line ∷ lines) (h, hs) enough =
    let rest = encode_lines lines ++ (end_text ++ 10 ∷ tail) in
    let (other, same) = unescape_line line in
    let more : (length (escape_line line) == 0 && length rest == 0) ≡ false =
      ground (arith, length-append (encode_lines lines) (end_text ++ 10 ∷ tail)) in
    let ih =
      body_loop-encode_lines fuel false (opened (at_first, text) ++ line)
        (plain ++ (line ++ 10 ∷ [])) tail lines hs (omega arith) in
    rw
      (
        append_assoc (escape_line line) (10 ∷ encode_lines lines) (end_text ++ 10 ∷ tail),
        get_line-escape_line line rest h,
        other,
        same,
        h.no_space,
        more,
      )
      ih
