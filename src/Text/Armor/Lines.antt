-- ===== src/Text/Armor/Lines.antt =====
-- Lines of armor are read back.
use go_crypto.Base.{
  ℕ, zero, suc, ◌+◌, ◌≤◌, ◌<◌, true, false, none, some, List, [], ◌∷◌, ◌++◌, length, take, drop,
  concat, Bytes, All, Result, ok, err, eof, ◌==◌, ltb, ◌≡◌, ◌≢◌, refl, sym, ap, ◌∙◌, arith,
  append_assoc, length-append, length-drop, take-append-drop,
}
use go_crypto.Text.Cleartext.{has_prefix, cut_line, without_cr}
use go_crypto.Text.Cleartext.Lines.{IsText, cut_line-append}
use go_crypto.Text.Armor.{armor_end}
use go_crypto.Text.Armor.Breaker.{join_lines}
use go_crypto.Text.Armor.Reader.{
  read_line, LineReader, take_line, line_read, read_block, after_read,
}

-- A line of an armored text: it is at most 64 bytes long, but not five, and it is neither the end nor has it an
-- LF, or a CR at its end.
pub record IsArmorLine (line : Bytes) : Type 0 where
  pub no_lf : All IsText line
  pub no_cr : without_cr line ≡ line
  pub no_end : has_prefix line armor_end ≡ false
  pub fits : length line ≤ 64
  pub no_checksum : length line ≢ 5

read_line-empty : (rest : Bytes) → read_line (10 ∷ rest) ≡ some ([], false, rest)
unfolding read_line cut_line without_cr
read_line-empty rest = refl

pub read_line-append :
    (line rest : Bytes)
    → All IsText line
    → without_cr line ≡ line
    → length line < 100
    → read_line (line ++ 10 ∷ rest) ≡ some (line, false, rest)
unfolding read_line
read_line-append [] rest h e short = read_line-empty rest
read_line-append (c ∷ line) rest h e short =
    let below : ltb (length (c ∷ line)) 100 ≡ true = ground arith in
    rw (read_line, cut_line-append (c ∷ line) rest h, below, e) refl

cut_line-none : (line : Bytes) → All IsText line → cut_line line ≡ none
unfolding cut_line
cut_line-none [] h = refl
cut_line-none (c ∷ line) h = rw (h.0, cut_line-none line h.1) refl

-- A line that ends with the source.
pub read_line-last :
    (line : Bytes)
    → All IsText line
    → 0 < length line
    → length line < 100
    → read_line line ≡ some (line, false, [])
unfolding read_line
read_line-last [] h some_line short = absurd (omega arith)
read_line-last (c ∷ line) h some_line short =
    let below : ltb (length (c ∷ line)) 100 ≡ true = ground arith in
    rw (read_line, cut_line-none (c ∷ line) h, below) refl

joined : (n : ℕ) (xs ys : Bytes) → take n xs ++ (drop n xs ++ ys) ≡ xs ++ ys
joined n xs ys =
    sym (append_assoc (take n xs) (drop n xs) ys) ∙ ap (λ zs. zs ++ ys) (take-append-drop n xs)

is_five : (n : ℕ) → n ≢ 5 → (n == 5) ≡ false
is_five n other = ground arith

is_wide : (n : ℕ) → n ≤ 64 → ltb 96 n ≡ false
is_wide n fits = ground arith

-- A reader inside of a block.
abbrev pub reading : Bytes → Bytes → LineReader
reading inp buf = record { inp = inp; buf = buf; at_end = false; crc = 0; crc_set = false }

module _ (b64_decode : Bytes → Result Bytes) where
  line_read-line :
      (line rest : Bytes) (n : ℕ)
      → IsArmorLine line
      → line_read b64_decode (reading (line ++ 10 ∷ rest) []) n
        ≡ (ok (take n line), reading rest (drop n line))
  unfolding line_read take_line
  line_read-line line rest n h =
      let read = read_line-append line rest h.no_lf h.no_cr (omega (arith, h.fits)) in
      rw
        (
          line_read,
          read,
          take_line,
          h.no_end,
          is_five (length line) h.no_checksum,
          is_wide (length line) h.fits,
        )
        refl

  line_read-buf :
      (inp buf : Bytes) (n : ℕ)
      → 0 < length buf
      → line_read b64_decode (reading inp buf) n ≡ (ok (take n buf), reading inp (drop n buf))
  unfolding line_read
  line_read-buf inp buf n full =
      let some_buf : ltb 0 (length buf) ≡ true = ground arith in rw (line_read, some_buf) refl

  -- Where the lines end with a read that finds the end, the text of the lines is read.
  pub read_block-lines :
      (fuel n : ℕ) (buf rest : Bytes) (lines : List Bytes) (l : LineReader)
      → 0 < n
      → length buf + (length lines + length (concat lines)) < fuel
      → All IsArmorLine lines
      → ((k : ℕ) → line_read b64_decode (reading rest []) k ≡ (err eof, l))
      → read_block b64_decode fuel n (reading (join_lines lines ++ rest) buf)
        ≡ ok (buf ++ concat lines, l)
  unfolding read_block join_lines after_read
  read_block-lines zero n buf rest lines l pos enough all ends = absurd (omega arith)
  read_block-lines (suc fuel) n (c ∷ buf) rest lines l pos enough all ends =
      let more =
        read_block-lines fuel n (drop n (c ∷ buf)) rest lines l pos
          (omega (arith, length-drop n (c ∷ buf))) all ends in
      rw (read_block, line_read-buf (join_lines lines ++ rest) (c ∷ buf) n (omega arith), more)
        (ap (λ xs. ok (xs, l)) (joined n (c ∷ buf) (concat lines)))
  read_block-lines (suc fuel) n [] rest [] l pos enough all ends = rw (read_block, ends n) refl
  read_block-lines (suc fuel) n [] rest (line ∷ lines) l pos enough (h, hs) ends =
      let more =
        read_block-lines fuel n (drop n line) rest lines l pos
          (omega (arith, length-drop n line, length-append line (concat lines))) hs ends in
      let inp = append_assoc line (10 ∷ join_lines lines) rest in
      rw (read_block, inp, line_read-line line (join_lines lines ++ rest) n h, more)
        (ap (λ xs. ok (xs, l)) (joined n line (concat lines)))
