-- ===== src/Text/Cleartext/RoundTrip.antt =====
-- What is signed of a cleartext message is what is verified of it.
use go_crypto.Base.{
  suc, ◌≤◌, ◌<◌, Bool, true, some, List, [], ◌∷◌, ◌++◌, length, Bytes, All, All-append, ◌≡◌, sym,
  ap, ◌∙◌, arith, length-append,
}
use go_crypto.Text.Cleartext.{end_text, body_loop}
use go_crypto.Text.Cleartext.Escape.{DashEscaper, new_escaper, write_pieces, close_text}
use go_crypto.Text.Cleartext.Lines.{
  escape_line, encode_lines, plain_lines, IsLine, add_lines-append, encode_lines-append,
  body_loop-encode_lines,
}
use go_crypto.Text.Cleartext.Written.{
  Written, between, inside, state_of, write_pieces-Written, new_escaper-Written,
}

length-encode_lines : (lines : List Bytes) → length lines ≤ length (encode_lines lines)
unfolding encode_lines
length-encode_lines [] = omega arith
length-encode_lines (line ∷ lines) =
    omega
      (arith, length-append (escape_line line) (10 ∷ encode_lines lines), length-encode_lines lines)

-- A closed message is lines, and its signed text is theirs.
record IsClosed (out text : Bytes) : Type 0 where
  lines : List Bytes
  all : All IsLine lines
  closed : out ≡ encode_lines lines
  signs : text ≡ (state_of lines).1

Written-IsClosed : (d : DashEscaper) → Written d → IsClosed (close_text d) d.hashed
unfolding close_text
Written-IsClosed d (between out text first lines all o h) = record {
  lines = lines;
  all = all;
  closed = o;
  signs = ap (λ (s : Bool × Bytes). s.1) h;
}
Written-IsClosed d (inside out text lines line spaces all is s full o h) = record {
  lines = lines ++ line ∷ [];
  all = All-append IsLine lines (line ∷ []) all (is, tt);
  closed = ap (λ xs. xs ++ 10 ∷ []) o ∙ sym (encode_lines-append lines line);
  signs = h ∙ ap (λ (s : Bool × Bytes). s.1) (sym (add_lines-append (true, []) lines line));
}

-- Whatever is written to a new dash escaper, in any pieces, and closed: with one unit of fuel for
-- each byte, Decode finds the end of the message at the line that starts the signature behind it,
-- never earlier, and the text that it finds to be signed is what the escaper gave to its hashes.
pub body_loop-write_pieces :
    (pieces : List Bytes) (tail : Bytes)
    → let d = write_pieces new_escaper pieces in
      let message = close_text d ++ (end_text ++ 10 ∷ tail) in
      (plain : Bytes) × (body_loop (suc (length message)) true [] [] message
        ≡ some (d.hashed, plain, end_text ++ 10 ∷ tail))
body_loop-write_pieces pieces tail =
    let d = write_pieces new_escaper pieces in
    let c = Written-IsClosed d (write_pieces-Written new_escaper pieces new_escaper-Written) in
    let message = close_text d ++ (end_text ++ 10 ∷ tail) in
    let enough : length c.lines < suc (length message) = omega (
      arith,
      length-encode_lines c.lines,
      ap length c.closed,
      length-append (close_text d) (end_text ++ 10 ∷ tail),
    ) in
    (
      plain_lines [] c.lines,
      ap (λ xs. body_loop (suc (length message)) true [] [] (xs ++ (end_text ++ 10 ∷ tail)))
            c.closed
          ∙ body_loop-encode_lines (suc (length message)) true [] [] tail c.lines c.all enough
          ∙ ap (λ xs. some (xs, plain_lines [] c.lines, end_text ++ 10 ∷ tail)) (sym c.signs),
    )
