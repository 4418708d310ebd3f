-- ===== src/Text/Cleartext/Written.antt =====
-- What the escaper wrote and hashed, as the lines of the message.
use go_crypto.Base.{
  ℕ, Bool, true, false, ◌||◌, Bool-cases, inl, inr, List, [], ◌∷◌, ◌++◌, Bytes, All, All-append,
  ◌==◌, ◌≡◌, ◌≢◌, refl, sym, ap, subst, ◌∙◌, arith, append_assoc, append-nil, length, length-append,
}
use go_crypto.Text.Cleartext.{without_cr, trim_right}
use go_crypto.Text.Cleartext.Escape.{
  DashEscaper, begin_line, is_whitespace, first_byte, later_byte, write_byte, write_escaped,
  write_pieces, new_escaper,
}
use go_crypto.Text.Cleartext.Lines.{
  escape_line, encode_lines, opened, add_lines, IsText, IsLine, add_lines-append,
  encode_lines-append,
}

-- The state of the signed text behind some lines.
abbrev pub state_of : List Bytes → Bool × Bytes
state_of lines = add_lines (true, []) lines

-- Whitespace behind a line, of which some is there if the line is empty.
abbrev IsSpace : ℕ → Type 0
IsSpace c = is_whitespace c ≡ true

-- Between two lines, and inside of one, of which `line` is out and `spaces` are held back.
pub data Written : DashEscaper → Type 0 where
  between :
      (out text : Bytes) (first : Bool) (lines : List Bytes)
      → All IsLine lines
      → out ≡ encode_lines lines
      → (first, text) ≡ state_of lines
      → Written (record {
        buffered = out;
        hashed = text;
        at_beginning_of_line = true;
        is_first_line = first;
        whitespace = [];
      })
  inside :
      (out text : Bytes) (lines : List Bytes) (line spaces : Bytes)
      → All IsLine lines
      → IsLine line
      → All IsSpace spaces
      → line ++ spaces ≢ []
      → out ≡ encode_lines lines ++ escape_line line
      → text ≡ opened (state_of lines) ++ line
      → Written (record {
        buffered = out;
        hashed = text;
        at_beginning_of_line = false;
        is_first_line = false;
        whitespace = spaces;
      })

IsLine-none : IsLine []
unfolding without_cr trim_right
IsLine-none = record { no_lf = tt; no_space = refl; no_cr = refl }

trim_right-last :
    (xs : Bytes) (c : ℕ) → is_whitespace c ≡ false → trim_right (xs ++ c ∷ []) ≡ xs ++ c ∷ []
unfolding trim_right is_whitespace
trim_right-last [] c h = let kept : (c == 32 || c == 9) ≡ false = ground (arith, h) in rw kept refl
trim_right-last (x ∷ []) c h =
    let kept : (c == 32 || c == 9) ≡ false = ground (arith, h) in rw (trim_right, kept) refl
trim_right-last (x ∷ y ∷ xs) c h = rw (trim_right-last (y ∷ xs) c h) refl

without_cr-last :
    (xs : Bytes) (c : ℕ) → is_whitespace c ≡ false → without_cr (xs ++ c ∷ []) ≡ xs ++ c ∷ []
unfolding without_cr is_whitespace
without_cr-last [] c h = let kept : (c == 13) ≡ false = ground (arith, h) in rw kept refl
without_cr-last (x ∷ []) c h = let kept : (c == 13) ≡ false = ground (arith, h) in rw kept refl
without_cr-last (x ∷ y ∷ xs) c h = ap (λ l. x ∷ l) (without_cr-last (y ∷ xs) c h)

spaces-IsText : (spaces : Bytes) → All IsSpace spaces → All IsText spaces
unfolding is_whitespace
spaces-IsText [] h = tt
spaces-IsText (c ∷ spaces) (h, hs) = (ground (arith, h), spaces-IsText spaces hs)

-- A line goes on behind the spaces with a byte that is none.
IsLine-longer :
    (line spaces : Bytes) (c : ℕ)
    → IsLine line
    → All IsSpace spaces
    → is_whitespace c ≡ false
    → (c == 10) ≡ false
    → IsLine (line ++ (spaces ++ c ∷ []))
IsLine-longer line spaces c h s other text =
    let whole = append_assoc line spaces (c ∷ []) in
    record {
      no_lf =
          All-append IsText line (spaces ++ c ∷ []) h.no_lf
            (All-append IsText spaces (c ∷ []) (spaces-IsText spaces s) (text, tt));
      no_space = subst (λ l. trim_right l ≡ l) whole (trim_right-last (line ++ spaces) c other);
      no_cr = subst (λ l. without_cr l ≡ l) whole (without_cr-last (line ++ spaces) c other);
    }

-- What is escaped is the first byte.
escape_line-append :
    (line spaces : Bytes) (c : ℕ)
    → All IsSpace spaces
    → line ++ spaces ≢ []
    → escape_line (line ++ (spaces ++ c ∷ [])) ≡ escape_line line ++ (spaces ++ c ∷ [])
unfolding escape_line is_whitespace
escape_line-append [] [] c s full = absurd (full refl)
escape_line-append [] (x ∷ spaces) c (h, hs) full =
    let other : (x == 45) ≡ false = ground (arith, h) in rw other refl
escape_line-append (x ∷ line) spaces c s full = elim (Bool-cases (x == 45)) [
  | inl e ↦ rw e refl
  | inr e ↦ rw e refl
]

-- The lines are one more.
ended :
    (out text : Bytes) (lines : List Bytes) (line : Bytes)
    → out ≡ encode_lines lines ++ escape_line line
    → text ≡ opened (state_of lines) ++ line
    → (out ++ 10 ∷ [] ≡ encode_lines (lines ++ line ∷ []))
      × ((false, text) ≡ state_of (lines ++ line ∷ []))
ended out text lines line o h = (
  ap (λ xs. xs ++ 10 ∷ []) o ∙ sym (encode_lines-append lines line),
  ap (λ xs. (false, xs)) h ∙ sym (add_lines-append (true, []) lines line),
)

-- At the beginning of a line.
first_byte-Written :
    (out text : Bytes) (lines : List Bytes) (b : ℕ)
    → All IsLine lines
    → is_whitespace b ≡ false
    → out ≡ encode_lines lines
    → text ≡ opened (state_of lines)
    → Written (
        first_byte b (record {
          buffered = out;
          hashed = text;
          at_beginning_of_line = true;
          is_first_line = false;
          whitespace = [];
        }))
unfolding first_byte escape_line
first_byte-Written out text lines b all other o h = elim (Bool-cases (b == 45)) [
  | inl e ↦
      let no_lf : (b == 10) ≡ false = ground (arith, e) in
      rw e (
        inside _ _ lines (b ∷ []) [] all (IsLine-longer [] [] b IsLine-none tt other no_lf) tt
          (λ e'. cc) (ap (λ xs. xs ++ 45 ∷ 32 ∷ b ∷ []) o ∙ rw e refl) (ap (λ xs. xs ++ b ∷ []) h))
  | inr plain ↦ elim (Bool-cases (b == 10)) [
    | inl lf ↦
        let ten : b ≡ 10 = ground (arith, lf) in
        let (o', h') =
          ended out text lines [] (o ∙ sym (append-nil (encode_lines lines)))
            (h ∙ sym (append-nil _)) in
        rw (plain, lf, ten)
          (between _ _ false (lines ++ [] ∷ [])
            (All-append IsLine lines ([] ∷ []) all (IsLine-none, tt)) o' h')
    | inr kept ↦
        rw (plain, kept)
          (inside _ _ lines (b ∷ []) [] all (IsLine-longer [] [] b IsLine-none tt other kept) tt
            (λ e'. cc) (ap (λ xs. xs ++ b ∷ []) o ∙ rw plain refl) (ap (λ xs. xs ++ b ∷ []) h))
  ]
]

-- Inside of a line.
later_byte-Written :
    (out text : Bytes) (lines : List Bytes) (line spaces : Bytes) (b : ℕ)
    → All IsLine lines
    → IsLine line
    → All IsSpace spaces
    → line ++ spaces ≢ []
    → is_whitespace b ≡ false
    → out ≡ encode_lines lines ++ escape_line line
    → text ≡ opened (state_of lines) ++ line
    → Written (
        later_byte b (record {
          buffered = out;
          hashed = text;
          at_beginning_of_line = false;
          is_first_line = false;
          whitespace = spaces;
        }))
unfolding later_byte
later_byte-Written out text lines line spaces b all is s full other o h =
    elim (Bool-cases (b == 10)) [
      | inl lf ↦
          let ten : b ≡ 10 = ground (arith, lf) in
          let (o', h') = ended out text lines line o h in
          rw (lf, ten)
            (between _ _ false (lines ++ line ∷ [])
              (All-append IsLine lines (line ∷ []) all (is, tt)) o' h')
      | inr kept ↦
          let more : Bytes = spaces ++ b ∷ [] in
          rw kept (
            inside _ _ lines (line ++ more) [] all (IsLine-longer line spaces b is s other kept) tt
              (λ e. omega (
                arith,
                ap length e,
                length-append (line ++ more) [],
                length-append line more,
                length-append spaces (b ∷ []),
              ))
              (ap (λ xs. xs ++ more) o
                ∙ append_assoc (encode_lines lines) (escape_line line) more
                ∙ ap (λ xs. encode_lines lines ++ xs)
                    (sym (escape_line-append line spaces b s full)))
              (ap (λ xs. xs ++ more) h ∙ append_assoc (opened (state_of lines)) line more))
    ]

write_byte-Written : (d : DashEscaper) (b : ℕ) → Written d → Written (write_byte d b)
unfolding write_byte begin_line opened escape_line
write_byte-Written d b (between out text first lines all o h) =
    let text' = ap opened h in
    elim (Bool-cases (is_whitespace b)) [
      | inl space ↦ rw space (
          inside _ _ lines [] (b ∷ []) all IsLine-none (space, tt) (λ e. cc)
            (o ∙ sym (append-nil (encode_lines lines))) (text' ∙ sym (append-nil _)))
      | inr other ↦ rw other (first_byte-Written out _ lines b all other o text')
    ]
write_byte-Written d b (inside out text lines line spaces all is s full o h) =
    elim (Bool-cases (is_whitespace b)) [
      | inl space ↦ rw space (
          inside _ _ lines line (spaces ++ b ∷ []) all is
            (All-append IsSpace spaces (b ∷ []) s (space, tt))
            (λ e. omega (
              arith,
              ap length e,
              length-append line (spaces ++ b ∷ []),
              length-append spaces (b ∷ []),
            ))
            o h)
      | inr other ↦
          rw other (later_byte-Written out text lines line spaces b all is s full other o h)
    ]

write_escaped-Written :
    (d : DashEscaper) (text : Bytes) → Written d → Written (write_escaped d text)
unfolding write_escaped
write_escaped-Written d [] h = h
write_escaped-Written d (b ∷ text) h =
    write_escaped-Written (write_byte d b) text (write_byte-Written d b h)

pub write_pieces-Written :
    (d : DashEscaper) (pieces : List Bytes) → Written d → Written (write_pieces d pieces)
unfolding write_pieces
write_pieces-Written d [] h = h
write_pieces-Written d (text ∷ pieces) h =
    write_pieces-Written (write_escaped d text) pieces (write_escaped-Written d text h)

pub new_escaper-Written : Written new_escaper
unfolding encode_lines add_lines
new_escaper-Written = between [] [] true [] tt refl refl
