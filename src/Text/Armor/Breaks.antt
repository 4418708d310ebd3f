-- ===== src/Text/Armor/Breaks.antt =====
-- What a line breaker holds between two calls.
use go_crypto.Base.{
  ℕ, zero, suc, ◌+◌, ◌-◌, ◌≤◌, ◌<◌, true, false, Bool-cases, inl, inr, List, [], ◌∷◌, ◌++◌, length,
  take, drop, concat, Bytes, All, All-append, ok, ◌==◌, ltb, ◌≡◌, refl, sym, ap, subst, ◌∙◌, arith,
  append_assoc, append-nil, length-append, length-take, length-drop, take-append-drop,
}
use go_crypto.Text.Armor.Breaker.{LineBreaker, end_line, breaker_write, join_lines}

join_lines-append :
    (lines : List Bytes) (line : Bytes)
    → join_lines (lines ++ line ∷ []) ≡ join_lines lines ++ (line ++ 10 ∷ [])
unfolding join_lines
join_lines-append [] line = refl
join_lines-append (l ∷ lines) line =
    ap (λ xs. l ++ 10 ∷ xs) (join_lines-append lines line)
    ∙ sym (append_assoc l (10 ∷ join_lines lines) (line ++ 10 ∷ []))

pub concat-append :
    (lines : List Bytes) (line : Bytes) → concat (lines ++ line ∷ []) ≡ concat lines ++ line
concat-append [] line = append-nil line
concat-append (l ∷ lines) line =
    ap (λ xs. l ++ xs) (concat-append lines line) ∙ sym (append_assoc l (concat lines) line)

-- Behind `before`, the text was broken into full lines, and the rest of it is held back.
pub record Breaks (before : Bytes) (w : ℕ) (text : Bytes) (l : LineBreaker) : Type 0 where
  pub full : List Bytes
  pub all : All (λ (line : Bytes). length line ≡ w) full
  pub width : l.line_length ≡ w
  pub short : length l.line < w
  pub ended : end_line l ≡ before ++ join_lines full
  pub holds : text ≡ concat full ++ l.line
  pub fresh : l.have_written ≡ false → full ≡ []

-- A line that has begun is not ended.
pub end_line-open : (l : LineBreaker) → 0 < length l.line → end_line l ≡ l.out
unfolding end_line
end_line-open l begun =
    let some_line : (length l.line == 0) ≡ false = ground arith in rw some_line refl

-- One more line behind others.
pub one_more :
    (before : Bytes) (lines : List Bytes) (line out : Bytes)
    → out ≡ before ++ join_lines lines
    → out ++ (line ++ 10 ∷ []) ≡ before ++ join_lines (lines ++ line ∷ [])
one_more before lines line out e =
    ap (λ xs. xs ++ (line ++ 10 ∷ [])) e
    ∙ append_assoc before (join_lines lines) (line ++ 10 ∷ [])
    ∙ ap (λ xs. before ++ xs) (sym (join_lines-append lines line))

pub breaker_write-Breaks :
    (fuel : ℕ) (before : Bytes) (w : ℕ) (text : Bytes) (l : LineBreaker) (b : Bytes)
    → 0 < w
    → length b < fuel
    → Breaks before w text l
    → (l' : LineBreaker) × (breaker_write fuel l b ≡ ok l') × Breaks before w (text ++ b) l'
unfolding breaker_write
breaker_write-Breaks zero before w text l b pos enough h = absurd (omega arith)
breaker_write-Breaks (suc fuel) before w text l [] pos enough h = (l, refl, rw (append-nil text) h)
breaker_write-Breaks (suc fuel) before w text l (c ∷ b) pos enough h =
    let n = l.line_length - length l.line in
    let line = l.line ++ take n (c ∷ b) in
    let more : 0 < length (c ∷ b) = omega arith in
    let full : (length (c ∷ b) == 0) ≡ false = ground arith in
    elim (Bool-cases (ltb (length l.line + length (c ∷ b)) l.line_length)) [
      | inl fits ↦
          let below : length l.line + suc (length b) < l.line_length = ground (arith, fits) in
          (
            record l { line = l.line ++ c ∷ b; out = end_line l },
            rw (breaker_write, full, fits) refl,
            record {
              full = h.full;
              all = h.all;
              width = h.width;
              short = omega (arith, length-append l.line (c ∷ b), below, h.width);
              ended =
                  end_line-open (record l { line = l.line ++ c ∷ b; out = end_line l })
                    (omega (arith, length-append l.line (c ∷ b)))
                  ∙ h.ended;
              holds = ap (λ xs. xs ++ c ∷ b) h.holds ∙ append_assoc (concat h.full) l.line (c ∷ b);
              fresh = h.fresh;
            },
          )
      | inr over ↦
          let above : l.line_length ≤ length l.line + suc (length b) = ground (arith, over) in
          let whole =
            append_assoc text (take n (c ∷ b)) (drop n (c ∷ b))
            ∙ ap (λ xs. text ++ xs) (take-append-drop n (c ∷ b)) in
          let l' = record l { line = []; have_written = true; out = end_line l ++ line } in
          let (l'', e, h') =
            breaker_write-Breaks fuel before w (text ++ take n (c ∷ b)) l' (drop n (c ∷ b)) pos
              (omega (arith, length-drop n (c ∷ b), h.short, h.width))
              (record {
                full = h.full ++ line ∷ [];
                all = All-append _ h.full (line ∷ []) h.all (
                  omega (
                    arith,
                    length-append l.line (take n (c ∷ b)),
                    length-take n (c ∷ b),
                    above,
                    h.short,
                    h.width,
                  ),
                  tt,
                );
                width = h.width;
                short = pos;
                ended =
                    append_assoc (end_line l) line (10 ∷ [])
                    ∙ one_more before h.full line (end_line l) h.ended;
                holds =
                    ap (λ xs. xs ++ take n (c ∷ b)) h.holds
                    ∙ append_assoc (concat h.full) l.line (take n (c ∷ b))
                    ∙ sym (concat-append h.full line)
                    ∙ sym (append-nil _);
                fresh = λ never. absurd cc;
              }) in
          (l'', rw (breaker_write, full, over) e, subst (λ t. Breaks before w t l'') whole h')
    ]
