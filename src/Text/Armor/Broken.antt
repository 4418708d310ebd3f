-- ===== src/Text/Armor/Broken.antt =====
-- What a line breaker leaves when it is closed.
use go_crypto.Base.{
  ℕ, suc, ◌≤◌, ◌<◌, true, false, Bool-cases, inl, inr, List, [], ◌∷◌, ◌++◌, length, concat, Bytes,
  All, ok, ◌==◌, ltb, ◌≡◌, refl, sym, ap, subst, ◌∙◌, arith, append_assoc, append-nil,
  length-append,
}
use go_crypto.Text.Armor.Breaker.{
  LineBreaker, new_line_breaker, end_line, breaker_writes, breaker_close, join_lines,
}
use go_crypto.Text.Armor.Breaks.{
  Breaks, concat-append, end_line-open, one_more, breaker_write-Breaks,
}

-- A text in full lines, behind which the last one stands, if there is more or there is nothing.
pub record IsBroken (before : Bytes) (w : ℕ) (text out : Bytes) : Type 0 where
  pub full : List Bytes
  pub last : List Bytes
  pub all : All (λ (line : Bytes). length line ≡ w) full
  pub short : All (λ (line : Bytes). length line < w) last
  pub single : length last ≤ 1
  pub none_behind : last ≡ [] ∷ [] → full ≡ []
  pub lines : out ++ 10 ∷ [] ≡ before ++ join_lines (full ++ last)
  pub holds : text ≡ concat (full ++ last)

length-nil : (xs : Bytes) → length xs ≡ 0 → xs ≡ []
length-nil [] e = refl
length-nil (x ∷ xs) e = absurd (omega (arith, e))

end_line-full :
    (l : LineBreaker) → length l.line ≡ 0 → l.have_written ≡ true → end_line l ≡ l.out ++ 10 ∷ []
unfolding end_line
end_line-full l e written = rw (e, written) refl

end_line-new : (l : LineBreaker) → l.have_written ≡ false → end_line l ≡ l.out
unfolding end_line
end_line-new l new = elim (Bool-cases (length l.line == 0)) [
  | inl e ↦ rw (e, new) refl
  | inr e ↦ rw e refl
]

breaker_close-Breaks :
    (before : Bytes) (w : ℕ) (text : Bytes) (l : LineBreaker)
    → Breaks before w text l
    → IsBroken before w text (breaker_close l)
unfolding breaker_close
breaker_close-Breaks before w text l h = elim (Bool-cases (ltb 0 (length l.line))) [
  | inl begun ↦
      let some_line : 0 < length l.line = ground (arith, begun) in
      record {
        full = h.full;
        last = l.line ∷ [];
        all = h.all;
        short = (h.short, tt);
        single = omega arith;
        none_behind = λ e.
            absurd
              (omega (arith, ap (λ ls. length (concat ls)) e, length-append l.line [], some_line));
        lines = rw begun (
            append_assoc l.out l.line (10 ∷ [])
            ∙ ap (λ xs. xs ++ (l.line ++ 10 ∷ [])) (sym (end_line-open l some_line))
            ∙ one_more before h.full l.line (end_line l) h.ended);
        holds = h.holds ∙ sym (concat-append h.full l.line);
      }
  | inr none_held ↦
      let none_left : length l.line ≡ 0 = ground (arith, none_held) in
      let nil = length-nil l.line none_left in
      elim (Bool-cases l.have_written) [
        | inl written ↦ record {
          full = h.full;
          last = [];
          all = h.all;
          short = tt;
          single = omega arith;
          none_behind = λ e. absurd (omega (arith, ap length e));
          lines = rw none_held (
              sym (end_line-full l none_left written)
              ∙ h.ended
              ∙ ap (λ ls. before ++ join_lines ls) (sym (append-nil h.full)));
          holds =
              h.holds
              ∙ ap (λ xs. concat h.full ++ xs) nil
              ∙ append-nil (concat h.full)
              ∙ ap concat (sym (append-nil h.full));
        }
        | inr new ↦ record {
          full = h.full;
          last = [] ∷ [];
          all = h.all;
          short = (omega (arith, h.short), tt);
          single = omega arith;
          none_behind = λ e. h.fresh new;
          lines = rw none_held (
              ap (λ xs. xs ++ 10 ∷ []) (sym (end_line-new l new))
              ∙ one_more before h.full [] (end_line l) h.ended);
          holds = h.holds ∙ ap (λ xs. concat h.full ++ xs) nil ∙ sym (concat-append h.full []);
        }
      ]
]

breaker_writes-Breaks :
    (before : Bytes) (w : ℕ) (text : Bytes) (l : LineBreaker) (pieces : List Bytes)
    → 0 < w
    → Breaks before w text l
    → (l' : LineBreaker) × (breaker_writes l pieces ≡ ok l')
      × Breaks before w (text ++ concat pieces) l'
unfolding breaker_writes
breaker_writes-Breaks before w text l [] pos h =
    (l, refl, subst (λ t. Breaks before w t l) (sym (append-nil text)) h)
breaker_writes-Breaks before w text l (b ∷ pieces) pos h =
    let (l', e, h') = breaker_write-Breaks (suc (length b)) before w text l b pos (omega arith) h in
    let (l'', e', h'') = breaker_writes-Breaks before w (text ++ b) l' pieces pos h' in
    (l'', rw e e', subst (λ t. Breaks before w t l'') (append_assoc text b (concat pieces)) h'')

new_line_breaker-Breaks :
    (before : Bytes) (w : ℕ) → 0 < w → Breaks before w [] (new_line_breaker before w)
unfolding end_line join_lines
new_line_breaker-Breaks before w pos = record {
  full = [];
  all = tt;
  width = refl;
  short = pos;
  ended = sym (append-nil before);
  holds = refl;
  fresh = λ never. refl;
}

pub breaker_close-breaker_writes :
    (before : Bytes) (w : ℕ) (pieces : List Bytes)
    → 0 < w
    → (l : LineBreaker) × (breaker_writes (new_line_breaker before w) pieces ≡ ok l)
      × IsBroken before w (concat pieces) (breaker_close l)
breaker_close-breaker_writes before w pieces pos =
    let (l, e, h) =
      breaker_writes-Breaks before w [] (new_line_breaker before w) pieces pos
        (new_line_breaker-Breaks before w pos) in
    (l, e, breaker_close-Breaks before w (concat pieces) l h)
