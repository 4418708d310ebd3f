-- ===== src/Text/Armor/Breaker.antt =====
-- openpgp/armor/encode.go: `lineBreaker`.
use go_crypto.Base.{
  ℕ, zero, suc, ◌+◌, ◌-◌, Bool, true, false, ◌&&◌, List, [], ◌∷◌, ◌++◌, length, take, drop, Bytes,
  Result, ok, stuck, ◌>>=◌, ◌==◌, ltb, if◌then◌else◌,
}

-- `lineBreaker`, with what its output was given; `line` is the part of the line that is used.
pub record LineBreaker : Type 0 where
  pub line_length : ℕ
  pub line : Bytes
  pub out : Bytes
  pub have_written : Bool

abbrev pub new_line_breaker : Bytes → ℕ → LineBreaker
new_line_breaker out n = record { line_length = n; line = []; out = out; have_written = false }

-- The output, in which a line that is full is ended when more comes.
unfoldable pub end_line : LineBreaker → Bytes
end_line l = if length l.line == 0 && l.have_written then l.out ++ 10 ∷ [] else l.out

-- `lineBreaker.Write`
unfoldable pub breaker_write : ℕ → LineBreaker → Bytes → Result LineBreaker
unfolding end_line
breaker_write zero l b = stuck
breaker_write (suc fuel) l b =
    let excess = l.line_length - length l.line in
    let more =
      breaker_write fuel
        (record l { line = []; have_written = true; out = end_line l ++ (l.line ++ take excess b) })
        (drop excess b) in
    if length b == 0
    then ok l
    else if ltb (length l.line + length b) l.line_length
    then ok (record l { line = l.line ++ b; out = end_line l })
    else more

-- Several calls of it.
unfoldable pub breaker_writes : LineBreaker → List Bytes → Result LineBreaker
breaker_writes l [] = ok l
breaker_writes l (b ∷ pieces) =
    breaker_write (suc (length b)) l b >>= λ l'. breaker_writes l' pieces

-- `lineBreaker.Close`
unfoldable pub breaker_close : LineBreaker → Bytes
breaker_close l = if ltb 0 (length l.line) then l.out ++ l.line else l.out

-- Lines with their ends.
unfoldable pub join_lines : List Bytes → Bytes
join_lines [] = []
join_lines (line ∷ lines) = line ++ 10 ∷ join_lines lines
