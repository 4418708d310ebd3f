-- ===== src/Text/Canonical.antt =====
-- openpgp/canonical_text.go: text with its line ends made CR LF, on the way to a hash.
use go_crypto.Base.{
  ℕ, Bool-cases, inl, inr, [], ◌∷◌, ◌++◌, Bytes, ◌==◌, if◌then◌else◌, ◌≡◌, refl, append-nil,
  append_assoc,
}

-- The two values of `s`: 1 behind a CR.
pub data State : Type 0 where
  plain after_cr : State

-- `canonicalTextHash`: what its hash was given, and `s`.
pub record CanonicalText : Type 0 where
  pub written : Bytes
  pub state : State

-- The loop over `buf[i:]`, where `pending` is `buf[start:i]`, and the last write of `buf[start:]`.
unfoldable pub write_loop : Bytes → Bytes → State → Bytes → CanonicalText
write_loop out pending state [] = record { written = out ++ pending; state = state }
write_loop out pending after_cr (c ∷ buf) = write_loop out (pending ++ c ∷ []) plain buf
write_loop out pending plain (c ∷ buf) =
    let at_cr = write_loop out (pending ++ c ∷ []) after_cr buf in
    let at_lf = write_loop ((out ++ pending) ++ 13 ∷ 10 ∷ []) [] plain buf in
    let other = write_loop out (pending ++ c ∷ []) plain buf in
    if c == 13 then at_cr else if c == 10 then at_lf else other

-- `canonicalTextHash.Write`
unfoldable pub write_canonical : CanonicalText → Bytes → CanonicalText
unfolding write_loop
write_canonical t buf = write_loop t.written [] t.state buf

-- `Reset`
unfoldable pub reset : CanonicalText → CanonicalText
reset t = record { written = []; state = plain }

-- What one byte becomes, and the state after it.
unfoldable pub canonical_byte : State → ℕ → Bytes × State
canonical_byte after_cr c = (c ∷ [], plain)
canonical_byte plain c =
    if c == 13
    then (c ∷ [], after_cr)
    else if c == 10
    then (13 ∷ 10 ∷ [], plain)
    else (c ∷ [], plain)

-- The same byte by byte, over a whole text.
unfoldable pub canonical : State → Bytes → Bytes × State
unfolding canonical_byte
canonical s [] = ([], s)
canonical s (c ∷ text) =
    let (bs, s') = canonical_byte s c in let (rest, end) = canonical s' text in (bs ++ rest, end)

abbrev appended : Bytes → Bytes × State → CanonicalText
appended out r = record { written = out ++ r.0; state = r.1 }

one_more :
    (out pending : Bytes) (c : ℕ) (r : Bytes × State)
    → appended (out ++ (pending ++ c ∷ [])) r
      ≡ record { written = (out ++ pending) ++ c ∷ r.0; state = r.1 }
one_more out pending c r =
    rw (← append_assoc out pending (c ∷ []), append_assoc (out ++ pending) (c ∷ []) r.0) refl

-- The loop that copies slices of the buffer writes what the byte-by-byte reading writes.
write_loop-canonical :
    (out pending : Bytes) (s : State) (buf : Bytes)
    → write_loop out pending s buf ≡ appended (out ++ pending) (canonical s buf)
unfolding write_loop canonical canonical_byte
write_loop-canonical out pending plain [] = rw append-nil refl
write_loop-canonical out pending after_cr [] = rw append-nil refl
write_loop-canonical out pending after_cr (c ∷ buf) =
    rw (write_loop-canonical out (pending ++ c ∷ []) plain buf)
      (one_more out pending c (canonical plain buf))
write_loop-canonical out pending plain (c ∷ buf) = elim (Bool-cases (c == 13)) [
  | inl cr ↦
      rw (cr, write_loop-canonical out (pending ++ c ∷ []) after_cr buf)
        (one_more out pending c (canonical after_cr buf))
  | inr other ↦ elim (Bool-cases (c == 10)) [
    | inl lf ↦
        rw
          (
            other,
            lf,
            write_loop-canonical ((out ++ pending) ++ 13 ∷ 10 ∷ []) [] plain buf,
            append-nil,
            append_assoc (out ++ pending) (13 ∷ 10 ∷ []) (canonical plain buf).0,
          )
          refl
    | inr text ↦
        rw (other, text, write_loop-canonical out (pending ++ c ∷ []) plain buf)
          (one_more out pending c (canonical plain buf))
  ]
]

-- One write passes on what the text becomes byte by byte from the state on, behind what was written
-- before.
pub write_canonical-canonical :
    (t : CanonicalText) (buf : Bytes)
    → write_canonical t buf ≡ record {
      written = t.written ++ (canonical t.state buf).0;
      state = (canonical t.state buf).1;
    }
unfolding write_canonical
write_canonical-canonical t buf =
    rw (write_loop-canonical t.written [] t.state buf, append-nil) refl

canonical-append :
    (s : State) (xs ys : Bytes)
    → let r = canonical s xs in
      canonical s (xs ++ ys) ≡ (r.0 ++ (canonical r.1 ys).0, (canonical r.1 ys).1)
unfolding canonical
canonical-append s [] ys = refl
canonical-append s (c ∷ xs) ys =
    let (bs, s') = canonical_byte s c in
    rw (canonical-append s' xs ys, append_assoc bs (canonical s' xs).0) refl

-- What the canonical text hash is given does not depend on how a text is split into writes.
pub write_canonical_twice :
    (t : CanonicalText) (xs ys : Bytes)
    → write_canonical (write_canonical t xs) ys ≡ write_canonical t (xs ++ ys)
write_canonical_twice t xs ys =
    rw
      (
        write_canonical-canonical (write_canonical t xs) ys,
        write_canonical-canonical t xs,
        write_canonical-canonical t (xs ++ ys),
        canonical-append t.state xs ys,
        append_assoc,
      )
      refl

canonical_byte_again : (s : State) (c : ℕ) → canonical s (canonical_byte s c).0 ≡ canonical_byte s c
unfolding canonical canonical_byte
canonical_byte_again after_cr c = refl
canonical_byte_again plain c = elim (Bool-cases (c == 13)) [
  | inl cr ↦ rw (cr, cr) refl
  | inr other ↦ elim (Bool-cases (c == 10)) [
    | inl lf ↦ rw (other, lf) refl
    | inr text ↦ rw (other, text, other, text) refl
  ]
]

canonical-canonical :
    (s : State) (text : Bytes) → canonical s (canonical s text).0 ≡ canonical s text
unfolding canonical
canonical-canonical s [] = refl
canonical-canonical s (c ∷ text) =
    let (bs, s') = canonical_byte s c in
    rw
      (
        canonical-append s bs (canonical s' text).0,
        canonical_byte_again s c,
        canonical-canonical s' text,
      )
      refl

-- Text that was made canonical passes unchanged through a fresh canonical text hash.
pub write_canonical_again :
    (text : Bytes)
    → let fresh : CanonicalText = record { written = []; state = plain } in
      write_canonical fresh (write_canonical fresh text).written ≡ write_canonical fresh text
write_canonical_again text =
    let fresh : CanonicalText = record { written = []; state = plain } in
    rw
      (
        write_canonical-canonical fresh text,
        write_canonical-canonical fresh (canonical plain text).0,
        canonical-canonical plain text,
      )
      refl
