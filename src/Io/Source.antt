-- ===== src/Io/Source.antt =====
-- What a reader promises to those that read from it, and `io.ReadFull` over its `Read`.
use go_crypto.Base.{
  ℕ, zero, suc, ◌-◌, ◌≤◌, ◌<◌, false, inl, inr, [], ◌∷◌, ◌++◌, length, Bytes, Result, ok, err,
  panic, stuck, eof, ◌==◌, if◌then◌else◌, ◌≡◌, ◌≢◌, ◌⊎◌, refl, sym, ◌∙◌, arith, length-append,
  append_assoc,
}
use go_crypto.Io.{read_some}
use go_crypto.Io.Laws.{Delivers, read_some-Delivers}

-- `text s` is what is left to read in state `s`: a `Read` delivers a front of it, of one byte at least,
-- and is EOF where nothing is left.
pub record IsSource {S : Type 0} (read : S → ℕ → Result Bytes × S) (text : S → Bytes) : Type 0 where
  pub at_end :
      (s : S) (k : ℕ) → text s ≡ [] → (s' : S) × (read s (suc k) ≡ (err eof, s')) × (text s' ≡ [])
  pub delivers :
      (s : S) (k : ℕ)
      → text s ≢ []
      → (got : Bytes) × (s' : S) × (read s (suc k) ≡ (ok got, s'))
        × Delivers (suc k) (text s) got (text s')

-- The bytes of a slice, read with any grant, are a source.
pub read_some-IsSource :
    (grant : Bytes → ℕ → ℕ) → IsSource (λ src k. read_some grant k src) (λ src. src)
unfolding read_some
read_some-IsSource grant = record { at_end = ends; delivers = gives }
  where
    ends :
        (src : Bytes) (k : ℕ)
        → src ≡ []
        → (src' : Bytes) × (read_some grant (suc k) src ≡ (err eof, src')) × (src' ≡ [])
    ends [] k e = ([], refl, refl)
    ends (b ∷ src) k e = cc

    gives :
        (src : Bytes) (k : ℕ)
        → src ≢ []
        → (got : Bytes) × (src' : Bytes) × (read_some grant (suc k) src ≡ (ok got, src'))
          × Delivers (suc k) src got src'
    gives [] k ne = absurd (ne refl)
    gives (b ∷ src) k ne = read_some-Delivers grant k b src

-- What is done with the bytes of one `Read`, unless it failed: the bytes of the rest come behind them.
unfoldable pub behind : {S : Type 0} → Result Bytes × S → (Bytes → S → Bytes × S) → Bytes × S
behind (ok got, s) next = let (more, end) = next got s in (got ++ more, end)
behind (r, s) next = ([], s)

-- `io.ReadFull`: all that was read on the way to `k` bytes, or to an error or the end.
unfoldable pub read_up_to : {S : Type 0} → (S → ℕ → Result Bytes × S) → ℕ → ℕ → S → Bytes × S
unfolding behind
read_up_to read zero k s = ([], s)
read_up_to read (suc fuel) k s =
    let next = behind (read s k) (λ got s'. read_up_to read fuel (k - length got) s') in
    if k == 0 then ([], s) else next

-- The bytes and the error that a `Read` returns, of which some code returns both at once.
abbrev pub ReadResult : Type 0
ReadResult = Bytes × Result (Unit {0})

-- What `ioutil.ReadAll` makes of one such `Read`.
unfoldable pub after_both :
    {S : Type 0} → (S → Result Bytes × S) → ReadResult × S → Result Bytes × S
after_both next ((bs, ok x), s) =
    let (more, end) = next s in
    (elim more [ ok rest ↦ ok (bs ++ rest) | err e ↦ err e | panic ↦ panic | stuck ↦ stuck ], end)
after_both next ((bs, err eof), s) = (ok bs, s)
after_both next ((bs, err e), s) = (err e, s)
after_both next ((bs, panic), s) = (panic, s)
after_both next ((bs, stuck), s) = (stuck, s)

-- `ioutil.ReadAll` with buffers of `k` bytes.
unfoldable pub read_to_end : {S : Type 0} → (S → ℕ → ReadResult × S) → ℕ → ℕ → S → Result Bytes × S
unfolding after_both
read_to_end read k zero s = (stuck, s)
read_to_end read k (suc fuel) s = after_both (read_to_end read k fuel) (read s k)

pub nil_cases : (xs : Bytes) → (xs ≡ []) ⊎ (xs ≢ [])
nil_cases [] = inl refl
nil_cases (x ∷ xs) = inr (λ e. cc)

-- `k` bytes are read, or all that are left.
pub record ReadsUpTo (k : ℕ) (before got after : Bytes) : Type 0 where
  pub splits : got ++ after ≡ before
  pub at_most : length got ≤ k
  pub all : length got < k → after ≡ []

module _ {S : Type 0} (read : S → ℕ → Result Bytes × S) (text : S → Bytes)
    (source : IsSource read text) where
  pub read_up_to-ReadsUpTo :
      (fuel k : ℕ) (s : S)
      → k ≤ fuel
      → let (got, s') = read_up_to read fuel k s in ReadsUpTo k (text s) got (text s')
  unfolding read_up_to
  read_up_to-ReadsUpTo zero k s h = record {
    splits = refl;
    at_most = omega arith;
    all = λ p. absurd (omega (arith, p, h));
  }
  read_up_to-ReadsUpTo (suc fuel) zero s h = record {
    splits = refl;
    at_most = omega arith;
    all = λ p. absurd (omega (arith, p));
  }
  read_up_to-ReadsUpTo (suc fuel) (suc k) s h = elim (nil_cases (text s)) [
    | inl none ↦
        let (s', e, e') = source.at_end s k none in
        let more : (suc k == 0) ≡ false = ground arith in
        rw (more, e) (record { splits = e' ∙ sym none; at_most = omega arith; all = λ p. e' })
    | inr some ↦
        let (got, s', e, d) = source.delivers s k some in
        let more : (suc k == 0) ≡ false = ground arith in
        let ih =
          read_up_to-ReadsUpTo fuel (suc k - length got) s' (omega (arith, d.some_bytes, h)) in
        let rest = (read_up_to read fuel (suc k - length got) s').0 in
        rw (more, e)
          (record {
            splits = rw (append_assoc got rest, ih.splits) d.splits;
            at_most = omega (arith, length-append got rest, ih.at_most, d.at_most);
            all = λ p. ih.all (omega (arith, length-append got rest, p));
          })
  ]
