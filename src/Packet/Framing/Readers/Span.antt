-- ===== src/Packet/Framing/Readers/Span.antt =====
-- A span reader delivers the span, however the source splits its bytes.
use go_crypto.Base.{
  ℕ, zero, suc, ◌+◌, ◌-◌, ◌<◌, [], ◌∷◌, ◌++◌, length, min, Bytes, ok, err, unexpected_eof, ◌≡◌,
  refl, ap, arith, append_split, length-append,
}
use go_crypto.Io.{read_some, read_all}
use go_crypto.Io.Laws.{Delivers, read_some-Delivers}
use go_crypto.Packet.Framing.Readers.{SpanReader, span_read}

module _ (grant : Bytes → ℕ → ℕ) (k : ℕ) where
  span_read_step :
      (b m : ℕ) (src : Bytes)
      → (got : Bytes) × (rest : Bytes) × (span_read grant
            (record { src = b ∷ src; n = suc m })
            (suc k)
          ≡ (ok got, record { src = rest; n = suc m - length got }))
        × Delivers (suc (min k m)) (b ∷ src) got rest
  unfolding span_read
  span_read_step b m src =
      let (got, rest, e, d) = read_some-Delivers grant (min k m) b src in
      (got, rest, ground (arith, e), d)

  -- A span reader delivers all of its span, by reads of any positive size, and does not touch what
  -- follows it.
  pub read_all-span :
      (fuel : ℕ) (body rest : Bytes)
      → length body < fuel
      → read_all (span_read grant) (suc k) fuel (record { src = body ++ rest; n = length body })
        ≡ (ok body, record { src = rest; n = 0 })
  unfolding read_all
  read_all-span zero body rest h = absurd (omega arith)
  read_all-span (suc fuel) [] rest h = unfold span_read in refl
  read_all-span (suc fuel) (b ∷ body) rest h =
      let (got, rest', e, d) = span_read_step b (length body) (body ++ rest) in
      let (more, p, q) =
        append_split got rest' (b ∷ body) rest d.splits (omega (arith, d.at_most)) in
      let left : suc (length body) - length got ≡ length more =
        omega (arith, ap length p, length-append got more) in
      let ih =
        read_all-span fuel more rest
          (omega (arith, ap length p, length-append got more, d.some_bytes)) in
      rw (e, q, left, ih, ← p)

  -- A source that ends inside a span is an unexpected EOF and not the end of the body, and it is
  -- used up.
  pub read_all-span_short :
      (fuel n : ℕ) (src : Bytes)
      → length src < n
      → length src < fuel
      → (l : SpanReader) × (read_all (span_read grant) (suc k) fuel (record { src = src; n = n })
          ≡ (err unexpected_eof, l))
        × (l.src ≡ [])
  unfolding read_all
  read_all-span_short zero n src h f = absurd (omega arith)
  read_all-span_short (suc fuel) zero [] h f = absurd (omega arith)
  read_all-span_short (suc fuel) (suc n) [] h f =
      (record { src = []; n = suc n }, unfold span_read read_some in ground arith, refl)
  read_all-span_short (suc fuel) zero (b ∷ src) h f = absurd (omega arith)
  read_all-span_short (suc fuel) (suc n) (b ∷ src) h f =
      let (got, rest, e, d) = span_read_step b n src in
      let size : length got + length rest ≡ suc (length src) =
        omega (arith, ap length d.splits, length-append got rest) in
      let (l, ih, used) =
        read_all-span_short fuel (suc n - length got) rest (omega (arith, d.some_bytes))
          (omega (arith, d.some_bytes)) in
      (l, rw (e, ih), used)
