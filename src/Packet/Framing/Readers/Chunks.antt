-- ===== src/Packet/Framing/Readers/Chunks.antt =====
-- A partial-length reader delivers the chunks of a stream joined, however the source splits its bytes.
use go_crypto.Base.{
  ℕ, zero, suc, ◌+◌, ◌-◌, ◌%◌, ◌^◌, ◌≤◌, ◌<◌, ◌≢◌, ◌⊎◌, inl, inr, Bool, true, false, [], ◌∷◌, ◌++◌,
  length, min, Bytes, AreBytes, Result, ok, err, panic, stuck, ◌≡◌, refl, sym, ap, ◌∙◌, arith,
  append_split, append_assoc, append-nil, length-append,
}
use native.Mathlib.Nat.{mod-eq_of_lt, one-le-pow}
use go_crypto.Io.{read_all}
use go_crypto.Io.Laws.{Delivers, read_some-Delivers}
use go_crypto.Packet.Framing.Length.{read_length, serialize_length}
use go_crypto.Packet.Framing.Length.Laws.{
  read_length-serialize_length, read_length_partial, read_length_bounds, read_length-ne-stuck,
}
use go_crypto.Packet.Framing.Readers.{PartialReader, next_chunk, partial_read}

-- The format: `stream` carries `body` in chunks of 2 ^ power bytes and a last one with its length.
pub data Chunked : Bytes → Bytes → Type 0 where
  final :
      (body : Bytes) → length body < 2 ^ 32 → Chunked body (serialize_length (length body) ++ body)
  partial :
      (power : ℕ) (chunk body stream : Bytes)
      → power < 31
      → length chunk ≡ 2 ^ power
      → Chunked body stream
      → Chunked (chunk ++ body) ((224 + power) ∷ chunk ++ stream)

abbrev pub at_chunk : Bytes → ℕ → Bool → PartialReader
at_chunk src n p = record { src = src; remaining = n; is_partial = p }

-- The loop of partialLengthReader.Read ends within two rounds on a source of bytes: it does not run
-- out of fuel, and more fuel changes nothing.
pub next_chunk_two_rounds :
    (fuel : ℕ) (r : PartialReader)
    → AreBytes r.src
    → ((next_chunk 2 r).0 ≢ stuck) × (next_chunk (suc (suc fuel)) r ≡ next_chunk 2 r)
unfolding next_chunk
next_chunk_two_rounds fuel r h = go (read_length r.src) refl
  where
    go :
        (x : Result (ℕ × Bool × Bytes))
        → read_length r.src ≡ x
        → ((next_chunk 2 r).0 ≢ stuck) × (next_chunk (suc (suc fuel)) r ≡ next_chunk 2 r)
    go (ok (n, p, rest)) e = ground (arith, e, read_length_bounds r.src n p rest)
    go (err x) e = ground (arith, e)
    go panic e = ground (arith, e)
    go stuck e = absurd (read_length-ne-stuck r.src e)

-- At the end of a partial chunk a `Read` is a `Read` of the next chunk.
partial_read_boundary :
    (grant : Bytes → ℕ → ℕ) (k : ℕ) (src rest : Bytes) (n : ℕ) (p : Bool)
    → read_length src ≡ ok (n, p, rest)
    → (0 < n) ⊎ (p ≡ false)
    → partial_read grant (at_chunk src 0 true) k ≡ partial_read grant (at_chunk rest n p) k
unfolding partial_read next_chunk
partial_read_boundary grant k src rest n p e (inl h) = ground (arith, e)
partial_read_boundary grant k src rest n p e (inr h) = ground (arith, e)

module _ (grant : Bytes → ℕ → ℕ) (k : ℕ) where
  partial_read_step :
      (b m : ℕ) (p : Bool) (src : Bytes)
      → (got : Bytes) × (rest : Bytes) × (partial_read grant (at_chunk (b ∷ src) (suc m) p) (suc k)
          ≡ (ok got, at_chunk rest (suc m - length got) p))
        × Delivers (suc (min k m)) (b ∷ src) got rest
  unfolding partial_read next_chunk
  partial_read_step b m p src =
      let (got, rest, e, d) = read_some-Delivers grant (min k m) b src in
      (got, rest, ground (arith, e), d)

  -- Reading on through a chunk, given what is read behind it.
  read_chunk_all :
      (fuel bound : ℕ) (chunk tail out : Bytes) (p : Bool) (s : PartialReader)
      → ((f : ℕ)
          → bound ≤ f
          → read_all (partial_read grant) (suc k) f (at_chunk tail 0 p) ≡ (ok out, s))
      → length chunk + bound ≤ fuel
      → read_all (partial_read grant) (suc k) fuel (at_chunk (chunk ++ tail) (length chunk) p)
        ≡ (ok (chunk ++ out), s)
  unfolding read_all
  read_chunk_all fuel bound [] tail out p s h f = h fuel (omega arith)
  read_chunk_all zero bound (b ∷ chunk) tail out p s h f = absurd (omega arith)
  read_chunk_all (suc fuel) bound (b ∷ chunk) tail out p s h f =
      let (got, rest', e, d) = partial_read_step b (length chunk) p (chunk ++ tail) in
      let (after, q, r) =
        append_split got rest' (b ∷ chunk) tail d.splits (omega (arith, d.at_most)) in
      let left : suc (length chunk) - length got ≡ length after =
        omega (arith, ap length q, length-append got after) in
      let ih =
        read_chunk_all fuel bound after tail out p s h
          (omega (arith, ap length q, length-append got after, d.some_bytes)) in
      let joined : got ++ (after ++ out) ≡ (b ∷ chunk) ++ out =
        sym (append_assoc got after out) ∙ ap (λ l. l ++ out) (sym q) in
      rw (e, r, left, ih) (ap (λ l. (ok l, s)) joined)

  pub read_all_boundary :
      (fuel : ℕ) (src rest : Bytes) (n : ℕ) (p : Bool)
      → read_length src ≡ ok (n, p, rest)
      → (0 < n) ⊎ (p ≡ false)
      → read_all (partial_read grant) (suc k) (suc fuel) (at_chunk src 0 true)
        ≡ read_all (partial_read grant) (suc k) (suc fuel) (at_chunk rest n p)
  unfolding read_all
  read_all_boundary fuel src rest n p e h =
      rw (partial_read_boundary grant (suc k) src rest n p e h)

  read_all_end :
      (rest : Bytes) (fuel : ℕ)
      → 1 ≤ fuel
      → read_all (partial_read grant) (suc k) fuel (at_chunk rest 0 false)
        ≡ (ok [], at_chunk rest 0 false)
  unfolding read_all partial_read next_chunk
  read_all_end rest zero h = absurd (omega arith)
  read_all_end rest (suc fuel) h = refl

  -- A stream in the partial-length format is read to its body by reads of any positive size, and
  -- what follows it is not touched, however the source splits its bytes.
  pub read_all-Chunked :
      {body stream : Bytes} (rest : Bytes) (fuel : ℕ)
      → Chunked body stream
      → length body < fuel
      → read_all (partial_read grant) (suc k) fuel (at_chunk (stream ++ rest) 0 true)
        ≡ (ok body, at_chunk rest 0 false)
  read_all-Chunked rest zero c h = absurd (omega arith)
  read_all-Chunked rest (suc fuel) (final body b) h =
      rw
        (
          append_assoc (serialize_length (length body)) body rest,
          read_all_boundary fuel _ (body ++ rest) (length body % 2 ^ 32) false
              (read_length-serialize_length (length body) (body ++ rest)) (inr refl),
          mod-eq_of_lt b,
          read_chunk_all (suc fuel) 1 body rest [] false (at_chunk rest 0 false) (read_all_end rest)
              (omega arith),
          append-nil,
        )
        refl
  read_all-Chunked rest (suc fuel) (partial power chunk body stream b e c) h =
      rw
        (
          append_assoc chunk stream rest,
          read_all_boundary fuel _ (chunk ++ (stream ++ rest)) (2 ^ power) true
              (read_length_partial power _ b) (inl (one-le-pow power 2 (omega arith))),
          ← e,
          read_chunk_all (suc fuel) (suc (length body)) chunk (stream ++ rest) body true
              (at_chunk rest 0 false) (λ f le. read_all-Chunked rest f c (omega arith))
              (omega (arith, length-append chunk body)),
        )
        refl
