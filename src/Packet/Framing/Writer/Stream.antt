-- ===== src/Packet/Framing/Writer/Stream.antt =====
-- The writer's stream is in the format that the partial-length reader reads, and its buffer is bounded.
use go_crypto.Base.{
  ℕ, zero, suc, ◌+◌, ◌*◌, ◌^◌, ◌≤◌, ◌<◌, inl, inr, Bool-cases, List, [], ◌∷◌, ◌++◌, length, concat,
  take, drop, Bytes, All, ltb, ltb-eq-true, ltb-eq-false, subst, ◌≡◌, refl, ◌∙◌, arith,
  append_assoc, append-nil, length-append, length-take, length-drop, take-append-drop,
}
use go_crypto.Packet.Framing.Length.{serialize_length}
use go_crypto.Packet.Framing.Readers.Chunks.{Chunked, final, partial}
use go_crypto.Packet.Framing.Writer.{PartialWriter, find_power, write, close, write_all}
use native.Mathlib.Nat.{pow-suc}

find_power_bounds :
    (power n : ℕ)
    → 0 < n
    → n < 2 ^ suc power
    → (2 ^ find_power power n ≤ n)
      × (n < 2 ^ suc (find_power power n))
      × (find_power power n ≤ power)
unfolding find_power
find_power_bounds zero n p h = omega arith
find_power_bounds (suc power) n p h = ground (arith, find_power_bounds power n)

-- The flush takes a chunk off the front, and half of the buffer at least.
flush_half :
    (w : PartialWriter)
    → 512 < length w.buf
    → length w.buf < 2 ^ 31
    → let power = find_power 30 (length w.buf) in
      (power < 31)
      × (length (take (2 ^ power) w.buf) ≡ 2 ^ power)
      × (2 * length (drop (2 ^ power) w.buf) ≤ length w.buf)
flush_half w h b =
    let n = length w.buf in
    let (lo, hi, top) = find_power_bounds 30 n (omega arith) b in
    (
      omega arith,
      omega (arith, length-take (2 ^ find_power 30 n) w.buf),
      omega (arith, length-drop (2 ^ find_power 30 n) w.buf, pow-suc 2 (find_power 30 n)),
    )

abbrev power_of : PartialWriter → ℕ
power_of w = find_power 30 (length w.buf)

write_full :
    (w : PartialWriter) (p : Bytes)
    → 512 < length w.buf
    → length w.buf < 2 ^ 31
    → write w p ≡ record {
      out = w.out ++ (224 + power_of w) ∷ take (2 ^ power_of w) w.buf;
      buf = drop (2 ^ power_of w) w.buf ++ p;
    }
unfolding write
write_full w p h b = ground (arith, flush_half w h b)

write_buffered :
    (w : PartialWriter) (p : Bytes) → length w.buf ≤ 512 → write w p ≡ record w { buf = w.buf ++ p }
unfolding write
write_buffered w p h = ground arith

-- One write of at most m bytes (2 * m + 512 < 2 ^ 31) keeps the writer's buffer within 2 * m + 512
-- bytes, a bound that does not grow with the stream.
pub length-write_buf :
    (w : PartialWriter) (p : Bytes) (m : ℕ)
    → length p ≤ m
    → 2 * m + 512 < 2 ^ 31
    → length w.buf ≤ 2 * m + 512
    → length (write w p).buf ≤ 2 * m + 512
length-write_buf w p m hp hm h = elim (Bool-cases (ltb 512 (length w.buf))) [
  | inl big ↦
      let full : 512 < length w.buf = ltb-eq-true _ _ big in
      rw (write_full w p full (omega arith)) (
        omega
          (arith, length-append (drop (2 ^ power_of w) w.buf) p, flush_half w full (omega arith)))
  | inr small ↦
      rw (write_buffered w p (ltb-eq-false _ _ small))
        (omega (arith, length-append w.buf p, ltb-eq-false 512 (length w.buf) small))
]

-- A stream of the writes to come, extended by one write in front of them.
abbrev Extends : PartialWriter → Bytes → Bytes → Bytes → Type 0
Extends w p body written =
    (stream : Bytes) × (written ≡ w.out ++ stream) × Chunked (w.buf ++ (p ++ body)) stream

module _ (w : PartialWriter) (p body s written : Bytes) where
  written_buffered :
      length w.buf ≤ 512
      → written ≡ (write w p).out ++ s
      → Chunked ((write w p).buf ++ body) s
      → Extends w p body written
  written_buffered h e c =
      let shape = write_buffered w p h in (s, rw shape at e, rw append_assoc at (rw shape at c))

  written_full :
      512 < length w.buf
      → length w.buf < 2 ^ 31
      → written ≡ (write w p).out ++ s
      → Chunked ((write w p).buf ++ body) s
      → Extends w p body written
  written_full h b e c =
      let shape = write_full w p h b in
      let (power_fits, size, half) = flush_half w h b in
      let l = 2 ^ power_of w in
      let head = take l w.buf in
      let joined : head ++ ((drop l w.buf ++ p) ++ body) ≡ w.buf ++ (p ++ body) = rw (
        append_assoc (drop l w.buf) p body,
        ← append_assoc head (drop l w.buf) (p ++ body),
        take-append-drop,
      ) in
      (
        (224 + power_of w) ∷ head ++ s,
        (rw shape at e) ∙ append_assoc w.out ((224 + power_of w) ∷ head) s,
        subst (λ x. Chunked x ((224 + power_of w) ∷ head ++ s)) joined
            (partial (power_of w) head _ s power_fits size (rw shape at c)),
      )

module _ (m : ℕ) (hm : 2 * m + 512 < 2 ^ 31) where
  -- What a partial-length writer has put out after some writes of at most m bytes (2 * m + 512 < 2 ^
  -- 31) and Close is a stream in the partial-length format that carries what was buffered and what
  -- was written.
  pub write_all-Chunked :
      (w : PartialWriter) (ps : List Bytes)
      → length w.buf ≤ 2 * m + 512
      → All (λ p. length p ≤ m) ps
      → (stream : Bytes) × (write_all w ps ≡ w.out ++ stream) × Chunked (w.buf ++ concat ps) stream
  unfolding write_all
  write_all-Chunked w [] h hs = (
    serialize_length (length w.buf) ++ w.buf,
    unfold close in refl,
    rw append-nil (final w.buf (omega arith)),
  )
  write_all-Chunked w (p ∷ ps) h hs =
      let (s, e, c) = write_all-Chunked (write w p) ps (length-write_buf w p m hs.0 hm h) hs.1 in
      elim (Bool-cases (ltb 512 (length w.buf))) [
        | inl big ↦ written_full w p (concat ps) s _ (ltb-eq-true _ _ big) (omega arith) e c
        | inr small ↦ written_buffered w p (concat ps) s _ (ltb-eq-false _ _ small) e c
      ]
