-- ===== src/Packet/Chunked/Exact.antt =====
-- Reading to the end of what was sealed in chunks.
use go_crypto.Base.{
  ℕ, zero, suc, ◌+◌, ◌≤◌, ◌<◌, true, [], ◌∷◌, ◌++◌, length, take, drop, Bytes, Result, ok, err,
  panic, stuck, Error, eof, unexpected_eof, short_write, structural, unsupported, signature,
  invalid_argument, unknown_packet_type, aead_error, failure, ◌≡◌, ◌≢◌, refl, sym, ap, ◌∙◌, arith,
  length-append, length-take, length-drop, ltb, take-append-drop, append_assoc,
}
use go_crypto.Io.Source.{after_both, read_to_end}
use go_crypto.Packet.Chunked.{Aead, AeadCrypter, AeadDecrypter, aead_read}
use go_crypto.Packet.Chunked.Stream.{Chunks, ends, next}
use go_crypto.Packet.Chunked.Open.{opening, read_full_chunk}

pub after_both_err :
    (more : AeadDecrypter → Result Bytes × AeadDecrypter) (e : Error) (ar : AeadDecrypter)
    → e ≢ eof
    → (after_both more (([], err e), ar)).0 ≡ err e
unfolding after_both
after_both_err more eof ar real = absurd (real refl)
after_both_err more unexpected_eof ar real = refl
after_both_err more short_write ar real = refl
after_both_err more (structural m) ar real = refl
after_both_err more (unsupported m) ar real = refl
after_both_err more (signature m) ar real = refl
after_both_err more (invalid_argument m) ar real = refl
after_both_err more (unknown_packet_type t) ar real = refl
after_both_err more (aead_error m) ar real = refl
after_both_err more (failure m) ar real = refl

-- A result that starts with what is in the buffer.
unfoldable pub put_before : Bytes → Result Bytes → Result Bytes
put_before bs (ok rest) = ok (bs ++ rest)
put_before bs r = r

pub put_before-put_before :
    (xs ys : Bytes) (r : Result Bytes) → put_before xs (put_before ys r) ≡ put_before (xs ++ ys) r
unfolding put_before
put_before-put_before xs ys (ok rest) = ap ok (sym (append_assoc xs ys rest))
put_before-put_before xs ys (err e) = refl
put_before-put_before xs ys panic = refl
put_before-put_before xs ys stuck = refl

pub after_both-put_before :
    (more : AeadDecrypter → Result Bytes × AeadDecrypter) (bs : Bytes) (ar : AeadDecrypter)
    → (after_both more ((bs, ok tt), ar)).0 ≡ put_before bs (more ar).0
unfolding after_both put_before
after_both-put_before more bs ar = go (more ar).0
  where
    go :
        (r : Result Bytes)
        → elim r as (λ x. Result Bytes) [
          | ok rest ↦ ok (bs ++ rest)
          | err e ↦ err e
          | panic ↦ panic
          | stuck ↦ stuck
        ]
          ≡ put_before bs r
    go (ok rest) = refl
    go (err e) = refl
    go panic = refl
    go stuck = refl

put_before-nil : (r : Result Bytes) → r ≡ put_before [] r
unfolding put_before
put_before-nil (ok rest) = refl
put_before-nil (err e) = refl
put_before-nil panic = refl
put_before-nil stuck = refl

aead_read_buffered :
    (k b : ℕ) (buffer : Bytes) (ar : AeadDecrypter)
    → aead_read (record ar { buffer = b ∷ buffer }) k
      ≡ ((take k (b ∷ buffer), ok tt), record ar { buffer = drop k (b ∷ buffer) })
unfolding aead_read
aead_read_buffered k b buffer ar =
    let some : ltb 0 (length (b ∷ buffer)) ≡ true = ground arith in rw some refl

-- What is left in the buffer is delivered first, and then what an empty buffer gives.
pub read_buffered :
    (k fuel n : ℕ) (out : Result Bytes) (ar : AeadDecrypter) (buffer : Bytes)
    → 0 < k
    → ((fuel' : ℕ)
        → n < fuel'
        → (read_to_end aead_read k fuel' (record ar { buffer = [] })).0 ≡ out)
    → length buffer + n < fuel
    → (read_to_end aead_read k fuel (record ar { buffer = buffer })).0 ≡ put_before buffer out
unfolding read_to_end
read_buffered k zero n out ar buffer h done enough = absurd (omega (arith, enough))
read_buffered k (suc fuel) n out ar [] h done enough =
    done (suc fuel) (omega (arith, enough)) ∙ put_before-nil out
read_buffered (suc k) (suc fuel) n out ar (b ∷ buffer) h done enough =
    let ih =
      read_buffered (suc k) fuel n out ar (drop k buffer) h done
        (omega (arith, enough, length-drop k buffer)) in
    ap (λ x. (after_both (read_to_end aead_read (suc k) fuel) x).0)
      (aead_read_buffered (suc k) b buffer ar)
    ∙ after_both-put_before (read_to_end aead_read (suc k) fuel) (b ∷ take k buffer)
        (record ar { buffer = drop k buffer })
    ∙ ap (put_before (b ∷ take k buffer)) ih
    ∙ put_before-put_before (b ∷ take k buffer) (drop k buffer) out
    ∙ ap (λ xs. put_before (b ∷ xs) out) (take-append-drop k buffer)
read_buffered zero (suc fuel) n out ar (b ∷ buffer) h done enough = absurd (omega (arith, h))

-- Nothing comes behind the end.
pub read_ended :
    (k fuel : ℕ) (ar : AeadDecrypter)
    → 0 < fuel
    → ar.eof ≡ true
    → (read_to_end aead_read k fuel (record ar { buffer = [] })).0 ≡ ok []
unfolding read_to_end after_both aead_read
read_ended k zero ar h e = absurd (omega (arith, h))
read_ended k (suc fuel) ar h e = simp e refl

module _ (End : AeadCrypter → Bytes → Bytes → Type 0)
    (large : (wo : AeadCrypter) (text ct : Bytes)
      → End wo text ct
      → wo.aead.overhead ≤ length ct) where
  -- Chunks end with a final tag at least.
  pub Chunks-large :
      (wo : AeadCrypter) (text ct : Bytes) → Chunks End wo text ct → wo.aead.overhead ≤ length ct
  Chunks-large wo text ct (ends e) = large wo text ct e
  Chunks-large wo text _ (next {chunk = chunk} {ct = ct} full sealed rest) =
      omega (arith, sealed.size, length-append chunk ct)

-- What reading gives does not depend on the kind of the end: `out` is what the end gives.
module _ (k : ℕ) (some : 0 < k) (out : Result Bytes) (End : AeadCrypter → Bytes → Bytes → Type 0)
    (large : (wo : AeadCrypter) (text ct : Bytes) → End wo text ct → wo.aead.overhead ≤ length ct)
    (at_end : (fuel : ℕ) (wo : AeadCrypter) (text ct peeked reader : Bytes)
      → End wo text ct
      → peeked ++ reader ≡ ct
      → length peeked ≡ wo.aead.overhead
      → length text + 1 < fuel
      → (read_to_end aead_read k fuel (opening wo peeked reader)).0 ≡ put_before text out) where
  after_full_chunk :
      (fuel : ℕ) (wo' : AeadCrypter) (piece rest ct : Bytes)
      → ((fuel' : ℕ)
          → length rest + 1 < fuel'
          → (read_to_end aead_read k fuel'
              (opening wo' (take wo'.aead.overhead ct) (drop wo'.aead.overhead ct))).0
            ≡ put_before rest out)
      → 0 < length piece
      → length (piece ++ rest) + 1 < suc fuel
      → (after_both (read_to_end aead_read k fuel) (
        (take k piece, ok tt),
        record (opening wo' (take wo'.aead.overhead ct) (drop wo'.aead.overhead ct)) {
          buffer = drop k piece;
        },
      )).0
        ≡ put_before (piece ++ rest) out
  after_full_chunk fuel wo' piece rest ct done room enough =
      let ar = opening wo' (take wo'.aead.overhead ct) (drop wo'.aead.overhead ct) in
      let size : length (drop k piece) + (length rest + 1) < fuel =
        omega (arith, enough, some, room, length-append piece rest, length-drop k piece) in
      after_both-put_before (read_to_end aead_read k fuel) (take k piece)
        (record ar { buffer = drop k piece })
      ∙ ap (put_before (take k piece)) (
          read_buffered k fuel (length rest + 1) (put_before rest out) ar (drop k piece) some done
            size)
      ∙ put_before-put_before (take k piece) (drop k piece) (put_before rest out)
      ∙ ap (λ xs. put_before xs (put_before rest out)) (take-append-drop k piece)
      ∙ put_before-put_before piece rest out

  pub read-Chunks :
      (fuel : ℕ) (wo : AeadCrypter) (text ct peeked reader : Bytes)
      → 0 < wo.chunk_size
      → Chunks End wo text ct
      → peeked ++ reader ≡ ct
      → length peeked ≡ wo.aead.overhead
      → length text + 1 < fuel
      → (read_to_end aead_read k fuel (opening wo peeked reader)).0 ≡ put_before text out
  unfolding read_to_end
  read-Chunks fuel wo text ct peeked reader room (ends e) ahead carried enough =
      at_end fuel wo text ct peeked reader e ahead carried enough
  read-Chunks zero wo _ _ peeked reader room (next full sealed rest) ahead carried enough =
      absurd (omega (arith, enough))
  read-Chunks (suc fuel) wo _ _ peeked reader room
        (next {wo' = wo'} {piece = piece} {chunk = chunk} {rest = rest} {ct = ct} full sealed more)
        ahead carried enough =
      let same : wo'.aead.overhead ≡ wo.aead.overhead =
        ap (λ (a : Aead). a.overhead) sealed.same_aead in
      let fits : wo.aead.overhead ≤ length ct =
        omega (arith, Chunks-large End large wo' rest ct more, same) in
      let step =
        read_full_chunk k wo wo' peeked reader piece chunk ct full sealed fits ahead carried in
      let done : (fuel' : ℕ)
          → length rest + 1 < fuel'
          → (read_to_end aead_read k fuel'
              (opening wo' (take wo'.aead.overhead ct) (drop wo'.aead.overhead ct))).0
            ≡ put_before rest out =
        λ fuel' h.
          read-Chunks fuel' wo' rest ct (take wo'.aead.overhead ct) (drop wo'.aead.overhead ct)
            (omega (arith, room, sealed.same_size)) more (take-append-drop wo'.aead.overhead ct)
            (omega (arith, length-take wo'.aead.overhead ct, fits, same)) h in
      ap (λ x. (after_both (read_to_end aead_read k fuel) x).0)
        (step
          ∙ ap
              (λ (n : ℕ). (
                (take k piece, ok tt),
                record (opening wo' (take n ct) (drop n ct)) { buffer = drop k piece },
              ))
              (sym same))
      ∙ after_full_chunk fuel wo' piece rest ct done (omega (arith, room, full)) enough
