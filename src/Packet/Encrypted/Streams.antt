-- ===== src/Packet/Encrypted/Streams.antt =====
-- A deciphering stream over a source of bytes is a source of what the bytes decipher to.
use go_crypto.Base.{
  ℕ, suc, [], ◌∷◌, ◌++◌, length, Bytes, ok, err, eof, ◌≡◌, ◌≢◌, refl, sym, ap, ◌∙◌, arith,
}
use go_crypto.Crypto.Ocfb.{OcfbStream, decrypt_stream, refill, feed}
use go_crypto.Io.{read_some}
use go_crypto.Io.Laws.{Delivers}
use go_crypto.Io.Source.{IsSource, read_some-IsSource}
use go_crypto.Packet.Encrypted.{StreamReader, stream_read, after_stream_read}

-- A text deciphered in two parts.
pub decrypt_stream-append :
    (x : OcfbStream) (xs ys : Bytes)
    → decrypt_stream x (xs ++ ys) ≡ (
      (decrypt_stream x xs).0 ++ (decrypt_stream (decrypt_stream x xs).1 ys).0,
      (decrypt_stream (decrypt_stream x xs).1 ys).1,
    )
unfolding decrypt_stream
decrypt_stream-append x [] ys = refl
decrypt_stream-append x (c ∷ xs) ys = rw (decrypt_stream-append (feed (refill x) c) xs ys) refl

pub length-decrypt_stream :
    (x : OcfbStream) (xs : Bytes) → length (decrypt_stream x xs).0 ≡ length xs
unfolding decrypt_stream
length-decrypt_stream x [] = refl
length-decrypt_stream x (c ∷ xs) = omega (arith, length-decrypt_stream (feed (refill x) c) xs)

-- What a stream reader has still to deliver.
abbrev pub stream_text : StreamReader → Bytes
stream_text r = (decrypt_stream r.stream r.source).0

no_bytes : (xs : Bytes) → length xs ≡ 0 → xs ≡ []
no_bytes [] h = refl
no_bytes (x ∷ xs) h = absurd (omega (arith, h))

pub stream_read-IsSource : (grant : Bytes → ℕ → ℕ) → IsSource (stream_read grant) stream_text
unfolding stream_read after_stream_read
stream_read-IsSource grant = record { at_end = ends; delivers = gives }
  where
    slices : IsSource (λ src k. read_some grant k src) (λ src. src)
    slices = read_some-IsSource grant

    ends :
        (r : StreamReader) (k : ℕ)
        → stream_text r ≡ []
        → (r' : StreamReader) × (stream_read grant r (suc k) ≡ (err eof, r'))
          × (stream_text r' ≡ [])
    ends r k none =
        let empty =
          no_bytes r.source (sym (length-decrypt_stream r.stream r.source) ∙ ap length none) in
        let (s, e, e') = slices.at_end r.source k empty in
        (
          record { stream = r.stream; source = s },
          rw e refl,
          no_bytes (decrypt_stream r.stream s).0 (length-decrypt_stream r.stream s ∙ ap length e'),
        )

    gives :
        (r : StreamReader) (k : ℕ)
        → stream_text r ≢ []
        → (got : Bytes) × (r' : StreamReader) × (stream_read grant r (suc k) ≡ (ok got, r'))
          × Delivers (suc k) (stream_text r) got (stream_text r')
    gives r k some =
        let nonempty : r.source ≢ [] = λ e.
          some (no_bytes (stream_text r) (length-decrypt_stream r.stream r.source ∙ ap length e)) in
        let (got, s, e, d) = slices.delivers r.source k nonempty in
        let x' = (decrypt_stream r.stream got).1 in
        let size = length-decrypt_stream r.stream got in
        (
          (decrypt_stream r.stream got).0,
          record { stream = x'; source = s },
          rw e refl,
          record {
            splits = sym (
                ap (λ x. x.0)
                  (ap (decrypt_stream r.stream) (sym d.splits)
                    ∙ decrypt_stream-append r.stream got s));
            some_bytes = omega (arith, size, d.some_bytes);
            at_most = omega (arith, size, d.at_most);
          },
        )
