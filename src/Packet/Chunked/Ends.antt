-- ===== src/Packet/Chunked/Ends.antt =====
-- The two ends of what was sealed in chunks, and reading up to them.
use go_crypto.Base.{
  ℕ, zero, suc, ◌+◌, ◌≤◌, ◌<◌, [], ◌++◌, length, take, drop, Bytes, ok, err, Error, eof, ◌≡◌, ◌≢◌,
  ap, ◌∙◌, arith, length-append, length-drop, take-append-drop, append-nil,
}
use go_crypto.Io.Source.{after_both, read_to_end}
use go_crypto.Packet.Chunked.{AeadCrypter, aead_read}
use go_crypto.Packet.Chunked.Stream.{Chunks, IsShortEnd, IsBareEnd}
use go_crypto.Packet.Chunked.Open.{opening, read_last_chunk, read_bare_end}
use go_crypto.Packet.Chunked.Exact.{
  after_both_err, put_before, put_before-put_before, after_both-put_before, read_buffered,
  read_ended, read-Chunks,
}

pub short_end_large :
    (wo : AeadCrypter) (text ct : Bytes) → IsShortEnd wo text ct → wo.aead.overhead ≤ length ct
short_end_large wo text ct e =
    omega (arith, ap length e.splits, length-append e.chunk e.tag, e.seals.size)

short_at_end :
    (k : ℕ) (some : 0 < k) (fuel : ℕ) (wo : AeadCrypter) (text ct peeked reader : Bytes)
    → IsShortEnd wo text ct
    → peeked ++ reader ≡ ct
    → length peeked ≡ wo.aead.overhead
    → length text + 1 < fuel
    → (read_to_end aead_read k fuel (opening wo peeked reader)).0 ≡ put_before text (ok [])
unfolding read_to_end
short_at_end k some zero wo text ct peeked reader e ahead carried enough =
    absurd (omega (arith, enough))
short_at_end k some (suc fuel) wo text ct peeked reader e ahead carried enough =
    let (ar, step, ended) = read_last_chunk k wo peeked reader text ct e ahead carried in
    ap (λ x. (after_both (read_to_end aead_read k fuel) x).0) step
    ∙ after_both-put_before (read_to_end aead_read k fuel) (take k text)
        (record ar { buffer = drop k text })
    ∙ ap (put_before (take k text)) (
        read_buffered k fuel 0 (ok []) ar (drop k text) some
          (λ fuel' h. read_ended k fuel' ar h ended) (omega (arith, enough, length-drop k text)))
    ∙ put_before-put_before (take k text) (drop k text) (ok [])
    ∙ ap (λ xs. put_before xs (ok [])) (take-append-drop k text)

-- What ends with a chunk that is not full is read back.
pub read_short :
    (k fuel : ℕ) (wo : AeadCrypter) (text ct peeked reader : Bytes)
    → 0 < k
    → 0 < wo.chunk_size
    → Chunks IsShortEnd wo text ct
    → peeked ++ reader ≡ ct
    → length peeked ≡ wo.aead.overhead
    → length text + 1 < fuel
    → (read_to_end aead_read k fuel (opening wo peeked reader)).0 ≡ ok text
unfolding put_before
read_short k fuel wo text ct peeked reader some room chunks ahead carried enough =
    read-Chunks k some (ok []) IsShortEnd short_end_large (short_at_end k some) fuel wo text ct
      peeked reader room chunks ahead carried enough
    ∙ ap ok (append-nil text)

pub bare_end_large :
    (e : Error) (wo : AeadCrypter) (text ct : Bytes)
    → IsBareEnd e wo text ct
    → wo.aead.overhead ≤ length ct
bare_end_large e wo text ct bare = omega (arith, bare.final.size)

bare_at_end :
    (k : ℕ) (e : Error) (fuel : ℕ) (wo : AeadCrypter) (text ct peeked reader : Bytes)
    → e ≢ eof
    → IsBareEnd e wo text ct
    → peeked ++ reader ≡ ct
    → length peeked ≡ wo.aead.overhead
    → length text + 1 < fuel
    → (read_to_end aead_read k fuel (opening wo peeked reader)).0 ≡ put_before text (err e)
unfolding read_to_end put_before
bare_at_end k e zero wo text ct peeked reader real bare ahead carried enough =
    absurd (omega (arith, enough))
bare_at_end k e (suc fuel) wo text ct peeked reader real bare ahead carried enough =
    let (ar, step) =
      read_bare_end k wo bare.nonce peeked reader ct e bare.has_nonce bare.refused bare.room
        bare.final.size ahead carried in
    ap (λ x. (after_both (read_to_end aead_read k fuel) x).0) step
    ∙ after_both_err (read_to_end aead_read k fuel) e ar real

-- What ends with a full chunk is refused in the end.
pub read_bare :
    (k fuel : ℕ) (e : Error) (wo : AeadCrypter) (text ct peeked reader : Bytes)
    → e ≢ eof
    → 0 < k
    → 0 < wo.chunk_size
    → Chunks (IsBareEnd e) wo text ct
    → peeked ++ reader ≡ ct
    → length peeked ≡ wo.aead.overhead
    → length text + 1 < fuel
    → (read_to_end aead_read k fuel (opening wo peeked reader)).0 ≡ err e
unfolding put_before
read_bare k fuel e wo text ct peeked reader real some room chunks ahead carried enough =
    read-Chunks k some (err e) (IsBareEnd e) (bare_end_large e)
      (λ fuel' wo' text' ct' peeked' reader' bare ahead' carried'.
        bare_at_end k e fuel' wo' text' ct' peeked' reader' real bare ahead' carried')
      fuel wo text ct peeked reader room chunks ahead carried enough
