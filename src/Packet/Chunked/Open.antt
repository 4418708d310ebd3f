-- ===== src/Packet/Chunked/Open.antt =====
-- Reading what was sealed in chunks.
use go_crypto.Base.{
  ℕ, ◌+◌, ◌-◌, ◌≤◌, ◌<◌, true, false, [], ◌∷◌, ◌++◌, length, take, drop, Bytes, ok, err, Error, ltb,
  ltb-eq-true, ◌≡◌, refl, sym, ap, ◌∙◌, arith, length-append, length-take, take_all, take-append,
  drop-append, take-append_more, drop-append_more, append-nil,
}
use go_crypto.Packet.Chunked.{
  Aead, AeadCrypter, AeadDecrypter, open_chunk, opened_chunk, after_open, aead_read,
  compute_next_nonce, chunk_data,
}
use go_crypto.Packet.Chunked.Stream.{IsSealed, IsShortEnd}

open_chunk_lem :
    (ar : AeadDecrypter) (bytes chunk peeked text : Bytes) (wo' : AeadCrypter)
    → ar.peeked_bytes ++ bytes ≡ chunk ++ peeked
    → length peeked ≡ ar.crypter.aead.overhead
    → IsSealed ar.crypter text chunk wo'
    → open_chunk ar bytes ≡ (ok text, record ar { crypter = wo'; peeked_bytes = peeked })
unfolding open_chunk opened_chunk
open_chunk_lem ar bytes chunk peeked text wo' splits size sealed =
    let extra = ar.peeked_bytes ++ bytes in
    let whole : length extra ≡ length chunk + length peeked =
      ap length splits ∙ length-append chunk peeked in
    let enough : ltb (length extra) ar.crypter.aead.overhead ≡ false =
      ground (arith, whole, size) in
    let sep : length chunk ≡ length extra - ar.crypter.aead.overhead = omega (arith, whole, size) in
    let front : take (length extra - ar.crypter.aead.overhead) extra ≡ chunk =
      ap (take (length extra - ar.crypter.aead.overhead)) splits
      ∙ take-append (length extra - ar.crypter.aead.overhead) chunk peeked sep in
    let back : drop (length extra - ar.crypter.aead.overhead) extra ≡ peeked =
      ap (drop (length extra - ar.crypter.aead.overhead)) splits
      ∙ drop-append (length extra - ar.crypter.aead.overhead) chunk peeked sep in
    rw (enough, sealed.has_nonce, front, sealed.opens, sealed.counts text, back) refl

-- A decrypter with nothing buffered that has not seen the end.
abbrev pub opening : AeadCrypter → Bytes → Bytes → AeadDecrypter
opening wo peeked reader = record {
  crypter = wo;
  buffer = [];
  reader = reader;
  peeked_bytes = peeked;
  eof = false;
}

aead_read_open :
    (k : ℕ) (wo : AeadCrypter) (peeked reader : Bytes)
    → let size = wo.chunk_size + wo.aead.overhead in
      aead_read (opening wo peeked reader) k
      ≡ after_open k
          (ltb (length reader) size)
          (open_chunk (opening wo peeked (drop size reader)) (take size reader))
unfolding aead_read
aead_read_open k wo peeked reader = refl

-- A `Read` on a full chunk, where more follows.
pub read_full_chunk :
    (k : ℕ) (wo wo' : AeadCrypter) (peeked reader piece chunk ct : Bytes)
    → length piece ≡ wo.chunk_size
    → IsSealed wo piece chunk wo'
    → wo.aead.overhead ≤ length ct
    → peeked ++ reader ≡ chunk ++ ct
    → length peeked ≡ wo.aead.overhead
    → let n = wo.aead.overhead in
      aead_read (opening wo peeked reader) k ≡ (
        (take k piece, ok tt),
        record (opening wo' (take n ct) (drop n ct)) { buffer = drop k piece },
      )
unfolding after_open
read_full_chunk k wo wo' peeked reader piece chunk ct full sealed large ahead carried =
    let n = wo.aead.overhead in
    let size = wo.chunk_size + n in
    let more : ltb (length reader) size ≡ false = ground (
      arith,
      ap length ahead,
      length-append peeked reader,
      length-append chunk ct,
      carried,
      large,
      sealed.size,
      full,
    ) in
    let front : peeked ++ take size reader ≡ chunk ++ take n ct =
      sym (take-append_more (n + size) size peeked reader (omega (arith, carried)))
      ∙ ap (take (n + size)) ahead
      ∙ take-append_more (n + size) n chunk ct (omega (arith, sealed.size, full)) in
    let back : drop size reader ≡ drop n ct =
      sym (drop-append_more (n + size) size peeked reader (omega (arith, carried)))
      ∙ ap (drop (n + size)) ahead
      ∙ drop-append_more (n + size) n chunk ct (omega (arith, sealed.size, full)) in
    let opened =
      open_chunk_lem (opening wo peeked (drop size reader)) (take size reader) chunk (take n ct)
        piece wo' front (omega (arith, length-take n ct, large)) sealed in
    rw (aead_read_open k wo peeked reader, more, opened, back) refl

-- A `Read` on the last chunk, which is not full.
pub read_last_chunk :
    (k : ℕ) (wo : AeadCrypter) (peeked reader text ct : Bytes)
    → IsShortEnd wo text ct
    → peeked ++ reader ≡ ct
    → length peeked ≡ wo.aead.overhead
    → (ar : AeadDecrypter) × (aead_read (opening wo peeked reader) k
        ≡ ((take k text, ok tt), record ar { buffer = drop k text }))
      × (ar.eof ≡ true)
unfolding after_open
read_last_chunk k wo peeked reader text ct last ahead carried =
    let n = wo.aead.overhead in
    let size = wo.chunk_size + n in
    let whole = ap length (ahead ∙ last.splits) in
    let end : ltb (length reader) size ≡ true = ground (
      arith,
      whole,
      length-append peeked reader,
      length-append last.chunk last.tag,
      carried,
      last.final.size,
      last.seals.same_aead,
      last.seals.size,
      last.short,
    ) in
    let all : take size reader ≡ reader =
      take_all size reader (omega (arith, ltb-eq-true (length reader) size end)) in
    let tag_size : length last.tag ≡ n =
      last.final.size ∙ ap (λ (a : Aead). a.overhead) last.seals.same_aead in
    let opened =
      open_chunk_lem (opening wo peeked (drop size reader)) (take size reader) last.chunk last.tag
        text last.after (ap (λ xs. peeked ++ xs) all ∙ ahead ∙ last.splits) tag_size last.seals in
    (
      record (opening last.after last.tag (drop size reader)) { eof = true },
      rw (aead_read_open k wo peeked reader, end, opened, last.final.valid) refl,
      refl,
    )

-- A `Read` behind the last chunk where that was full: the final tag is taken for a chunk.
pub read_bare_end :
    (k : ℕ) (wo : AeadCrypter) (nonce peeked reader ct : Bytes) (e : Error)
    → compute_next_nonce wo ≡ ok nonce
    → wo.aead.open_sealed nonce [] (chunk_data wo) ≡ err e
    → 0 < wo.chunk_size
    → length ct ≡ wo.aead.overhead
    → peeked ++ reader ≡ ct
    → length peeked ≡ wo.aead.overhead
    → (ar : AeadDecrypter) × (aead_read (opening wo peeked reader) k ≡ (([], err e), ar))
unfolding open_chunk after_open
read_bare_end k wo nonce peeked [] ct e has_nonce refuses room size ahead carried =
    let n = wo.aead.overhead in
    let end : ltb 0 (wo.chunk_size + n) ≡ true = ground (arith, room) in
    let extra : Bytes = peeked ++ take (wo.chunk_size + n) [] in
    let whole : extra ≡ peeked =
      ap (λ xs. peeked ++ xs) (take_all {A = ℕ} (wo.chunk_size + n) [] (omega arith))
      ∙ append-nil peeked in
    let enough : ltb (length extra) n ≡ false = ground (arith, ap length whole, carried) in
    let gone : length extra - n ≡ 0 = omega (arith, ap length whole, carried) in
    let front : take (length extra - n) extra ≡ [] = ap (λ (m : ℕ). take m extra) gone in
    (
      opening wo (drop (length extra - n) extra) (drop (wo.chunk_size + n) []),
      aead_read_open k wo peeked [] ∙ rw (end, enough, has_nonce, front, refuses) refl,
    )
read_bare_end k wo nonce peeked (b ∷ reader) ct e has_nonce refuses room size ahead carried =
    absurd (omega (arith, ap length ahead, length-append peeked (b ∷ reader), size, carried))
