-- ===== src/Packet/Chunked/Write.antt =====
-- Sealing in chunks: what the writes and the close make of a text.
use go_crypto.Base.{
  ℕ, zero, suc, ◌+◌, ◌*◌, ◌≤◌, ◌<◌, ◌^◌, Bool-cases, inl, inr, ◌++◌, length, take, drop, Bytes,
  AreBytes, IsByte, Result, ok, leb, ◌≡◌, refl, sym, ap, ◌∙◌, arith, length-append, length-take,
  length-drop, take-append-drop, append_assoc, All-append, All-take, All-drop,
}
use go_crypto.Packet.Chunked.{
  AeadCrypter, AeadEncrypter, seal_chunk, write_chunk, write_chunks, aead_write,
}
use go_crypto.Packet.Chunked.Index.{index_value}
use go_crypto.Packet.Chunked.Stream.{IsReady, seal_chunk-IsSealed, Chunks, next}

module _ (nonce_size : ℕ) (start : AeadCrypter) where
  -- The encrypter after it was given `text`: full chunks of it are sealed and written, and the rest is
  -- buffered. Whatever chunks follow, they continue those that were written.
  pub record HasTaken (text : Bytes) (aw : AeadEncrypter) : Type 1 where
    pub full : Bytes
    pub count : ℕ
    pub whole : length full ≡ count * start.chunk_size
    pub splits : text ≡ full ++ aw.buffer
    pub continues :
        (End : AeadCrypter → Bytes → Bytes → Type 0) (rest ct : Bytes)
        → Chunks End aw.crypter rest ct
        → Chunks End start (full ++ rest) (aw.written ++ ct)
    pub ready : IsReady nonce_size aw.crypter
    pub same_size : aw.crypter.chunk_size ≡ start.chunk_size
    pub same_aead : aw.crypter.aead ≡ start.aead
    pub index : index_value aw.crypter.chunk_index ≤ length full
    pub processed : aw.crypter.bytes_processed ≡ length full
    pub bytes : AreBytes aw.buffer

  module _ (room : 0 < start.chunk_size) where
    -- A full chunk is sealed and written.
    write_chunk-HasTaken :
        (text : Bytes) (aw : AeadEncrypter)
        → HasTaken text aw
        → length text + 1 < 2 ^ 64
        → start.chunk_size ≤ length aw.buffer
        → let n = aw.crypter.chunk_size in
          (aw' : AeadEncrypter) × HasTaken text aw'
          × (length aw'.buffer < length aw.buffer)
          × ((more : AeadEncrypter → Result (Unit {0}) × AeadEncrypter)
              → write_chunk more
                  (record aw { buffer = drop n aw.buffer })
                  (seal_chunk aw.crypter (take n aw.buffer))
                ≡ more aw')
    unfolding write_chunk
    write_chunk-HasTaken text aw taken small large =
        let n = aw.crypter.chunk_size in
        let piece = take n aw.buffer in
        let back = drop n aw.buffer in
        let size : length piece ≡ n =
          omega (arith, length-take n aw.buffer, large, taken.same_size) in
        let total = ap length taken.splits ∙ length-append taken.full aw.buffer in
        let (chunk, wo', sealed, ready') =
          seal_chunk-IsSealed nonce_size aw.crypter piece taken.ready (omega (arith, size))
            (All-take IsByte n aw.buffer taken.bytes) (omega (arith, taken.index, total, small)) in
        let taken' : HasTaken text
            (record { crypter = wo'; buffer = back; written = aw.written ++ chunk }) =
          record {
            full = taken.full ++ piece;
            count = suc taken.count;
            whole =
                omega (arith, length-append taken.full piece, size, taken.whole, taken.same_size);
            splits =
                taken.splits
                ∙ ap (λ xs. taken.full ++ xs) (sym (take-append-drop n aw.buffer))
                ∙ sym (append_assoc taken.full piece back);
            continues = λ End rest ct more.
                rw (append_assoc taken.full piece rest, append_assoc aw.written chunk ct)
                  (taken.continues End (piece ++ rest) (chunk ++ ct) (next size sealed more));
            ready = ready';
            same_size = sealed.same_size ∙ taken.same_size;
            same_aead = sealed.same_aead ∙ taken.same_aead;
            index = omega (
              arith,
              sealed.next_index,
              taken.index,
              length-append taken.full piece,
              size,
              room,
              taken.same_size,
            );
            processed =
                omega (arith, sealed.processed, taken.processed, length-append taken.full piece);
            bytes = All-drop IsByte n aw.buffer taken.bytes;
          } in
        (
          record { crypter = wo'; buffer = back; written = aw.written ++ chunk },
          taken',
          omega (arith, length-drop n aw.buffer, large, room, taken.same_size),
          λ more. rw sealed.seals refl,
        )

    write_chunks-HasTaken :
        (text : Bytes) (fuel : ℕ) (aw : AeadEncrypter)
        → HasTaken text aw
        → length text + 1 < 2 ^ 64
        → length aw.buffer < fuel
        → (aw' : AeadEncrypter) × (write_chunks fuel aw ≡ (ok tt, aw'))
          × HasTaken text aw'
          × (length aw'.buffer < start.chunk_size)
    unfolding write_chunks
    write_chunks-HasTaken text zero aw taken small enough = absurd (omega (arith, enough))
    write_chunks-HasTaken text (suc fuel) aw taken small enough =
        elim (Bool-cases (leb aw.crypter.chunk_size (length aw.buffer))) [
          | inl large ↦
              let (aw', taken', less, step) =
                write_chunk-HasTaken text aw taken small (ground (arith, large, taken.same_size)) in
              let (end, e, taken'', short) =
                write_chunks-HasTaken text fuel aw' taken' small (omega (arith, less, enough)) in
              (end, rw large (step (write_chunks fuel) ∙ e), taken'', short)
          | inr short ↦ (aw, rw short refl, taken, ground (arith, short, taken.same_size))
        ]

    -- A write takes its bytes.
    pub aead_write-HasTaken :
        (text plaintext : Bytes) (aw : AeadEncrypter)
        → HasTaken text aw
        → AreBytes plaintext
        → length text + length plaintext + 1 < 2 ^ 64
        → (aw' : AeadEncrypter) × (aead_write aw plaintext ≡ (ok tt, aw'))
          × HasTaken (text ++ plaintext) aw'
          × (length aw'.buffer < start.chunk_size)
    unfolding aead_write
    aead_write-HasTaken text plaintext aw taken bytes small =
        let buffer = aw.buffer ++ plaintext in
        let taken' : HasTaken (text ++ plaintext) (record aw { buffer = buffer }) = record {
          full = taken.full;
          count = taken.count;
          whole = taken.whole;
          splits =
              ap (λ xs. xs ++ plaintext) taken.splits ∙ append_assoc taken.full aw.buffer plaintext;
          continues = taken.continues;
          ready = taken.ready;
          same_size = taken.same_size;
          same_aead = taken.same_aead;
          index = taken.index;
          processed = taken.processed;
          bytes = All-append IsByte aw.buffer plaintext taken.bytes bytes;
        } in
        write_chunks-HasTaken (text ++ plaintext) (suc (length buffer))
          (record aw { buffer = buffer }) taken'
          (omega (arith, small, length-append text plaintext)) (omega arith)
