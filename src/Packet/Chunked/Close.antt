-- ===== src/Packet/Chunked/Close.antt =====
-- The end of sealing in chunks.
use go_crypto.Base.{
  ℕ, zero, suc, ◌+◌, ◌*◌, ◌<◌, ◌^◌, true, false, not, ◌||◌, Bool-cases, inl, inr, [], ◌∷◌, ◌++◌,
  length, Bytes, ok, Error, ◌==◌, ◌≡◌, ◌≢◌, refl, sym, ap, ◌∙◌, subst, arith, length-append,
  append_assoc,
}
use go_crypto.Packet.Chunked.{
  Aead, AeadCrypter, AeadEncrypter, chunk_data, write_chunk, write_final_tag, aead_close,
}
use go_crypto.Packet.Chunked.Stream.{
  Refuses, compute_next_nonce_lem, seal_chunk-IsSealed, IsFinalTag, seals-IsFinalTag, Chunks, ends,
  IsShortEnd, IsBareEnd,
}
use go_crypto.Packet.Chunked.Write.{HasTaken}

write_final_tag_lem :
    (aw : AeadEncrypter) (tag : Bytes)
    → IsFinalTag aw.crypter tag
    → write_final_tag aw ≡ (ok tt, record aw { written = aw.written ++ tag })
unfolding write_final_tag
write_final_tag_lem aw tag final = rw (write_final_tag, final.has_nonce, final.seals) refl

module _ (nonce_size : ℕ) (start : AeadCrypter) where
  close_short :
      (text : Bytes) (aw : AeadEncrypter)
      → HasTaken nonce_size start text aw
      → length aw.buffer < start.chunk_size
      → length text + 1 < 2 ^ 64
      → (not (length aw.buffer == 0) || aw.crypter.bytes_processed == 0) ≡ true
      → (aw' : AeadEncrypter) × (aead_close aw ≡ (ok tt, aw'))
        × Chunks IsShortEnd start text aw'.written
  unfolding aead_close write_chunk
  close_short text aw taken short small last =
      let total = ap length taken.splits ∙ length-append taken.full aw.buffer in
      let (chunk, wo', sealed, ready') =
        seal_chunk-IsSealed nonce_size aw.crypter aw.buffer taken.ready
          (omega (arith, short, taken.same_size)) taken.bytes
          (omega (arith, taken.index, total, small)) in
      let (tag, final) = seals-IsFinalTag nonce_size wo' ready' in
      let aw' : AeadEncrypter = record {
        crypter = wo';
        buffer = aw.buffer;
        written = aw.written ++ chunk;
      } in
      let end : IsShortEnd aw.crypter aw.buffer (chunk ++ tag) = record {
        short = omega (arith, short, taken.same_size);
        chunk = chunk;
        tag = tag;
        after = wo';
        seals = sealed;
        final = final;
        splits = refl;
      } in
      (
        record aw' { written = (aw.written ++ chunk) ++ tag },
        rw (last, sealed.seals) (write_final_tag_lem aw' tag final),
        subst (λ xs. Chunks IsShortEnd start xs ((aw.written ++ chunk) ++ tag)) (sym taken.splits)
            (rw (append_assoc aw.written chunk tag)
              (taken.continues IsShortEnd aw.buffer (chunk ++ tag) (ends end))),
      )

  close_bare :
      (text : Bytes) (aw : AeadEncrypter) (e : Error)
      → Refuses start.aead nonce_size e
      → 0 < start.aead.overhead
      → 0 < start.chunk_size
      → HasTaken nonce_size start text aw
      → length aw.buffer ≡ 0
      → 0 < aw.crypter.bytes_processed
      → (aw' : AeadEncrypter) × (aead_close aw ≡ (ok tt, aw'))
        × Chunks (IsBareEnd e) start text aw'.written
  unfolding aead_close
  close_bare text aw e refuses some_tag room taken empty some =
      let (tag, final) = seals-IsFinalTag nonce_size aw.crypter taken.ready in
      let bare : (not (length aw.buffer == 0) || aw.crypter.bytes_processed == 0) ≡ false =
        ground (arith, empty, some) in
      let (nonce, has_nonce, size, bytes) =
        compute_next_nonce_lem nonce_size aw.crypter taken.ready in
      let refuses' : Refuses aw.crypter.aead nonce_size e =
        subst (λ a. Refuses a nonce_size e) (sym taken.same_aead) refuses in
      let none : aw.buffer ≡ [] = no_bytes aw.buffer empty in
      let end : IsBareEnd e aw.crypter aw.buffer tag = record {
        empty = none;
        final = final;
        nonce = nonce;
        has_nonce = has_nonce;
        refused =
            refuses' nonce [] (chunk_data aw.crypter) size
              (omega (arith, some_tag, ap (λ (a : Aead). a.overhead) taken.same_aead));
        room = omega (arith, room, taken.same_size);
      } in
      (
        record aw { written = aw.written ++ tag },
        rw bare (write_final_tag_lem aw tag final),
        subst (λ xs. Chunks (IsBareEnd e) start xs (aw.written ++ tag)) (sym taken.splits)
            (taken.continues (IsBareEnd e) aw.buffer tag (ends end)),
      )
    where
      no_bytes : (xs : Bytes) → length xs ≡ 0 → xs ≡ []
      no_bytes [] h = refl
      no_bytes (x ∷ xs) h = absurd (omega (arith, h))

  -- A remainder below the divisor is unique.
  no_remainder : (n m r k : ℕ) → r < k → n * k + r ≡ m * k → r ≡ 0
  no_remainder zero zero r k h e = omega (arith, e)
  no_remainder zero (suc m) r k h e = absurd (omega (arith, e, h))
  no_remainder (suc n) zero r k h e = absurd (omega (arith, e, h))
  no_remainder (suc n) (suc m) r k h e = no_remainder n m r k h (omega (arith, e))

  no_multiple : (size k n : ℕ) → ((m : ℕ) → size ≢ suc m * k) → size ≡ n * k → 0 < size → ⊥
  no_multiple size k zero never e h = omega (arith, e, h)
  no_multiple size k (suc n) never e h = never n e

  -- The close of a text that is no positive multiple of the chunk size.
  pub aead_close-IsShortEnd :
      (text : Bytes) (aw : AeadEncrypter)
      → HasTaken nonce_size start text aw
      → length aw.buffer < start.chunk_size
      → length text + 1 < 2 ^ 64
      → ((n : ℕ) → length text ≢ suc n * start.chunk_size)
      → (aw' : AeadEncrypter) × (aead_close aw ≡ (ok tt, aw'))
        × Chunks IsShortEnd start text aw'.written
  aead_close-IsShortEnd text aw taken short small partial =
      elim (Bool-cases (not (length aw.buffer == 0) || aw.crypter.bytes_processed == 0)) [
        | inl last ↦ close_short text aw taken short small last
        | inr bare ↦
            let total = ap length taken.splits ∙ length-append taken.full aw.buffer in
            let empty : length aw.buffer ≡ 0 = ground (arith, bare) in
            let some : 0 < aw.crypter.bytes_processed = ground (arith, bare) in
            absurd (
              no_multiple (length text) start.chunk_size taken.count partial
                (omega (arith, total, empty, taken.whole))
                (omega (arith, some, taken.processed, total)))
      ]

  -- The close of a text that is a positive multiple of the chunk size.
  pub aead_close-IsBareEnd :
      (text : Bytes) (aw : AeadEncrypter) (n : ℕ) (e : Error)
      → Refuses start.aead nonce_size e
      → 0 < start.aead.overhead
      → HasTaken nonce_size start text aw
      → length aw.buffer < start.chunk_size
      → length text ≡ suc n * start.chunk_size
      → (aw' : AeadEncrypter) × (aead_close aw ≡ (ok tt, aw'))
        × Chunks (IsBareEnd e) start text aw'.written
  aead_close-IsBareEnd text aw n e refuses some_tag taken short whole =
      let total = ap length taken.splits ∙ length-append taken.full aw.buffer in
      let empty =
        no_remainder taken.count (suc n) (length aw.buffer) start.chunk_size short
          (omega (arith, whole, total, taken.whole)) in
      close_bare text aw e refuses some_tag (omega (arith, short)) taken empty
        (omega (arith, taken.processed, total, empty, whole, short))
