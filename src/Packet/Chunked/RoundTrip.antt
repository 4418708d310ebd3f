-- ===== src/Packet/Chunked/RoundTrip.antt =====
-- Data in chunks, written and read back.
use go_crypto.Base.{
  ℕ, suc, ◌+◌, ◌*◌, ◌≤◌, ◌<◌, ◌^◌, false, List, [], ◌∷◌, ◌++◌, length, take, drop, replicate,
  concat, All, Bytes, AreBytes, Result, ok, err, Error, eof, ltb, ◌≡◌, ◌≢◌, refl, sym, ap, subst,
  arith, length-append, length-take, append_assoc, append-nil, take-append-drop,
}
use go_crypto.Io.Source.{read_to_end}
use go_crypto.Packet.Chunked.{
  AeadCrypter, AeadEncrypter, AeadDecrypter, aead_write, aead_close, aead_read, new_decrypter,
}
use go_crypto.Packet.Chunked.Index.{index_value}
use go_crypto.Packet.Chunked.Stream.{IsReady, Refuses, Chunks, IsShortEnd, IsBareEnd}
use go_crypto.Packet.Chunked.Open.{opening}
use go_crypto.Packet.Chunked.Write.{HasTaken, aead_write-HasTaken}
use go_crypto.Packet.Chunked.Close.{aead_close-IsShortEnd, aead_close-IsBareEnd}
use go_crypto.Packet.Chunked.Exact.{Chunks-large}
use go_crypto.Packet.Chunked.Ends.{short_end_large, bare_end_large, read_bare, read_short}

-- The pieces are written one after the other, and the encrypter is closed.
unfoldable pub after_write :
    (AeadEncrypter → Result (Unit {0}) × AeadEncrypter)
    → Result (Unit {0}) × AeadEncrypter
    → Result (Unit {0}) × AeadEncrypter
after_write more (ok x, aw) = more aw
after_write more (r, aw) = (r, aw)

unfoldable pub write_pieces : List Bytes → AeadEncrypter → Result (Unit {0}) × AeadEncrypter
unfolding after_write
write_pieces [] aw = aead_close aw
write_pieces (piece ∷ pieces) aw = after_write (write_pieces pieces) (aead_write aw piece)

-- An encrypter that has written nothing.
unfoldable pub new_encrypter : AeadCrypter → AeadEncrypter
new_encrypter wo = record { crypter = wo; buffer = []; written = [] }

-- The crypter at its start.
pub record IsFresh (nonce_size : ℕ) (wo : AeadCrypter) : Type 0 where
  pub ready : IsReady nonce_size wo
  pub room : 0 < wo.chunk_size
  pub index : wo.chunk_index ≡ replicate 8 0
  pub processed : wo.bytes_processed ≡ 0

module _ (nonce_size : ℕ) (wo : AeadCrypter) (fresh : IsFresh nonce_size wo) where
  new_encrypter-HasTaken : HasTaken nonce_size wo [] (new_encrypter wo)
  unfolding new_encrypter index_value
  new_encrypter-HasTaken =
      let start : index_value (replicate 8 0) ≡ 0 = refl in
      record {
        full = [];
        count = 0;
        whole = omega arith;
        splits = refl;
        continues = λ End rest ct chunks. chunks;
        ready = fresh.ready;
        same_size = refl;
        same_aead = refl;
        index = omega (arith, ap index_value fresh.index, start);
        processed = fresh.processed;
        bytes = tt;
      }

  -- All pieces but the close.
  written :
      (Done : AeadEncrypter → Type 0) (text : Bytes) (pieces : List Bytes) (aw : AeadEncrypter)
      → HasTaken nonce_size wo text aw
      → length aw.buffer < wo.chunk_size
      → All AreBytes pieces
      → length text + length (concat pieces) + 1 < 2 ^ 64
      → ((aw' : AeadEncrypter)
          → HasTaken nonce_size wo (text ++ concat pieces) aw'
          → length aw'.buffer < wo.chunk_size
          → (end : AeadEncrypter) × (aead_close aw' ≡ (ok tt, end)) × Done end)
      → (end : AeadEncrypter) × (write_pieces pieces aw ≡ (ok tt, end)) × Done end
  unfolding write_pieces
  written Done text [] aw taken short bytes small closes =
      closes aw (subst (λ xs. HasTaken nonce_size wo xs aw) (sym (append-nil text)) taken) short
  written Done text (piece ∷ pieces) aw taken short (b, bytes) small closes =
      let (aw', e, taken', short') =
        aead_write-HasTaken nonce_size wo fresh.room text piece aw taken b
          (omega (arith, small, length-append piece (concat pieces))) in
      let (end, e', done) =
        written Done (text ++ piece) pieces aw' taken' short' bytes
          (omega (arith, small, length-append text piece, length-append piece (concat pieces)))
          (λ last given. closes last (
            subst (λ xs. HasTaken nonce_size wo xs last) (append_assoc text piece (concat pieces))
              given)) in
      (end, rw e e', done)

  -- The carried bytes of a text that is long enough.
  new_decrypter_lem :
      (ct : Bytes)
      → wo.aead.overhead ≤ length ct
      → new_decrypter wo ct ≡ ok (opening wo (take wo.aead.overhead ct) (drop wo.aead.overhead ct))
  unfolding new_decrypter
  new_decrypter_lem ct large =
      let enough : ltb (length ct) wo.aead.overhead ≡ false = ground (arith, large) in
      rw enough refl

  -- From a fresh state over an AEAD that opens what it seals, a text of fewer than 2 ^ 64 - 1 bytes
  -- whose length is no positive multiple of the chunk size, written in any pieces and closed, is
  -- read back to its end by a decrypter that starts in the same state, with buffers of any positive
  -- size.
  pub aead_read-aead_write :
      (pieces : List Bytes) (k fuel : ℕ)
      → All AreBytes pieces
      → length (concat pieces) + 1 < 2 ^ 64
      → ((n : ℕ) → length (concat pieces) ≢ suc n * wo.chunk_size)
      → 0 < k
      → length (concat pieces) + 1 < fuel
      → (aw : AeadEncrypter) × (ar : AeadDecrypter) × (write_pieces pieces (new_encrypter wo)
          ≡ (ok tt, aw))
        × (new_decrypter wo aw.written ≡ ok ar)
        × ((read_to_end aead_read k fuel ar).0 ≡ ok (concat pieces))
  unfolding new_encrypter
  aead_read-aead_write pieces k fuel bytes small partial some enough =
      let (aw, e, chunks) =
        written (λ end. Chunks IsShortEnd wo (concat pieces) end.written) [] pieces
          (new_encrypter wo) new_encrypter-HasTaken fresh.room bytes (omega (arith, small))
          (λ last taken short.
            aead_close-IsShortEnd nonce_size wo (concat pieces) last taken short small partial) in
      let large = Chunks-large IsShortEnd short_end_large wo (concat pieces) aw.written chunks in
      (
        aw,
        opening wo (take wo.aead.overhead aw.written) (drop wo.aead.overhead aw.written),
        e,
        new_decrypter_lem aw.written large,
        read_short k fuel wo (concat pieces) aw.written (take wo.aead.overhead aw.written)
            (drop wo.aead.overhead aw.written) some fresh.room chunks
            (take-append-drop wo.aead.overhead aw.written)
            (omega (arith, large, length-take wo.aead.overhead aw.written)) enough,
      )

  -- From a fresh state over an AEAD that opens what it seals and refuses what is shorter than its
  -- tag with an error other than EOF, a text of fewer than 2 ^ 64 - 1 bytes whose length is a
  -- positive multiple of the chunk size is written and closed without an error, but reading it to
  -- its end fails with that error.
  pub aead_read-aead_write_whole :
      (pieces : List Bytes) (n k fuel : ℕ) (e : Error)
      → Refuses wo.aead nonce_size e
      → e ≢ eof
      → 0 < wo.aead.overhead
      → All AreBytes pieces
      → length (concat pieces) + 1 < 2 ^ 64
      → length (concat pieces) ≡ suc n * wo.chunk_size
      → 0 < k
      → length (concat pieces) + 1 < fuel
      → (aw : AeadEncrypter) × (ar : AeadDecrypter) × (write_pieces pieces (new_encrypter wo)
          ≡ (ok tt, aw))
        × (new_decrypter wo aw.written ≡ ok ar)
        × ((read_to_end aead_read k fuel ar).0 ≡ err e)
  unfolding new_encrypter
  aead_read-aead_write_whole pieces n k fuel e refuses real some_tag bytes small whole some enough =
      let (aw, done, chunks) =
        written (λ end. Chunks (IsBareEnd e) wo (concat pieces) end.written) [] pieces
          (new_encrypter wo) new_encrypter-HasTaken fresh.room bytes (omega (arith, small))
          (λ last taken short.
            aead_close-IsBareEnd nonce_size wo (concat pieces) last n e refuses some_tag taken short
              whole) in
      let large =
        Chunks-large (IsBareEnd e) (bare_end_large e) wo (concat pieces) aw.written chunks in
      (
        aw,
        opening wo (take wo.aead.overhead aw.written) (drop wo.aead.overhead aw.written),
        done,
        new_decrypter_lem aw.written large,
        read_bare k fuel e wo (concat pieces) aw.written (take wo.aead.overhead aw.written)
            (drop wo.aead.overhead aw.written) real some fresh.room chunks
            (take-append-drop wo.aead.overhead aw.written)
            (omega (arith, large, length-take wo.aead.overhead aw.written)) enough,
      )
