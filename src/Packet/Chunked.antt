-- ===== src/Packet/Chunked.antt =====
-- openpgp/packet/aead_crypter.go: data that is encrypted and authenticated in chunks. The `buffer` of an
-- `aeadCrypter` stands in the encrypter and the decrypter.
pub mod Index
pub mod Stream
pub mod Write
pub mod Open
pub mod Close
pub mod Exact
pub mod Ends
pub mod RoundTrip
pub mod Eax
pub mod Tests
use go_crypto.Base.{
  ℕ, zero, suc, ◌+◌, ◌-◌, Bool, true, false, not, ◌||◌, ◌&&◌, [], ◌∷◌, ◌++◌, length, take, drop,
  replicate, Bytes, Result, ok, err, panic, stuck, Error, eof, aead_error, structural, ◌>>=◌, ◌>>◌,
  fail_if, panic_if, ◌==◌, ltb, leb, if◌then◌else◌,
}
use go_crypto.Base.Words.{put_be_uint64, u64}
use go_crypto.ByteUtil.{xor_bytes}
use go_crypto.Io.Source.{ReadResult}

abbrev pub tag_seipd : ℕ
tag_seipd = 18

abbrev pub tag_aead_encrypted : ℕ
tag_aead_encrypted = 20

-- `cipher.AEAD`, a parameter: `seal nonce plaintext adata` and `open_sealed nonce ciphertext adata` with no
-- destination.
pub record Aead : Type 0 where
  pub overhead : ℕ
  pub seal : Bytes → Bytes → Bytes → Result Bytes
  pub open_sealed : Bytes → Bytes → Bytes → Result Bytes

-- `aeadCrypter`
pub record AeadCrypter : Type 0 where
  pub aead : Aead
  pub chunk_size : ℕ
  pub initial_nonce : Bytes
  pub associated_data : Bytes
  pub chunk_index : Bytes
  pub packet_tag : ℕ
  pub bytes_processed : ℕ

-- `computeNextNonce`
unfoldable pub compute_next_nonce : AeadCrypter → Result Bytes
compute_next_nonce wo =
    let n = length wo.initial_nonce in
    if wo.packet_tag == tag_seipd
    then ok (wo.initial_nonce ++ wo.chunk_index)
    else if ltb n 8 || ltb (length wo.chunk_index) 8
    then panic
    else ok (
        take (n - 8) wo.initial_nonce
        ++ xor_bytes (drop (n - 8) wo.initial_nonce) (take 8 wo.chunk_index))

-- The loop of `incrementIndex` from the last byte on, and whether it returned on the way.
unfoldable pub increment_loop : Bytes → Bytes × Bool
increment_loop [] = ([], false)
increment_loop (b ∷ index) =
    let (index', done) = increment_loop index in
    if done
    then (b ∷ index', true)
    else if ltb b 255
    then (suc b ∷ index', true)
    else (0 ∷ index', false)

-- `incrementIndex`
unfoldable pub increment_index : AeadCrypter → Result (Unit {0}) × AeadCrypter
unfolding increment_loop
increment_index wo =
    let (index, done) = increment_loop wo.chunk_index in
    let wo' = record wo { chunk_index = index } in
    if length wo.chunk_index == 0
    then (err (aead_error "Index has length 0"), wo)
    else if done
    then (ok tt, wo')
    else (err (aead_error "cannot further increment index"), wo')

-- `if packetTag == packetTypeAEADEncrypted { adata = append(associatedData, chunkIndex...) }`
unfoldable pub chunk_data : AeadCrypter → Bytes
chunk_data wo =
    if wo.packet_tag == tag_aead_encrypted
    then wo.associated_data ++ wo.chunk_index
    else wo.associated_data

-- The associated data of the final tag.
unfoldable pub final_data : AeadCrypter → Bytes
unfolding chunk_data
final_data wo = chunk_data wo ++ put_be_uint64 (u64 wo.bytes_processed)

-- What follows on a chunk that was sealed or opened: `text` is counted, and the index grows.
unfoldable pub after_chunk : AeadCrypter → ℕ → Bytes → Result Bytes × AeadCrypter
unfolding increment_index
after_chunk wo n chunk =
    let (r, wo') = increment_index (record wo { bytes_processed = wo.bytes_processed + n }) in
    (r >> ok chunk, wo')

-- `sealChunk`. The associated data is never nil.
unfoldable pub sealed_chunk : AeadCrypter → ℕ → Result Bytes → Result Bytes × AeadCrypter
sealed_chunk wo n (ok chunk) = after_chunk wo n chunk
sealed_chunk wo n r = (r, wo)

unfoldable pub seal_chunk : AeadCrypter → Bytes → Result Bytes × AeadCrypter
seal_chunk wo text =
    let sealed = compute_next_nonce wo >>= λ nonce. wo.aead.seal nonce text (chunk_data wo) in
    if ltb wo.chunk_size (length text)
    then (err (aead_error "chunk exceeds maximum length"), wo)
    else sealed_chunk wo (length text) sealed

-- `aeadEncrypter`: `written` is what went to the writer.
pub record AeadEncrypter : Type 0 where
  pub crypter : AeadCrypter
  pub buffer : Bytes
  pub written : Bytes

-- A sealed chunk is written, and what comes next is done.
unfoldable pub write_chunk :
    (AeadEncrypter → Result (Unit {0}) × AeadEncrypter)
    → AeadEncrypter
    → Result Bytes × AeadCrypter
    → Result (Unit {0}) × AeadEncrypter
write_chunk next aw (ok chunk, wo) =
    next (record aw { crypter = wo; written = aw.written ++ chunk })
write_chunk next aw (err e, wo) = (err e, record aw { crypter = wo })
write_chunk next aw (panic, wo) = (panic, record aw { crypter = wo })
write_chunk next aw (stuck, wo) = (stuck, record aw { crypter = wo })

-- `for aw.buffer.Len() >= aw.chunkSize`
unfoldable pub write_chunks : ℕ → AeadEncrypter → Result (Unit {0}) × AeadEncrypter
write_chunks zero aw = (stuck, aw)
write_chunks (suc fuel) aw =
    let n = aw.crypter.chunk_size in
    let next =
      write_chunk (write_chunks fuel) (record aw { buffer = drop n aw.buffer })
        (seal_chunk aw.crypter (take n aw.buffer)) in
    if leb n (length aw.buffer) then next else (ok tt, aw)

-- `aeadEncrypter.Write`
unfoldable pub aead_write : AeadEncrypter → Bytes → Result (Unit {0}) × AeadEncrypter
aead_write aw plaintext =
    let buffer = aw.buffer ++ plaintext in
    write_chunks (suc (length buffer)) (record aw { buffer = buffer })

-- The final tag is written.
unfoldable pub write_final_tag : AeadEncrypter → Result (Unit {0}) × AeadEncrypter
write_final_tag aw =
    let wo = aw.crypter in
    let tag = compute_next_nonce wo >>= λ nonce. wo.aead.seal nonce [] (final_data wo) in
    elim tag [
      | ok t ↦ (ok tt, record aw { written = aw.written ++ t })
      | err e ↦ (err e, aw)
      | panic ↦ (panic, aw)
      | stuck ↦ (stuck, aw)
    ]

-- `aeadEncrypter.Close`, up to the close of the writer below. `buffer.Bytes()` leaves the buffer as it is.
unfoldable pub aead_close : AeadEncrypter → Result (Unit {0}) × AeadEncrypter
aead_close aw =
    let last = write_chunk write_final_tag aw (seal_chunk aw.crypter aw.buffer) in
    if not (length aw.buffer == 0) || aw.crypter.bytes_processed == 0
    then last
    else write_final_tag aw

-- `aeadDecrypter`, on a source of bytes that never fails.
pub record AeadDecrypter : Type 0 where
  pub crypter : AeadCrypter
  pub buffer : Bytes
  pub reader : Bytes
  pub peeked_bytes : Bytes
  pub eof : Bool

-- The chunk and the decrypter with the crypter after it.
unfoldable pub opened_chunk :
    AeadDecrypter → Result Bytes × AeadCrypter → Result Bytes × AeadDecrypter
opened_chunk ar (r, wo) = (r, record ar { crypter = wo })

-- `openChunk`
unfoldable pub open_chunk : AeadDecrypter → Bytes → Result Bytes × AeadDecrypter
open_chunk ar chunk =
    let wo = ar.crypter in
    let extra = ar.peeked_bytes ++ chunk in
    let sep = length extra - wo.aead.overhead in
    let ar' = record ar { peeked_bytes = drop sep extra } in
    let opened = compute_next_nonce wo >>= λ nonce.
    wo.aead.open_sealed nonce (take sep extra) (chunk_data wo) in
    let out : Result Bytes × AeadDecrypter = elim opened [
      | ok text ↦ opened_chunk ar' (after_chunk wo (length text) text)
      | err e ↦ (err e, ar')
      | panic ↦ (panic, ar')
      | stuck ↦ (stuck, ar')
    ] in
    if ltb (length extra) wo.aead.overhead then (panic, ar) else out

-- `validateFinalTag`
unfoldable pub validate_final_tag : AeadCrypter → Bytes → Result (Unit {0})
validate_final_tag wo tag = compute_next_nonce wo >>= λ nonce.
    (wo.aead.open_sealed nonce tag (final_data wo) >>= λ text. ok tt)

-- The end of `Read`: at the end of the source the final tag is checked.
unfoldable pub after_open : ℕ → Bool → Result Bytes × AeadDecrypter → ReadResult × AeadDecrypter
after_open k at_end (ok text, ar) =
    let ar' = record ar { buffer = ar.buffer ++ drop k text } in
    let checked = validate_final_tag ar.crypter ar.peeked_bytes in
    let ended : ReadResult × AeadDecrypter = elim checked [
      | ok x ↦ ((take k text, ok tt), record ar' { eof = true })
      | err e ↦ ((take k text, err e), ar')
      | panic ↦ ((take k text, panic), ar')
      | stuck ↦ ((take k text, stuck), ar')
    ] in
    if at_end then ended else ((take k text, ok tt), ar')
after_open k at_end (err e, ar) = (([], err e), ar)
after_open k at_end (panic, ar) = (([], panic), ar)
after_open k at_end (stuck, ar) = (([], stuck), ar)

-- `aeadDecrypter.Read` into a buffer of `k` bytes.
unfoldable pub aead_read : AeadDecrypter → ℕ → ReadResult × AeadDecrypter
aead_read ar k =
    let size = ar.crypter.chunk_size + ar.crypter.aead.overhead in
    let chunk = take size ar.reader in
    let opened = open_chunk (record ar { reader = drop size ar.reader }) chunk in
    if ltb 0 (length ar.buffer)
    then ((take k ar.buffer, ok tt), record ar { buffer = drop k ar.buffer })
    else if ar.eof
    then (([], err Error.eof), ar)
    else after_open k (ltb (length ar.reader) size) opened

-- The decrypter that `decryptAead` and `AEADEncrypted.decrypt` return: the first bytes are carried.
unfoldable pub new_decrypter : AeadCrypter → Bytes → Result AeadDecrypter
new_decrypter wo contents = do
  fail_if (ltb (length contents) wo.aead.overhead) (structural "not enough data to decrypt")
  ok (record {
    crypter = wo;
    buffer = [];
    reader = drop wo.aead.overhead contents;
    peeked_bytes = take wo.aead.overhead contents;
    eof = false;
  })
