-- ===== src/Packet/Chunked/Stream.antt =====
-- Chunks, one by one: what is sealed can be opened in the same state.
use go_crypto.Base.{
  ℕ, ◌+◌, ◌-◌, ◌≤◌, ◌<◌, ◌^◌, true, false, ◌||◌, Bool-cases, inl, inr, ◌⊎◌, [], ◌++◌, length, take,
  drop, Bytes, AreBytes, IsByte, ok, err, Error, ◌==◌, ltb, ◌≡◌, refl, ◌∙◌, arith, length-append,
  length-take, length-drop, All-append, All-take, All-drop,
}
use go_crypto.Base.Words.{put_be_uint64, u64}
use go_crypto.ByteUtil.{xor_bytes}
use go_crypto.ByteUtil.Laws.{length-xor_bytes, xor_bytes-AreBytes}
use go_crypto.Packet.Chunked.{
  Aead, AeadCrypter, compute_next_nonce, increment_loop, increment_index, chunk_data, final_data,
  after_chunk, sealed_chunk, seal_chunk, validate_final_tag,
}
use go_crypto.Packet.Chunked.Index.{index_value, increment_loop_grows}

-- What an AEAD promises for nonces of one size: what it sealed it opens.
pub record IsAead (a : Aead) (nonce_size : ℕ) : Type 0 where
  pub opens :
      (nonce text adata : Bytes)
      → length nonce ≡ nonce_size
      → AreBytes nonce
      → AreBytes text
      → AreBytes adata
      → (chunk : Bytes) × (a.seal nonce text adata ≡ ok chunk)
        × (length chunk ≡ length text + a.overhead)
        × (a.open_sealed nonce chunk adata ≡ ok text)

-- The nonce fits the packet's way to make one, and all fields are bytes.
pub record IsReady (nonce_size : ℕ) (wo : AeadCrypter) : Type 0 where
  pub aead : IsAead wo.aead nonce_size
  pub nonce :
      ((wo.packet_tag ≡ 18) × (length wo.initial_nonce + 8 ≡ nonce_size))
      ⊎ ((wo.packet_tag ≡ 20) × (length wo.initial_nonce ≡ nonce_size) × (8 ≤ nonce_size))
  pub index_size : length wo.chunk_index ≡ 8
  pub index_bytes : AreBytes wo.chunk_index
  pub nonce_bytes : AreBytes wo.initial_nonce
  pub data_bytes : AreBytes wo.associated_data

module _ (nonce_size : ℕ) (wo : AeadCrypter) (is : IsReady nonce_size wo) where
  pub compute_next_nonce_lem :
      (nonce : Bytes) × (compute_next_nonce wo ≡ ok nonce)
      × (length nonce ≡ nonce_size)
      × AreBytes nonce
  unfolding compute_next_nonce
  compute_next_nonce_lem = elim is.nonce [
    | inl (tag, size) ↦
        let seipd : (wo.packet_tag == 18) ≡ true = ground (arith, tag) in
        (
          wo.initial_nonce ++ wo.chunk_index,
          rw seipd refl,
          omega (arith, size, is.index_size, length-append wo.initial_nonce wo.chunk_index),
          All-append IsByte wo.initial_nonce wo.chunk_index is.nonce_bytes is.index_bytes,
        )
    | inr (tag, size, large) ↦
        let other : (wo.packet_tag == 18) ≡ false = ground (arith, tag) in
        let n = length wo.initial_nonce in
        let fits : (ltb n 8 || ltb (length wo.chunk_index) 8) ≡ false =
          ground (arith, size, large, is.index_size) in
        let front = take (n - 8) wo.initial_nonce in
        let back = xor_bytes (drop (n - 8) wo.initial_nonce) (take 8 wo.chunk_index) in
        (
          front ++ back,
          rw (other, fits) refl,
          omega (
            arith,
            size,
            large,
            length-append front back,
            length-take (n - 8) wo.initial_nonce,
            length-drop (n - 8) wo.initial_nonce,
            length-xor_bytes (drop (n - 8) wo.initial_nonce) (take 8 wo.chunk_index),
          ),
          All-append IsByte front back (All-take IsByte (n - 8) wo.initial_nonce is.nonce_bytes) (
              xor_bytes-AreBytes (drop (n - 8) wo.initial_nonce) (take 8 wo.chunk_index)
                (All-drop IsByte (n - 8) wo.initial_nonce is.nonce_bytes)
                (All-take IsByte 8 wo.chunk_index is.index_bytes)),
        )
  ]

  pub chunk_data-AreBytes : AreBytes (chunk_data wo)
  unfolding chunk_data
  chunk_data-AreBytes = elim (Bool-cases (wo.packet_tag == 20)) [
    | inl e ↦
        rw e (All-append IsByte wo.associated_data wo.chunk_index is.data_bytes is.index_bytes)
    | inr e ↦ rw e is.data_bytes
  ]

  pub final_data-AreBytes : AreBytes (final_data wo)
  unfolding final_data put_be_uint64
  final_data-AreBytes =
      All-append IsByte (chunk_data wo) (put_be_uint64 (u64 wo.bytes_processed)) chunk_data-AreBytes
        (ground arith)

-- A chunk was sealed, and is opened in the same state.
pub record IsSealed (wo : AeadCrypter) (text chunk : Bytes) (wo' : AeadCrypter) : Type 0 where
  pub nonce : Bytes
  pub has_nonce : compute_next_nonce wo ≡ ok nonce
  pub seals : seal_chunk wo text ≡ (ok chunk, wo')
  pub size : length chunk ≡ length text + wo.aead.overhead
  pub opens : wo.aead.open_sealed nonce chunk (chunk_data wo) ≡ ok text
  pub counts : (out : Bytes) → after_chunk wo (length text) out ≡ (ok out, wo')
  pub same_aead : wo'.aead ≡ wo.aead
  pub same_size : wo'.chunk_size ≡ wo.chunk_size
  pub processed : wo'.bytes_processed ≡ wo.bytes_processed + length text
  pub next_index : index_value wo'.chunk_index ≡ index_value wo.chunk_index + 1

after_chunk_lem :
    (wo : AeadCrypter) (n : ℕ) (out : Bytes)
    → length wo.chunk_index ≡ 8
    → (increment_loop wo.chunk_index).1 ≡ true
    → after_chunk wo n out ≡ (
      ok out,
      record wo {
        bytes_processed = wo.bytes_processed + n;
        chunk_index = (increment_loop wo.chunk_index).0;
      },
    )
unfolding after_chunk increment_index
after_chunk_lem wo n out size grows =
    let some : (length wo.chunk_index == 0) ≡ false = ground (arith, size) in
    simp (some, grows) refl

seal_chunk-after_chunk :
    (wo : AeadCrypter) (text nonce chunk : Bytes)
    → compute_next_nonce wo ≡ ok nonce
    → wo.aead.seal nonce text (chunk_data wo) ≡ ok chunk
    → length text ≤ wo.chunk_size
    → seal_chunk wo text ≡ after_chunk wo (length text) chunk
unfolding seal_chunk sealed_chunk
seal_chunk-after_chunk wo text nonce chunk e seals fits =
    let short : ltb wo.chunk_size (length text) ≡ false = ground (arith, fits) in
    rw (short, e, seals) refl

pub seal_chunk-IsSealed :
    (nonce_size : ℕ) (wo : AeadCrypter) (text : Bytes)
    → IsReady nonce_size wo
    → length text ≤ wo.chunk_size
    → AreBytes text
    → index_value wo.chunk_index + 1 < 2 ^ 64
    → (chunk : Bytes) × (wo' : AeadCrypter) × IsSealed wo text chunk wo' × IsReady nonce_size wo'
seal_chunk-IsSealed nonce_size wo text is fits bytes room =
    let (nonce, e, size, nonce_bytes) = compute_next_nonce_lem nonce_size wo is in
    let (chunk, seals, chunk_size, opens) =
      is.aead.opens nonce text (chunk_data wo) size nonce_bytes bytes
        (chunk_data-AreBytes nonce_size wo is) in
    let (grows, index_size, index_bytes, next) =
      increment_loop_grows wo.chunk_index is.index_bytes is.index_size room in
    let counts : (out : Bytes)
        → after_chunk wo (length text) out ≡ (
          ok out,
          record wo {
            bytes_processed = wo.bytes_processed + length text;
            chunk_index = (increment_loop wo.chunk_index).0;
          },
        ) =
      λ out. after_chunk_lem wo (length text) out is.index_size grows in
    (
      chunk,
      record wo {
        bytes_processed = wo.bytes_processed + length text;
        chunk_index = (increment_loop wo.chunk_index).0;
      },
      record {
        nonce = nonce;
        has_nonce = e;
        seals = seal_chunk-after_chunk wo text nonce chunk e seals fits ∙ counts chunk;
        size = chunk_size;
        opens = opens;
        counts = counts;
        same_aead = refl;
        same_size = refl;
        processed = refl;
        next_index = next;
      },
      record {
        aead = is.aead;
        nonce = is.nonce;
        index_size = index_size;
        index_bytes = index_bytes;
        nonce_bytes = is.nonce_bytes;
        data_bytes = is.data_bytes;
      },
    )

-- The final tag was made, and is valid in the same state.
pub record IsFinalTag (wo : AeadCrypter) (tag : Bytes) : Type 0 where
  pub nonce : Bytes
  pub has_nonce : compute_next_nonce wo ≡ ok nonce
  pub seals : wo.aead.seal nonce [] (final_data wo) ≡ ok tag
  pub size : length tag ≡ wo.aead.overhead
  pub valid : validate_final_tag wo tag ≡ ok tt

pub seals-IsFinalTag :
    (nonce_size : ℕ) (wo : AeadCrypter) → IsReady nonce_size wo → (tag : Bytes) × IsFinalTag wo tag
unfolding validate_final_tag
seals-IsFinalTag nonce_size wo is =
    let (nonce, e, size, nonce_bytes) = compute_next_nonce_lem nonce_size wo is in
    let (tag, seals, tag_size, opens) =
      is.aead.opens nonce [] (final_data wo) size nonce_bytes tt
        (final_data-AreBytes nonce_size wo is) in
    (
      tag,
      record {
        nonce = nonce;
        has_nonce = e;
        seals = seals;
        size = omega (arith, tag_size);
        valid = rw (e, opens) refl;
      },
    )

-- Full chunks, and an end that is described by `End`.
pub data Chunks (End : AeadCrypter → Bytes → Bytes → Type 0)
    : AeadCrypter → Bytes → Bytes → Type 0 where
  ends : {wo : AeadCrypter} {text ct : Bytes} → End wo text ct → Chunks End wo text ct
  next :
      {wo wo' : AeadCrypter} {piece chunk rest ct : Bytes}
      → length piece ≡ wo.chunk_size
      → IsSealed wo piece chunk wo'
      → Chunks End wo' rest ct
      → Chunks End wo (piece ++ rest) (chunk ++ ct)

-- The end of data whose last chunk is not full: that chunk and the final tag.
pub record IsShortEnd (wo : AeadCrypter) (text ct : Bytes) : Type 0 where
  pub short : length text < wo.chunk_size
  pub chunk : Bytes
  pub tag : Bytes
  pub after : AeadCrypter
  pub seals : IsSealed wo text chunk after
  pub final : IsFinalTag after tag
  pub splits : ct ≡ chunk ++ tag

-- A text that is shorter than a tag is refused, with an error.
abbrev pub Refuses : Aead → ℕ → Error → Type 0
Refuses a nonce_size e =
    (nonce chunk adata : Bytes)
    → length nonce ≡ nonce_size
    → length chunk < a.overhead
    → a.open_sealed nonce chunk adata ≡ err e

-- The end behind a full chunk: the final tag only, in a state that refuses an empty chunk.
pub record IsBareEnd (e : Error) (wo : AeadCrypter) (text ct : Bytes) : Type 0 where
  pub empty : text ≡ []
  pub final : IsFinalTag wo ct
  pub nonce : Bytes
  pub has_nonce : compute_next_nonce wo ≡ ok nonce
  pub refused : wo.aead.open_sealed nonce [] (chunk_data wo) ≡ err e
  pub room : 0 < wo.chunk_size
