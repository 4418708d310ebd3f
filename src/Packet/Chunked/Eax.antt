-- ===== src/Packet/Chunked/Eax.antt =====
-- EAX as the mode of data in chunks.
use go_crypto.Base.{◌≤◌, [], length, true, false, ok, ◌≡◌, refl, ◌∙◌, ap, arith, take_all, ltb}
use go_crypto.Crypto.Block.{IsCipher}
use go_crypto.Crypto.Eax.{Eax, eax_error, eax_seal, eax_open}
use go_crypto.Crypto.Eax.RoundTrip.{IsReadyEax, eax_open-eax_seal}
use go_crypto.Packet.Chunked.{Aead}
use go_crypto.Packet.Chunked.Stream.{IsAead, Refuses}

-- An `eax` as a `cipher.AEAD` without destinations.
unfoldable pub eax_mode : Eax → Aead
eax_mode e = record {
  overhead = e.tag_size;
  seal = λ nonce text adata. eax_seal e [] nonce text adata;
  open_sealed = λ nonce chunk adata. eax_open e [] nonce chunk adata;
}

-- EAX over a block cipher with blocks of 16 bytes promises what chunks rely on.
pub eax_mode-IsAead :
    (e : Eax)
    → e.block.block_size ≡ 16
    → IsCipher e.block
    → e.tag_size ≤ 16
    → IsAead (eax_mode e) e.nonce_size
unfolding eax_mode
eax_mode-IsAead e size cipher tag = record {
  opens = λ nonce text adata fits nonce_bytes bytes adata_bytes.
      let ready : IsReadyEax e nonce adata = record {
        size = size;
        cipher = cipher;
        tag = tag;
        fits = omega (arith, fits);
        nonce_bytes = nonce_bytes;
        adata_bytes = adata_bytes;
      } in
      let (sealed, seals, sealed_size, opens) =
        eax_open-eax_seal e nonce adata ready [] [] text bytes in
      (sealed, seals, sealed_size, opens ∙ ap ok (take_all (length text) text (omega arith)));
}

pub eax_mode-Refuses : (e : Eax) → Refuses (eax_mode e) e.nonce_size eax_error
unfolding eax_mode eax_open
eax_mode-Refuses e nonce chunk adata fits short =
    let right : ltb e.nonce_size (length nonce) ≡ false = ground (arith, fits) in
    let refused : ltb (length chunk) e.tag_size ≡ true = ground (arith, short) in
    rw (right, refused) refl
